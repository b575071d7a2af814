-- ===== src/Ini.antt =====
-- Configuration files (vcmp/lib/ini.c and vcmp/lib/ini.h): the data, and what puts it together.
pub mod Store
pub mod Frees
pub mod Parser
pub mod File
pub mod Turns
pub mod Scanning
pub mod Measure
pub mod Termination
pub mod Freeing
pub mod Lookup
pub mod Reading
pub mod Nonzero
pub mod Unterminated
pub mod Overrun
mod Tests
use vcmp.Prelude.{ℕ, suc, ◌+◌, Option, none, some, List, [], ◌∷◌, Bytes}

-- A string from `strdup`: its block, and its bytes before the zero. A null pointer is `none`.
pub record Text : Type 0 where
  pub block : ℕ
  pub bytes : Bytes

-- A linked list is a list; each of its nodes has a block.
pub record Keyval : Type 0 where
  pub block : ℕ
  pub name : Option Text
  pub value : Option Text

pub record Section : Type 0 where
  pub block : ℕ
  pub name : Option Text
  pub keyvals : List Keyval

pub record Config : Type 0 where
  pub block : ℕ
  pub sections : List Section
  pub global_keyvals : List Keyval
