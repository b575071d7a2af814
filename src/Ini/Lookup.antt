-- ===== src/Ini/Lookup.antt =====
-- A configuration as what is found in it: the first value that was assigned to a key of a section.
pub mod Names
pub mod Pairs
pub mod Places
pub mod Added
pub mod Assign
pub mod Runs
use vcmp.Prelude.{
  ◌≡◌, Option, none, some, List, [], ◌∷◌, Bool, true, false, ◌&&◌, Bytes, ◌==◌, if◌then◌else◌,
}
use vcmp.Ini.{Text, Keyval, Section, Config}

abbrev pub same : Bytes → Bytes → Bool
same [] [] = true
same [] (y ∷ ys) = false
same (x ∷ xs) [] = false
same (x ∷ xs) (y ∷ ys) = x == y && same xs ys

-- No section, which is the global one, is `none`.
abbrev pub same_section : Option Bytes → Option Bytes → Bool
same_section none none = true
same_section none (some t) = false
same_section (some s) none = false
same_section (some s) (some t) = same s t

-- What `assign_keyval` is asked for.
pub record Assignment : Type 0 where
  pub section : Option Bytes
  pub name : Bytes
  pub value : Bytes

-- The specification: among the assignments to that key of that section, the first one counts.
abbrev pub first_value : List Assignment → Option Bytes → Bytes → Option Bytes
first_value [] section name = none
first_value (a ∷ assignments) section name =
    if same_section a.section section && same a.name name
    then some a.value
    else first_value assignments section name

abbrev pub or_else {ℓ} : {A : Type ℓ} → Option A → Option A → Option A
or_else none o = o
or_else (some a) o = some a

abbrev pub text_of : Option Text → Bytes
text_of none = []
text_of (some text) = text.bytes

-- What stands in the lists of a configuration.
abbrev pub value_of : List Keyval → Bytes → Option Bytes
value_of [] name = none
value_of (pair ∷ pairs) name =
    if same (text_of pair.name) name then some (text_of pair.value) else value_of pairs name

abbrev pub section_value : List Section → Bytes → Bytes → Option Bytes
section_value [] section name = none
section_value (s ∷ sections) section name =
    if same (text_of s.name) section
    then value_of s.keyvals name
    else section_value sections section name

abbrev pub lookup : Config → Option Bytes → Bytes → Option Bytes
lookup cfg none name = value_of cfg.global_keyvals name
lookup cfg (some section) name = section_value cfg.sections section name
