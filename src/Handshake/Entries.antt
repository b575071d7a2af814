-- ===== src/Handshake/Entries.antt =====
-- An entry, and the hash table of uthash.h that holds entries by their names. `H` is a table that is not
-- empty: the empty one is the null pointer.
use vcmp.Prelude.{◌≡◌, ◌≢◌, Option, List, none, some, Bytes}

-- The two arrays of 256 bytes.
pub record Entry : Type 0 where
  pub key : Bytes
  pub value : Bytes

-- `HASH_ADD_STR` with the string that it finds in `key`, and `HASH_FIND_STR`.
pub record Uthash (H : Type 0) : Type 0 where
  pub add_str : Option H → Bytes → Entry → H
  pub find_str : Option H → Bytes → Option Entry

-- `HASH_ITER`, which goes over the entries, and `HASH_DEL`, which gives the table without one.
pub record UthashLoop (H : Type 0) : Type 0 where
  pub entries : Option H → List Entry
  pub del : Option H → Entry → Option H

-- uthash: what is added under a name that the table does not hold is found under that name; other names
-- are found as before; and nothing is found in the empty table.
pub record UthashLaw {H : Type 0} (uthash : Uthash H) : Type 0 where
  pub find_empty : (name : Bytes) → uthash.find_str none name ≡ none
  pub find_added :
      (head : Option H) (name : Bytes) (e : Entry)
      → uthash.find_str head name ≡ none
      → uthash.find_str (some (uthash.add_str head name e)) name ≡ some e
  pub find_other :
      (head : Option H) (name other : Bytes) (e : Entry)
      → name ≢ other
      → uthash.find_str head name ≡ none
      → uthash.find_str (some (uthash.add_str head name e)) other ≡ uthash.find_str head other
