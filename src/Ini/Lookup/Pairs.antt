-- ===== src/Ini/Lookup/Pairs.antt =====
-- Pairs at the end of a list (vcmp/lib/ini.c).
use vcmp.Prelude.{
  ◌≡◌, refl, [], ◌∷◌, List, Bytes, none, some, done, if◌then◌else◌, Without, All, Bool-cases, inl,
  inr,
}
use vcmp.Ini.{Text, Keyval}
use vcmp.Ini.Store.{set_end, find_value}
use vcmp.Ini.Lookup.{same, or_else, text_of, value_of}
use vcmp.Ini.Lookup.Names.{Spells, is_named_lem}

-- The name and the value were copied.
pub record IsPair (pair : Keyval) : Type 0 where
  pub name : Text
  pub value : Text
  pub has_name : pair.name ≡ some name
  pub has_value : pair.value ≡ some value
  pub ends : Without 0 name.bytes

pub value_of-set_end :
    (pairs : List Keyval) (new : Keyval) (k : Bytes)
    → value_of (set_end pairs (some new)) k
      ≡ or_else
          (value_of pairs k)
          (if same (text_of new.name) k then some (text_of new.value) else none)
value_of-set_end [] new k = refl
value_of-set_end (pair ∷ pairs) new k = elim (Bool-cases (same (text_of pair.name) k)) [
  | inl e ↦ rw e refl
  | inr e ↦ rw e (value_of-set_end pairs new k)
]

pub find_value_lem :
    (pairs : List Keyval) (object k : Bytes)
    → All IsPair pairs
    → Spells object k
    → find_value pairs object ≡ done (value_of pairs k)
unfolding find_value
find_value_lem [] object k ok spells = refl
find_value_lem (pair ∷ pairs) object k (ok, all_ok) spells =
    rw (ok.has_name, is_named_lem ok.name object k ok.ends spells)
      (elim (Bool-cases (same ok.name.bytes k)) [
        | inl e ↦ rw (e, ok.has_value) refl
        | inr e ↦ rw e (find_value_lem pairs object k all_ok spells)
      ])

pub set_end-IsPair :
    (pairs : List Keyval) (new : Keyval)
    → All IsPair pairs
    → IsPair new
    → All IsPair (set_end pairs (some new))
set_end-IsPair [] new ok k = (k, tt)
set_end-IsPair (pair ∷ pairs) new (ok, all_ok) k = (ok, set_end-IsPair pairs new all_ok k)
