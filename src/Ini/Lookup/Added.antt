-- ===== src/Ini/Lookup/Added.antt =====
-- New pairs and sections, with memory for all (vcmp/lib/ini.c).
use vcmp.Prelude.{
  ℕ, suc, ◌≡◌, refl, ap, inl, inr, [], List, Bool, true, ◌&&◌, Bytes, Option, none, some, done,
  if◌then◌else◌, Without, All, arith, length,
}
use vcmp.Ini.{Keyval, Section, Config}
use vcmp.Ini.Store.{
  set_end, strdup, new_section, new_keyval, add_section, add_keyval, found_or_added,
  find_or_create_section,
}
use vcmp.Ini.Lookup.{same, same_section, or_else, section_value, lookup}
use vcmp.Ini.Lookup.Names.{Spells, Starts, same_refl, string_of-Spells, load-Spells}
use vcmp.Ini.Lookup.Pairs.{IsPair}
use vcmp.Ini.Lookup.Places.{
  IsSection, Found, find_place-cases, section_value-set_end, set_end-Found, set_end-IsSection,
}

-- Every string of the configuration was copied.
pub record IsConfig (cfg : Config) : Type 0 where
  pub globals : All IsPair cfg.global_keyvals
  pub sections : All IsSection cfg.sections

-- What is found after an assignment to a key of a section.
abbrev pub found_after : Config → Option Bytes → Bytes → Bytes → Option Bytes → Bytes → Option Bytes
found_after cfg section name value s k =
    or_else (lookup cfg s k) (if same_section section s && same name k then some value else none)

-- The configuration `cfg'` is what an assignment leaves of `cfg`.
abbrev pub IsAssigned : Config → Option Bytes → Bytes → Bytes → Config → Type 0
IsAssigned cfg section name value cfg' =
    IsConfig cfg'
    × ((s : Option Bytes) (k : Bytes) → lookup cfg' s k ≡ found_after cfg section name value s k)

-- The pointer is null for no section, or points to the name of one.
abbrev pub SpellsSection : Option Bytes → Option Bytes → Type 0
SpellsSection none none = Unit
SpellsSection (some object) (some section) = Spells object section × Starts section
SpellsSection _ _ = ⊥

module _ (malloc : ℕ → Bool) (memory : (n : ℕ) → malloc n ≡ true) where
  strdup_lem :
      (n : ℕ) (object s : Bytes)
      → Spells object s
      → strdup malloc n object ≡ done (some (record { block = n; bytes = s }), suc n)
  unfolding strdup
  strdup_lem n object s spells = rw (string_of-Spells object s spells, memory n) refl

  abbrev pub pair_at : ℕ → Bytes → Bytes → Keyval
  pair_at n name value = record {
    block = n;
    name = some (record { block = suc n; bytes = name });
    value = some (record { block = suc (suc n); bytes = value });
  }

  pub add_keyval_lem :
      (n : ℕ) (root : List Keyval) (name_object name value_object value : Bytes)
      → Spells name_object name
      → Spells value_object value
      → add_keyval malloc n root name_object value_object
        ≡ done (set_end root (some (pair_at n name value)), suc (suc (suc n)))
  unfolding add_keyval new_keyval
  add_keyval_lem n root name_object name value_object value is_name is_value =
      rw
        (
          memory n,
          strdup_lem (suc n) name_object name is_name,
          strdup_lem (suc (suc n)) value_object value is_value,
        )
        refl

  pub pair_at-IsPair : (n : ℕ) (name value : Bytes) → Without 0 name → IsPair (pair_at n name value)
  pair_at-IsPair n name value w = record {
    name = record { block = suc n; bytes = name };
    value = record { block = suc (suc n); bytes = value };
    has_name = refl;
    has_value = refl;
    ends = w;
  }

  abbrev section_at : ℕ → Bytes → Section
  section_at n name = record {
    block = n;
    name = some (record { block = suc n; bytes = name });
    keyvals = [];
  }

  section_at-IsSection : (n : ℕ) (name : Bytes) → Without 0 name → IsSection (section_at n name)
  section_at-IsSection n name w = record {
    name = record { block = suc n; bytes = name };
    has_name = refl;
    ends = w;
    pairs = tt;
  }

  add_section_lem :
      (n : ℕ) (root : List Section) (object name : Bytes)
      → Spells object name
      → add_section malloc n root object
        ≡ done (set_end root (some (section_at n name)), some (length root), suc (suc n))
  unfolding add_section new_section
  add_section_lem n root object name spells =
      rw (memory n, strdup_lem (suc n) object name spells) refl

  -- The configuration with the section in it, and what was in it before.
  pub find_or_create_section_lem :
      (n : ℕ) (cfg : Config) (object name : Bytes)
      → IsConfig cfg
      → Spells object name
      → Starts name
      → (sections : List Section) × (p : ℕ) × (n' : ℕ) × (find_or_create_section malloc n
            (some cfg)
            (some object)
          ≡ done (some (record cfg { sections = sections }), some p, n'))
        × Found sections name p
        × All IsSection sections
        × ((s k : Bytes) → section_value sections s k ≡ section_value cfg.sections s k)
  unfolding find_or_create_section found_or_added
  find_or_create_section_lem n cfg object name ok spells start =
      let (c, here, more) = load-Spells object name spells start in
      elim (find_place-cases cfg.sections object name 0 ok.sections spells) [
        | inl (p, at, found) ↦ (
          cfg.sections,
          p,
          n,
          rw (here, more, at) (ap (λ i. done (some cfg, some i, n)) (omega arith)),
          found,
          ok.sections,
          (λ s k. refl),
        )
        | inr (nowhere, absent) ↦ (
          set_end cfg.sections (some (section_at n name)),
          length cfg.sections,
          suc (suc n),
          rw (here, more, nowhere, add_section_lem n cfg.sections object name spells) refl,
          set_end-Found cfg.sections (section_at n name) name absent (same_refl name),
          set_end-IsSection cfg.sections (section_at n name) ok.sections
              (section_at-IsSection n name spells.0),
          (λ s k. section_value-set_end cfg.sections (section_at n name) s k refl),
        )
      ]
