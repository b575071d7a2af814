-- ===== src/Ini/Lookup/Runs.antt =====
-- Any number of assignments, and what `ini_get_value` gives after them (vcmp/lib/ini.c).
use vcmp.Prelude.{
  ℕ, ◌+◌, ◌≡◌, refl, sym, ap, ◌∙◌, inl, inr, [], ◌∷◌, ◌++◌, List, Bool, true, ◌&&◌, Bytes, Option,
  none, some, Outcome, done, ◌>>=◌, if◌then◌else◌, Without, All, Bool-cases, Option-cases, arith,
}
use vcmp.Ini.{Text, Keyval, Config}
use vcmp.Ini.Store.{pairs_of, value_in, copy_text, assign_keyval, ini_get_value, ini_create}
use vcmp.Ini.Lookup.{same, same_section, or_else, value_of, lookup, Assignment, first_value}
use vcmp.Ini.Lookup.Names.{Spells, Starts, load-Spells}
use vcmp.Ini.Lookup.Pairs.{IsPair, find_value_lem}
use vcmp.Ini.Lookup.Places.{find_place-cases, get_elem?-Found, section_value-Absent, or_else-none}
use vcmp.Ini.Lookup.Added.{IsConfig}
use vcmp.Ini.Lookup.Assign.{assign_keyval_lem}
use vcmp.Ini.Lookup.Added.{SpellsSection}

-- A string as the caller holds it.
abbrev pub object_of : Bytes → Bytes
object_of s = s ++ (0 ∷ [])

abbrev pub section_object : Option Bytes → Option Bytes
section_object none = none
section_object (some s) = some (object_of s)

abbrev pub IsSectionName : Option Bytes → Type 0
IsSectionName none = Unit
IsSectionName (some s) = Without 0 s × Starts s

-- Strings, and no empty name.
pub record IsAssignment (a : Assignment) : Type 0 where
  pub section : IsSectionName a.section
  pub name : Without 0 a.name
  pub starts : Starts a.name
  pub value : Without 0 a.value

module _ (malloc : ℕ → Bool) where
  -- The assignments, one after the other.
  pub assign_all : ℕ → Option Config → List Assignment → Outcome (Option Config × ℕ)
  assign_all n cfg [] = done (cfg, n)
  assign_all n cfg (a ∷ assignments) = do
    (cfg', n') ←
        assign_keyval malloc n cfg (section_object a.section) (some (object_of a.name))
          (object_of a.value)
    assign_all n' cfg' assignments

  -- What `ini_get_value` gives for a value that is found.
  abbrev pub copied : ℕ → Option Bytes → Option Text × ℕ
  copied n none = (none, n)
  copied n (some value) = copy_text malloc n value

  value_in_lem :
      (n : ℕ) (pairs : List Keyval) (object k : Bytes)
      → All IsPair pairs
      → Spells object k
      → value_in malloc n (some pairs) object ≡ done (copied n (value_of pairs k))
  unfolding value_in
  value_in_lem n pairs object k ok spells =
      rw (find_value_lem pairs object k ok spells)
        (elim (Option-cases (value_of pairs k)) [ inl e ↦ rw e refl | inr (v, e) ↦ rw e refl ])

  p_zero : (p : ℕ) → 0 + p ≡ p
  p_zero p = omega arith

  -- What the code gives is what is found.
  pub ini_get_value_lem :
      (n : ℕ) (cfg : Config) (section_pointer section : Option Bytes) (object k : Bytes)
      → IsConfig cfg
      → SpellsSection section_pointer section
      → Spells object k
      → Starts k
      → ini_get_value malloc n (some cfg) section_pointer (some object)
        ≡ done (copied n (lookup cfg section k))
  unfolding ini_get_value pairs_of value_in
  ini_get_value_lem n cfg none none object k ok is_section is_name start =
      let (c, here, more) = load-Spells object k is_name start in
      rw (here, more) (value_in_lem n cfg.global_keyvals object k ok.globals is_name)
  ini_get_value_lem n cfg none (some s) object k ok is_section is_name start = absurd is_section
  ini_get_value_lem n cfg (some o) none object k ok is_section is_name start = absurd is_section
  ini_get_value_lem n cfg (some o) (some s) object k ok (is_section, starts) is_name start =
      let (c, here, more) = load-Spells object k is_name start in
      let (d, there, not_empty) = load-Spells o s is_section starts in
      elim (find_place-cases cfg.sections o s 0 ok.sections is_section) [
        | inl (p, at, found) ↦
            let (sec, there_sec, named, values, is_sec) = get_elem?-Found cfg.sections s p found in
            rw (here, more, there, not_empty, at, p_zero p, there_sec, values k)
              (value_in_lem n sec.keyvals object k (is_sec ok.sections).pairs is_name)
        | inr (nowhere, absent) ↦
            rw (here, more, there, not_empty, nowhere, section_value-Absent cfg.sections s k absent)
              refl
      ]

pub object_of-Spells : (s : Bytes) → Without 0 s → Spells (object_of s) s
object_of-Spells s w = (w, ([], refl))

pub section_object-SpellsSection :
    (section : Option Bytes)
    → IsSectionName section
    → SpellsSection (section_object section) section
section_object-SpellsSection none h = tt
section_object-SpellsSection (some s) (w, start) = (object_of-Spells s w, start)

-- The values that are found after some assignments and one more.
pub or_else-first :
    (o : Option Bytes) (a : Assignment) (assignments : List Assignment) (s : Option Bytes)
    (k : Bytes)
    → or_else
        (or_else o (if same_section a.section s && same a.name k then some a.value else none))
        (first_value assignments s k)
      ≡ or_else o (first_value (a ∷ assignments) s k)
or_else-first (some v) a assignments s k = refl
or_else-first none a assignments s k =
    elim (Bool-cases (same_section a.section s && same a.name k)) [
      | inl e ↦ rw e refl
      | inr e ↦ rw e refl
    ]

module _ (malloc : ℕ → Bool) (memory : (n : ℕ) → malloc n ≡ true) where
  assign_all_lem :
      (n : ℕ) (cfg : Config) (assignments : List Assignment)
      → IsConfig cfg
      → All IsAssignment assignments
      → (cfg' : Config) × (n' : ℕ) × (assign_all malloc n (some cfg) assignments
          ≡ done (some cfg', n'))
        × IsConfig cfg'
        × ((s : Option Bytes) (k : Bytes)
            → lookup cfg' s k ≡ or_else (lookup cfg s k) (first_value assignments s k))
  unfolding assign_all
  assign_all_lem n cfg [] ok all_ok = (cfg, n, refl, ok, λ s k. sym (or_else-none (lookup cfg s k)))
  assign_all_lem n cfg (a ∷ assignments) ok (a_ok, all_ok) =
      let (between, n', assigned, (ok', found)) =
        assign_keyval_lem malloc memory n cfg (section_object a.section) a.section
          (object_of a.name) a.name (object_of a.value) a.value ok
          (section_object-SpellsSection a.section a_ok.section) (object_of-Spells a.name a_ok.name)
          a_ok.starts (object_of-Spells a.value a_ok.value) in
      let (cfg', n'', runs, ok'', found') = assign_all_lem n' between assignments ok' all_ok in
      (
        cfg',
        n'',
        rw assigned runs,
        ok'',
        λ s k.
            found' s k
            ∙ ap (λ o. or_else o (first_value assignments s k)) (found s k)
            ∙ or_else-first (lookup cfg s k) a assignments s k,
      )

  pub created_lem :
      (n : ℕ)
      → (cfg : Config) × ((ini_create malloc n).0 ≡ some cfg)
        × IsConfig cfg
        × ((s : Option Bytes) (k : Bytes) → lookup cfg s k ≡ none)
  unfolding ini_create
  created_lem n = (
    record { block = n; sections = []; global_keyvals = [] },
    rw (memory n) refl,
    record { globals = tt; sections = tt },
    nothing,
  )
    where
      nothing :
          (s : Option Bytes) (k : Bytes)
          → lookup (record { block = n; sections = []; global_keyvals = [] }) s k ≡ none
      nothing none k = refl
      nothing (some s) k = refl

  -- With memory for all, any assignments to a new configuration succeed, and then `ini_get_value` gives
  -- a copy of the first value that was assigned to that key of that section, or the null pointer if
  -- there was none. Names are not empty; a section that is no pointer is the global one.
  pub ini_get_value-assign_all :
      (assignments : List Assignment) (section : Option Bytes) (k : Bytes)
      → All IsAssignment assignments
      → IsSectionName section
      → Without 0 k
      → Starts k
      → (cfg : Config) × (n : ℕ) × (assign_all malloc
            (ini_create malloc 0).1
            (ini_create malloc 0).0
            assignments
          ≡ done (some cfg, n))
        × (ini_get_value malloc n (some cfg) (section_object section) (some (object_of k))
            ≡ done (copied malloc n (first_value assignments section k)))
  ini_get_value-assign_all assignments section k all_ok is_section w start =
      let (cfg, made, ok, nothing) = created_lem 0 in
      let (cfg', n, runs, ok', found) =
        assign_all_lem (ini_create malloc 0).1 cfg assignments ok all_ok in
      (
        cfg',
        n,
        rw made runs,
        ini_get_value_lem malloc n cfg' (section_object section) section (object_of k) k ok'
              (section_object-SpellsSection section is_section) (object_of-Spells k w) start
            ∙ ap (λ o. done (copied malloc n o))
                (found section k
                  ∙ ap (λ o. or_else o (first_value assignments section k)) (nothing section k)),
      )
