-- ===== src/Ini/Lookup/Places.antt =====
-- Sections at their places in the list (vcmp/lib/ini.c).
use vcmp.Prelude.{
  ℕ, zero, suc, ◌+◌, ◌≡◌, refl, sym, ap, ◌∙◌, ◌⊎◌, inl, inr, [], ◌∷◌, List, true, false, ◌&&◌,
  Bytes, Option, none, some, done, if◌then◌else◌, Without, All, Bool-cases, arith, length, set,
  get_elem?,
}
use vcmp.Ini.{Text, Keyval, Section}
use vcmp.Ini.Store.{set_end, find_place, is_named}
use vcmp.Ini.Lookup.{same, or_else, text_of, value_of, section_value}
use vcmp.Ini.Lookup.Names.{Spells, same_refl, same-eq, is_named_lem}
use vcmp.Ini.Lookup.Pairs.{IsPair, value_of-set_end}

pub record IsSection (section : Section) : Type 0 where
  pub name : Text
  pub has_name : section.name ≡ some name
  pub ends : Without 0 name.bytes
  pub pairs : All IsPair section.keyvals

-- The first section of that name stands at place `p`.
abbrev pub Found : List Section → Bytes → ℕ → Type 0
Found [] name p = ⊥
Found (section ∷ sections) name zero = same (text_of section.name) name ≡ true
Found (section ∷ sections) name (suc p) =
    ((same (text_of section.name) name ≡ false) × Found sections name p)

abbrev Absent : List Section → Bytes → Type 0
Absent sections name = All (λ section. same (text_of section.name) name ≡ false) sections

-- The loop of `find_section` either finds the first section of that name, or there is none.
pub find_place-cases :
    (sections : List Section) (object name : Bytes) (i : ℕ)
    → All IsSection sections
    → Spells object name
    → ((p : ℕ) × (find_place sections object i ≡ done (some (i + p))) × Found sections name p)
      ⊎ ((find_place sections object i ≡ done none) × Absent sections name)
unfolding find_place
find_place-cases [] object name i ok spells = inr (refl, tt)
find_place-cases (section ∷ sections) object name i (ok, all_ok) spells =
    let named : is_named section.name object ≡ done (same (text_of section.name) name) =
      rw ok.has_name (is_named_lem ok.name object name ok.ends spells) in
    elim (Bool-cases (same (text_of section.name) name)) [
      | inl e ↦ inl (0, rw (named, e) (ap (λ j. done (some j)) (omega arith)), e)
      | inr e ↦ elim (find_place-cases sections object name (suc i) all_ok spells) [
        | inl (p, at, found) ↦
            inl (suc p, rw (named, e) (at ∙ ap (λ j. done (some j)) (omega arith)), (e, found))
        | inr (nowhere, absent) ↦ inr (rw (named, e) nowhere, (e, absent))
      ]
    ]

pub get_elem?-Found :
    (sections : List Section) (name : Bytes) (p : ℕ)
    → Found sections name p
    → (section : Section) × (get_elem? sections p ≡ some section)
      × (same (text_of section.name) name ≡ true)
      × ((k : Bytes) → section_value sections name k ≡ value_of section.keyvals k)
      × (All IsSection sections → IsSection section)
get_elem?-Found [] name p found = absurd found
get_elem?-Found (section ∷ sections) name zero found =
    (section, refl, found, (λ k. rw found refl), (λ ok. ok.0))
get_elem?-Found (section ∷ sections) name (suc p) (other, found) =
    let (s, at, named, values, ok) = get_elem?-Found sections name p found in
    (s, at, named, (λ k. rw other (values k)), (λ all_ok. ok all_ok.1))

pub section_value-Absent :
    (sections : List Section) (name k : Bytes)
    → Absent sections name
    → section_value sections name k ≡ none
section_value-Absent [] name k absent = refl
section_value-Absent (section ∷ sections) name k (other, absent) =
    rw other (section_value-Absent sections name k absent)

pub or_else-none : (o : Option Bytes) → or_else o none ≡ o
or_else-none none = refl
or_else-none (some v) = refl

-- What is called `s` is not called `name`, so that the two differ.
same_other :
    (text s name : Bytes) → same text s ≡ true → same text name ≡ false → same name s ≡ false
same_other text s name e other = elim (Bool-cases (same name s)) [
  | inr differ ↦ differ
  | inl equal ↦
      let text_s : text ≡ s = same-eq text s e in
      let name_s : name ≡ s = same-eq name s equal in
      let both : same text name ≡ true = rw (text_s, name_s) (same_refl s) in absurd cc
]

-- The pairs of the section at place `p` grow by one at the end.
pub section_value-set :
    (sections : List Section) (name : Bytes) (p : ℕ) (new : Keyval) {section : Section}
    → Found sections name p
    → get_elem? sections p ≡ some section
    → (s k : Bytes)
    → section_value
        (set sections p (record section { keyvals = set_end section.keyvals (some new) }))
        s
        k
      ≡ or_else
          (section_value sections s k)
          (if same name s && same (text_of new.name) k then some (text_of new.value) else none)
section_value-set [] name p new found at s k = absurd found
section_value-set (x ∷ sections) name zero new {section} found at s k =
    let here : x ≡ section = cc in
    let named : text_of section.name ≡ name = same-eq _ _ (rw here at found) in
    rw (here, named)
      (elim (Bool-cases (same name s)) [
        | inl e ↦ rw e (value_of-set_end section.keyvals new k)
        | inr e ↦ rw e (sym (or_else-none (section_value sections s k)))
      ])
section_value-set (x ∷ sections) name (suc p) new (other, found) at s k =
    elim (Bool-cases (same (text_of x.name) s)) [
      | inl e ↦
          rw (e, same_other (text_of x.name) s name e other)
            (sym (or_else-none (value_of x.keyvals k)))
      | inr e ↦ rw e (section_value-set sections name p new found at s k)
    ]

-- A section without pairs at the end holds nothing.
pub section_value-set_end :
    (sections : List Section) (new : Section) (s k : Bytes)
    → new.keyvals ≡ []
    → section_value (set_end sections (some new)) s k ≡ section_value sections s k
section_value-set_end [] new s k empty = elim (Bool-cases (same (text_of new.name) s)) [
  | inl e ↦ rw (e, empty) refl
  | inr e ↦ rw e refl
]
section_value-set_end (x ∷ sections) new s k empty = elim (Bool-cases (same (text_of x.name) s)) [
  | inl e ↦ rw e refl
  | inr e ↦ rw e (section_value-set_end sections new s k empty)
]

pub set_end-Found :
    (sections : List Section) (new : Section) (name : Bytes)
    → Absent sections name
    → same (text_of new.name) name ≡ true
    → Found (set_end sections (some new)) name (length sections)
set_end-Found [] new name absent named = named
set_end-Found (x ∷ sections) new name (other, absent) named =
    (other, set_end-Found sections new name absent named)

pub set_end-IsSection :
    (sections : List Section) (new : Section)
    → All IsSection sections
    → IsSection new
    → All IsSection (set_end sections (some new))
set_end-IsSection [] new ok n = (n, tt)
set_end-IsSection (x ∷ sections) new (ok, all_ok) n = (ok, set_end-IsSection sections new all_ok n)

pub set-IsSection :
    (sections : List Section) (p : ℕ) (new : Section)
    → All IsSection sections
    → IsSection new
    → All IsSection (set sections p new)
set-IsSection [] p new ok n = tt
set-IsSection (x ∷ sections) zero new (ok, all_ok) n = (n, all_ok)
set-IsSection (x ∷ sections) (suc p) new (ok, all_ok) n =
    (ok, set-IsSection sections p new all_ok n)
