-- ===== src/Ini/Freeing/Given.antt =====
-- The blocks of a new section and a new pair (vcmp/lib/ini.c).
use vcmp.Prelude.{
  ℕ, suc, Option, List, [], ◌∷◌, ◌++◌, Bool, Bytes, string_of, Holds, >>=-Holds, if-Holds,
  Holds-done, arith, Bool-cases, inl, inr,
}
use vcmp.Ini.{Text, Keyval, Section, Config}
use vcmp.Ini.Store.{copy_text, strdup, new_section, new_keyval, add_section, add_keyval}
use vcmp.Ini.Frees.{free_text, free_keyvals, free_sections, ini_free}
use vcmp.Ini.Freeing.Counts.{
  count-append, handed_given, handed_refused, Balance, keyval_blocks, section_blocks,
  count-set_end_keyvals, count-set_end_sections,
}

-- The blocks of a configuration.
abbrev pub config_blocks : Option Config → List ℕ
config_blocks cfg = (ini_free cfg).0

module _ (malloc : ℕ → Bool) where
  copy_text-Balance :
      (n : ℕ) (bytes : Bytes) → Balance malloc [] n (free_text (copy_text malloc n bytes).0) (suc n)
  unfolding free_text
  copy_text-Balance n bytes x = elim (Bool-cases (malloc n)) [
    | inl yes_memory ↦ rw yes_memory (omega (arith, handed_given malloc n x yes_memory))
    | inr no_memory ↦ rw no_memory (omega (arith, handed_refused malloc n x no_memory))
  ]

  abbrev TextGiven : ℕ → Option Text × ℕ → Type 0
  TextGiven n given = Balance malloc [] n (free_text given.0) given.1

  strdup-TextGiven : (n : ℕ) (object : Bytes) → Holds (TextGiven n) (strdup malloc n object)
  unfolding strdup
  strdup-TextGiven n object =
      >>=-Holds (TextGiven n) (string_of object) _ λ bytes _. copy_text-Balance n bytes

  abbrev SectionGiven : ℕ → Option Section × ℕ → Type 0
  SectionGiven n given = Balance malloc [] n (section_blocks given.0) given.1

  new_section-SectionGiven :
      (n : ℕ) (name : Bytes) → Holds (SectionGiven n) (new_section malloc n name)
  unfolding new_section free_sections
  new_section-SectionGiven n name =
      if-Holds (SectionGiven n) (malloc n) _ _
        (λ given. >>=-Holds (SectionGiven n) (strdup malloc (suc n) name) _ λ text e x.
          let named = Holds-done (TextGiven (suc n)) _ (strdup-TextGiven (suc n) name) e x in
          omega (
            arith,
            named,
            handed_given malloc n x given,
            count-append x (free_text text.0) (n ∷ []),
          ))
        (λ refused x. omega (arith, handed_refused malloc n x refused))

  abbrev KeyvalGiven : ℕ → Option Keyval × ℕ → Type 0
  KeyvalGiven n given = Balance malloc [] n (keyval_blocks given.0) given.1

  new_keyval-KeyvalGiven :
      (n : ℕ) (name value : Bytes) → Holds (KeyvalGiven n) (new_keyval malloc n name value)
  unfolding new_keyval free_keyvals
  new_keyval-KeyvalGiven n name value =
      if-Holds (KeyvalGiven n) (malloc n) _ _
        (λ given. >>=-Holds (KeyvalGiven n) (strdup malloc (suc n) name) _ λ text e.
          >>=-Holds (KeyvalGiven n) (strdup malloc text.1 value) _ λ text' e' x.
            let named = Holds-done (TextGiven (suc n)) _ (strdup-TextGiven (suc n) name) e x in
            let valued = Holds-done (TextGiven text.1) _ (strdup-TextGiven text.1 value) e' x in
            omega (
              arith,
              named,
              valued,
              handed_given malloc n x given,
              count-append x (free_text text.0) (free_text text'.0 ++ (n ∷ [])),
              count-append x (free_text text'.0) (n ∷ []),
            ))
        (λ refused x. omega (arith, handed_refused malloc n x refused))

  pub add_keyval-Balance :
      (n : ℕ) (root : List Keyval) (name value : Bytes)
      → Holds
          (λ r. Balance malloc (free_keyvals root) n (free_keyvals r.0) r.1)
          (add_keyval malloc n root name value)
  unfolding add_keyval
  add_keyval-Balance n root name value =
      >>=-Holds (λ r. Balance malloc (free_keyvals root) n (free_keyvals r.0) r.1)
        (new_keyval malloc n name value) _
        λ new e x. omega (
          arith,
          count-set_end_keyvals x root new.0,
          Holds-done (KeyvalGiven n) _ (new_keyval-KeyvalGiven n name value) e x,
        )

  pub add_section-Balance :
      (n : ℕ) (root : List Section) (name : Bytes)
      → Holds
          (λ r. Balance malloc (free_sections root) n (free_sections r.0) r.2)
          (add_section malloc n root name)
  unfolding add_section
  add_section-Balance n root name =
      >>=-Holds (λ r. Balance malloc (free_sections root) n (free_sections r.0) r.2)
        (new_section malloc n name) _
        λ new e x. omega (
          arith,
          count-set_end_sections x root new.0,
          Holds-done (SectionGiven n) _ (new_section-SectionGiven n name) e x,
        )
