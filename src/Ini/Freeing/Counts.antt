-- ===== src/Ini/Freeing/Counts.antt =====
-- How often a block stands among those that `ini_free` frees.
use vcmp.Prelude.{
  ℕ, zero, suc, ◌+◌, ◌≡◌, Option, none, some, List, [], ◌∷◌, ◌++◌, Bool, true, false, ◌&&◌, ◌==◌,
  ltb, if◌then◌else◌, get_elem?, set, arith, Bool-cases, ==_iff, inl, inr,
}
use vcmp.Ini.{Keyval, Section}
use vcmp.Ini.Store.{set_end}
use vcmp.Ini.Frees.{free_keyvals, free_sections}

abbrev pub count : ℕ → List ℕ → ℕ
count x [] = 0
count x (y ∷ ys) = (if x == y then 1 else 0) + count x ys

pub count-append : (x : ℕ) (ys zs : List ℕ) → count x (ys ++ zs) ≡ count x ys + count x zs
count-append x [] zs = omega arith
count-append x (y ∷ ys) zs = omega (arith, count-append x ys zs)

-- 1 for the block of an allocation before the one of number n that succeeded, and 0 for others.
abbrev pub handed : (ℕ → Bool) → ℕ → ℕ → ℕ
handed malloc n x = if ltb x n && malloc x then 1 else 0

-- Between allocations n and n', the blocks in hand grow from `xs` to `ys` by those that are given.
abbrev pub Balance : (ℕ → Bool) → List ℕ → ℕ → List ℕ → ℕ → Type 0
Balance malloc xs n ys n' =
    (x : ℕ) → count x ys + handed malloc n x ≡ count x xs + handed malloc n' x

pub handed_none : (malloc : ℕ → Bool) (x : ℕ) → handed malloc 0 x ≡ 0
handed_none malloc x = ground arith

pub handed_given :
    (malloc : ℕ → Bool) (n x : ℕ)
    → malloc n ≡ true
    → handed malloc (suc n) x ≡ handed malloc n x + count x (n ∷ [])
handed_given malloc n x h = elim (Bool-cases (x == n)) [
  | inl e ↦ let same : x ≡ n = (==_iff x n).0 e in rw (same, h) (ground arith)
  | inr e ↦ ground arith
]

pub handed_refused :
    (malloc : ℕ → Bool) (n x : ℕ) → malloc n ≡ false → handed malloc (suc n) x ≡ handed malloc n x
handed_refused malloc n x h = elim (Bool-cases (x == n)) [
  | inl e ↦ let same : x ≡ n = (==_iff x n).0 e in rw (same, h) (ground arith)
  | inr e ↦ ground arith
]

-- The pairs of one that may be missing, and the sections of one.
abbrev pub keyval_blocks : Option Keyval → List ℕ
keyval_blocks none = []
keyval_blocks (some pair) = free_keyvals (pair ∷ [])

abbrev pub section_blocks : Option Section → List ℕ
section_blocks none = []
section_blocks (some section) = free_sections (section ∷ [])

pub count-set_end_keyvals :
    (x : ℕ) (pairs : List Keyval) (new : Option Keyval)
    → count x (free_keyvals (set_end pairs new))
      ≡ count x (free_keyvals pairs) + count x (keyval_blocks new)
unfolding free_keyvals
count-set_end_keyvals x [] none = omega arith
count-set_end_keyvals x [] (some new) = omega arith
count-set_end_keyvals x (pair ∷ pairs) new =
    grind (arith, count-append, count-set_end_keyvals x pairs new)

pub count-set_end_sections :
    (x : ℕ) (sections : List Section) (new : Option Section)
    → count x (free_sections (set_end sections new))
      ≡ count x (free_sections sections) + count x (section_blocks new)
unfolding free_sections
count-set_end_sections x [] none = omega arith
count-set_end_sections x [] (some new) = omega arith
count-set_end_sections x (section ∷ sections) new =
    grind (arith, count-append, count-set_end_sections x sections new)

pub count-set :
    (x : ℕ) (sections : List Section) (at : ℕ) {section : Section} (pairs : List Keyval)
    → get_elem? sections at ≡ some section
    → count x (free_sections (set sections at (record section { keyvals = pairs })))
        + count x (free_keyvals section.keyvals)
      ≡ count x (free_sections sections) + count x (free_keyvals pairs)
unfolding free_sections
count-set x [] at pairs h = absurd cc
count-set x (s ∷ sections) zero {section} pairs h =
    let same : s ≡ section = cc in rw (← same) (grind (arith, count-append))
count-set x (s ∷ sections) (suc at) pairs h =
    grind (arith, count-append, count-set x sections at pairs h)
