-- ===== src/Randdata/Letters.antt =====
-- The letters that stand in the array afterwards (vcmp/src/util/randdata.c).
use vcmp.Prelude.{
  ℕ, zero, suc, ◌+◌, ◌%◌, ◌<◌, ◌≡◌, refl, sym, ap, ◌∙◌, [], ◌∷◌, ◌++◌, Bytes, some, done, true, All,
  length, length-append, get_or, get_elem?, get_elem?-get_or, store-append, append_assoc, arith,
}
use mathlib.Core.Path.{subst}
use vcmp.Randdata.{charset, charset_size, rand_loop, rand_array, charset_at, is_alphanumeric}

-- The reference: the letter of round i is the one at place `rand i % 62` of the alphabet.
abbrev letter : (ℕ → ℕ) → ℕ → ℕ
letter rand i = get_or charset (rand i % charset_size) 0

abbrev pub letters : (ℕ → ℕ) → ℕ → ℕ → Bytes
letters rand zero i = []
letters rand (suc n) i = letter rand i ∷ letters rand n (i + 1)

rand_loop-letters :
    (rand : ℕ → ℕ) (old pre post : Bytes) (i : ℕ)
    → i ≡ length pre
    → rand_loop rand (length old) i (pre ++ (old ++ post))
      ≡ done (pre ++ (letters rand (length old) i ++ post))
unfolding rand_loop
rand_loop-letters rand [] pre post i e = refl
rand_loop-letters rand (x ∷ old) pre post i e =
    let c = letter rand i in
    let at_c : get_elem? charset (rand i % charset_size) ≡ some c =
      get_elem?-get_or charset (rand i % charset_size) 0 (omega arith) in
    let further =
      rand_loop-letters rand old (pre ++ (c ∷ [])) post (i + 1)
        (omega (arith, length-append pre (c ∷ []))) in
    rw (at_c, store-append pre x c (old ++ post) i e)
      (subst
        (λ b.
          rand_loop rand (length old) (i + 1) b
          ≡ done (pre ++ (c ∷ (letters rand (length old) (i + 1) ++ post))))
        (append_assoc pre (c ∷ []) (old ++ post))
        (further ∙ ap done (append_assoc pre (c ∷ []) (letters rand (length old) (i + 1) ++ post))))

same_of_some : {a b : ℕ} → some a ≡ some b → a ≡ b
same_of_some e = cc

letter_alphanumeric : (j : ℕ) → j < 62 → is_alphanumeric (get_or charset j 0) ≡ true
letter_alphanumeric j h =
    let (c, at_c, good) = charset_at j h in
    subst (λ d. is_alphanumeric d ≡ true)
      (same_of_some (sym at_c ∙ get_elem?-get_or charset j 0 (omega arith))) good

letters_alphanumeric :
    (rand : ℕ → ℕ) (n i : ℕ) → All (λ c. is_alphanumeric c ≡ true) (letters rand n i)
letters_alphanumeric rand zero i = tt
letters_alphanumeric rand (suc n) i =
    (letter_alphanumeric (rand i % charset_size) (omega arith), letters_alphanumeric rand n (i + 1))

-- `rand_array` writes the letters of the reference to the first bytes of an array, as many as it is
-- asked for, and leaves the others; and these are letters and digits.
pub rand_array-letters :
    (rand : ℕ → ℕ) (old post : Bytes)
    → (rand_array rand (old ++ post) (length old) ≡ done (letters rand (length old) 0 ++ post))
      × All (λ c. is_alphanumeric c ≡ true) (letters rand (length old) 0)
unfolding rand_array
rand_array-letters rand old post =
    (rand_loop-letters rand old [] post 0 refl, letters_alphanumeric rand (length old) 0)
