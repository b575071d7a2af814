-- ===== src/Randdata.antt =====
-- Random letters and digits (vcmp/src/util/randdata.c).
mod Letters
mod Tests
use Prim.Native.Char.{code}
use Prim.Native.String.{String}
use vcmp.Prelude.{
  ℕ, zero, suc, ◌+◌, ◌-◌, ◌%◌, ◌≤◌, ◌<◌, ◌≡◌, refl, ap, ◌∙◌, List, [], ◌∷◌, ◌++◌, Bool, true, ◌&&◌,
  ◌||◌, Outcome, done, fault, ◌>>=◌, Bytes, All, length, length-append, get_elem?, some, load,
  store, store-append, leb, ltb, arith, append_assoc, append-nil,
}
use mathlib.Core.Path.{subst}

abbrev pub codes : String → Bytes
codes String.[] = []
codes (String.◌∷◌ c s) = code c ∷ codes s

-- The string literal, with the zero at its end.
abbrev pub charset : Bytes
charset = codes "abcdefghijklmnopqrstuvwxyzABCDEFGHIJKLMNOPQRSTUVWXYZ0123456789" ++ (0 ∷ [])

abbrev pub charset_size : ℕ
charset_size = 62

-- The loop at index `i`; `rand i` is the result of the call in round `i`.
rand_loop : (ℕ → ℕ) → ℕ → ℕ → Bytes → Outcome Bytes
rand_loop rand zero i arr = done arr
rand_loop rand (suc left) i arr = do
  c ← load charset (rand i % charset_size)
  arr' ← store arr i c
  rand_loop rand left (i + 1) arr'

unfoldable pub rand_array : (ℕ → ℕ) → Bytes → ℕ → Outcome Bytes
unfolding rand_loop
rand_array rand arr len = rand_loop rand len 0 arr

abbrev pub is_alphanumeric : ℕ → Bool
is_alphanumeric c = leb b'a' c && leb c b'z' || leb b'A' c && leb c b'Z' || leb b'0' c && leb c b'9'

abbrev every : (ℕ → Bool) → Bytes → Bool
every p [] = true
every p (x ∷ xs) = p x && every p xs

every_at :
    (p : ℕ → Bool) (xs ys : Bytes) (i : ℕ)
    → every p xs ≡ true
    → i < length xs
    → (c : ℕ) × (get_elem? (xs ++ ys) i ≡ some c) × (p c ≡ true)
every_at p [] ys i h lt = absurd (omega arith)
every_at p (x ∷ xs) ys zero h lt = (x, refl, ground arith)
every_at p (x ∷ xs) ys (suc i) h lt = every_at p xs ys i (ground arith) (omega arith)

pub charset_at :
    (i : ℕ) → i < 62 → (c : ℕ) × (get_elem? charset i ≡ some c) × (is_alphanumeric c ≡ true)
charset_at i h =
    every_at is_alphanumeric
      (codes "abcdefghijklmnopqrstuvwxyzABCDEFGHIJKLMNOPQRSTUVWXYZ0123456789") (0 ∷ []) i refl h

rand_loop_lem :
    (rand : ℕ → ℕ) (old pre post : Bytes) (i : ℕ)
    → i ≡ length pre
    → (new : Bytes) × (rand_loop rand (length old) i (pre ++ (old ++ post))
        ≡ done (pre ++ (new ++ post)))
      × (length new ≡ length old)
      × All (λ c. is_alphanumeric c ≡ true) new
unfolding rand_loop
rand_loop_lem rand [] pre post i e = ([], refl, refl, tt)
rand_loop_lem rand (x ∷ old) pre post i e =
    let (c, at_c, good) = charset_at (rand i % 62) (omega arith) in
    let (new, runs, long, all_good) =
      rand_loop_lem rand old (pre ++ (c ∷ [])) post (i + 1)
        (omega (arith, length-append pre (c ∷ []))) in
    (
      c ∷ new,
      rw (at_c, store-append pre x c (old ++ post) i e)
          (subst (λ b. rand_loop rand (length old) (i + 1) b ≡ done (pre ++ (c ∷ (new ++ post))))
            (append_assoc pre (c ∷ []) (old ++ post))
            (runs ∙ ap done (append_assoc pre (c ∷ []) (new ++ post)))),
      ap suc long,
      (good, all_good),
    )

-- The first bytes become letters and digits, as many as asked for, and the others stay.
pub rand_array_lem :
    (rand : ℕ → ℕ) (old post : Bytes)
    → (new : Bytes) × (rand_array rand (old ++ post) (length old) ≡ done (new ++ post))
      × (length new ≡ length old)
      × All (λ c. is_alphanumeric c ≡ true) new
unfolding rand_array
rand_array_lem rand old post = rand_loop_lem rand old [] post 0 refl

-- A whole array of `n` bytes is filled.
pub rand_array_fills :
    (rand : ℕ → ℕ) (arr : Bytes) (n : ℕ)
    → length arr ≡ n
    → (new : Bytes) × (rand_array rand arr n ≡ done new)
      × (length new ≡ n)
      × All (λ c. is_alphanumeric c ≡ true) new
rand_array_fills rand arr n e =
    let (new, runs, long, good) = rand_array_lem rand arr [] in
    (new, rw (← e) (rw (append-nil arr, append-nil new) at runs), long ∙ e, good)
