-- ===== src/Ini/Reading/Scans.antt =====
-- The loops of the parser on what they are meant for (vcmp/lib/ini.c).
use vcmp.Prelude.{
  ℕ, zero, suc, ◌+◌, ◌-◌, ◌≤◌, ◌<◌, ◌≡◌, refl, sym, ap, ◌∙◌, some, [], ◌∷◌, ◌++◌, Bool, true, false,
  ◌||◌, Bytes, All, ◌==◌, length, zeros, done, store, store-append, ltb, set, length-set, fault,
  append_assoc, append-nil, arith, length-append, ==_false, Bool-cases, inl, inr,
}
use vcmp.Ini.Parser.{Pointer, skip_until, find_equals, copy_name, copy_value, is_not_blank}
use vcmp.Ini.Reading.{NoneOf, ends_line}

-- The bytes before a pointer, after those of `xs` were passed.
abbrev pub past : Bytes → Bytes → Bytes
past [] before = before
past (x ∷ xs) before = past xs (x ∷ before)

abbrev pub pointer : Bytes → Bytes → Pointer
pointer before rest = record { before = before; rest = rest }

pub skip_until_stops :
    (stop : ℕ → Bool) (before xs : Bytes) (c : ℕ) (rest : Bytes)
    → NoneOf stop xs
    → stop c ≡ true
    → skip_until stop before (xs ++ (c ∷ rest)) ≡ done (pointer (past xs before) (c ∷ rest))
unfolding skip_until
skip_until_stops stop before [] c rest none_of e = rw e refl
skip_until_stops stop before (x ∷ xs) c rest (goes, none_of) e =
    rw goes (skip_until_stops stop (x ∷ before) xs c rest none_of e)

pub find_equals_stops :
    (before gap rest : Bytes)
    → All (λ c. is_not_blank c ≡ false) gap
    → find_equals before (gap ++ (b'=' ∷ rest))
      ≡ done (some (pointer (past gap before) (b'=' ∷ rest)))
unfolding find_equals
find_equals_stops before [] rest blank = refl
find_equals_stops before (x ∷ gap) rest (blank, blanks) =
    let other : (x == b'=') ≡ false = ground arith in
    let within : (x == 0 || x == b'\n') ≡ false = ground arith in
    rw (other, within) (find_equals_stops (x ∷ before) gap rest blanks)

-- The bytes of a name, or a value, replace zeros.
store_next :
    (pre : Bytes) (m x : ℕ)
    → store (pre ++ zeros (suc m)) (length pre) x ≡ done ((pre ++ (x ∷ [])) ++ zeros m)
store_next pre m x =
    store-append pre 0 x (zeros m) (length pre) refl
    ∙ ap done (sym (append_assoc pre (x ∷ []) (zeros m)))

copied_next :
    (pre : Bytes) (m x : ℕ) (xs : Bytes)
    → ((pre ++ (x ∷ [])) ++ xs) ++ zeros (m - length xs)
      ≡ (pre ++ (x ∷ xs)) ++ zeros (suc m - suc (length xs))
copied_next pre m x xs =
    rw (append_assoc pre (x ∷ []) xs) (ap (λ n. (pre ++ (x ∷ xs)) ++ zeros n) (omega arith))

pub copy_name_stops :
    (stop : ℕ → Bool) (limit : ℕ) (pre : Bytes) (m : ℕ) (before xs : Bytes) (c : ℕ) (rest : Bytes)
    → length xs ≤ m
    → length pre + length xs ≤ limit
    → NoneOf stop xs
    → NoneOf ends_line xs
    → stop c ≡ true
    → copy_name stop limit (pre ++ zeros m) (length pre) before (xs ++ (c ∷ rest))
      ≡ done (some ((pre ++ xs) ++ zeros (m - length xs), pointer (past xs before) (c ∷ rest)))
unfolding copy_name
copy_name_stops stop limit pre m before [] c rest room below none_of no_end e =
    rw (e, append-nil pre)
      (ap (λ n. done (some (pre ++ zeros n, pointer before (c ∷ rest)))) (omega arith))
copy_name_stops stop limit pre zero before (x ∷ xs) c rest room below none_of no_end e =
    absurd (omega arith)
copy_name_stops stop limit pre (suc m) before (x ∷ xs) c rest room below (goes, none_of)
      (in_line, no_end) e =
    let under : (length pre == limit) ≡ false = ==_false (length pre) limit (λ q. omega arith) in
    let longer : suc (length pre) ≡ length (pre ++ (x ∷ [])) =
      omega (arith, length-append pre (x ∷ [])) in
    rw (goes, under, in_line, store_next pre m x, longer)
      (copy_name_stops stop limit (pre ++ (x ∷ [])) m (x ∷ before) xs c rest (omega arith)
          (omega (arith, length-append pre (x ∷ []))) none_of no_end e
        ∙ ap (λ tmp. done (some (tmp, pointer (past xs (x ∷ before)) (c ∷ rest))))
            (copied_next pre m x xs))

pub copy_value_stops :
    (pre : Bytes) (m : ℕ) (before xs : Bytes) (c : ℕ) (rest : Bytes)
    → length xs ≤ m
    → NoneOf ends_line xs
    → ends_line c ≡ true
    → copy_value (pre ++ zeros m) (length pre) before (xs ++ (c ∷ rest))
      ≡ done ((pre ++ xs) ++ zeros (m - length xs), pointer (past xs before) (c ∷ rest))
unfolding copy_value
copy_value_stops pre m before [] c rest room no_end e =
    let stops : (c == b'\n' || c == 0) ≡ true = ground arith in
    rw (stops, append-nil pre)
      (ap (λ n. done (pre ++ zeros n, pointer before (c ∷ rest))) (omega arith))
copy_value_stops pre zero before (x ∷ xs) c rest room no_end e = absurd (omega arith)
copy_value_stops pre (suc m) before (x ∷ xs) c rest room (in_line, no_end) e =
    let goes : (x == b'\n' || x == 0) ≡ false = ground arith in
    let longer : suc (length pre) ≡ length (pre ++ (x ∷ [])) =
      omega (arith, length-append pre (x ∷ [])) in
    rw (goes, store_next pre m x, longer)
      (copy_value_stops (pre ++ (x ∷ [])) m (x ∷ before) xs c rest (omega arith) no_end e
        ∙ ap (λ tmp. done (tmp, pointer (past xs (x ∷ before)) (c ∷ rest)))
            (copied_next pre m x xs))

-- A value that is longer than what is left of the array is written past its end.
pub copy_value_overrun :
    (tmp : Bytes) (i : ℕ) (before xs rest : Bytes)
    → NoneOf ends_line xs
    → i ≤ length tmp
    → length tmp < i + length xs
    → copy_value tmp i before (xs ++ rest) ≡ fault
unfolding copy_value
copy_value_overrun tmp i before [] rest no_end low high = absurd (omega arith)
copy_value_overrun tmp i before (x ∷ xs) rest (in_line, no_end) low high =
    let goes : (x == b'\n' || x == 0) ≡ false = ground arith in
    elim (Bool-cases (ltb i (length tmp))) [
      | inr out ↦ rw (goes, out) refl
      | inl inside ↦
          rw (goes, inside)
            (copy_value_overrun (set tmp i x) (suc i) (x ∷ before) xs rest no_end
              (ground (arith, length-set tmp i x)) (omega (arith, length-set tmp i x)))
    ]
