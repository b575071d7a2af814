-- ===== src/Ini/Scanning.antt =====
-- What the loops of the parser keep of their pointers (vcmp/lib/ini.c).
use vcmp.Prelude.{
  ℕ, suc, Option, none, some, [], ◌∷◌, Bool, ◌||◌, Bytes, ◌==◌, store, Holds, >>=-Holds, if-Holds,
}
use vcmp.Ini.Parser.{Pointer, skip_until, find_equals, copy_name, copy_value}

-- `P` is kept when a pointer passes a byte.
module _ (P : Bytes → Bytes → Type 0)
    (passes : (before : Bytes) (c : ℕ) (rest : Bytes)
      → P before (c ∷ rest)
      → P (c ∷ before) rest) where
  abbrev Points : Pointer → Type 0
  Points p = P p.before p.rest

  abbrev pub PointsIf : Option Pointer → Type 0
  PointsIf none = Unit
  PointsIf (some p) = Points p

  abbrev pub CopiedTo : Option (Bytes × Pointer) → Type 0
  CopiedTo none = Unit
  CopiedTo (some (tmp, p)) = Points p

  pub skip_until-Points :
      (stop : ℕ → Bool) (before rest : Bytes)
      → P before rest
      → Holds Points (skip_until stop before rest)
  unfolding skip_until
  skip_until-Points stop before [] h = tt
  skip_until-Points stop before (c ∷ rest) h =
      if-Holds Points (stop c) _ _ (λ _. h)
        (λ _. skip_until-Points stop (c ∷ before) rest (passes before c rest h))

  pub find_equals-PointsIf :
      (before rest : Bytes) → P before rest → Holds PointsIf (find_equals before rest)
  unfolding find_equals
  find_equals-PointsIf before [] h = tt
  find_equals-PointsIf before (c ∷ rest) h =
      if-Holds PointsIf (c == b'=') _ _ (λ _. h)
        (λ _.
          if-Holds PointsIf (c == 0 || c == b'\n') _ _ (λ _. tt)
            (λ _. find_equals-PointsIf (c ∷ before) rest (passes before c rest h)))

  pub copy_name-CopiedTo :
      (stop : ℕ → Bool) (limit : ℕ) (tmp : Bytes) (i : ℕ) (before rest : Bytes)
      → P before rest
      → Holds CopiedTo (copy_name stop limit tmp i before rest)
  unfolding copy_name
  copy_name-CopiedTo stop limit tmp i before [] h = tt
  copy_name-CopiedTo stop limit tmp i before (c ∷ rest) h =
      if-Holds CopiedTo (stop c || i == limit) _ _ (λ _. h)
        (λ _.
          if-Holds CopiedTo (c == 0 || c == b'\n') _ _ (λ _. tt)
            (λ _. >>=-Holds CopiedTo (store tmp i c) _ λ tmp' _.
              copy_name-CopiedTo stop limit tmp' (suc i) (c ∷ before) rest
                (passes before c rest h)))

  pub copy_value-Points :
      (tmp : Bytes) (i : ℕ) (before rest : Bytes)
      → P before rest
      → Holds (λ copied. Points copied.1) (copy_value tmp i before rest)
  unfolding copy_value
  copy_value-Points tmp i before [] h = tt
  copy_value-Points tmp i before (c ∷ rest) h =
      if-Holds (λ copied. Points copied.1) (c == b'\n' || c == 0) _ _ (λ _. h)
        (λ _.
          >>=-Holds (λ copied. Points copied.1) (store tmp i c) _
            λ tmp' _. copy_value-Points tmp' (suc i) (c ∷ before) rest (passes before c rest h))
