-- ===== src/Prelude/Strings.antt =====
-- Strings: arrays of bytes up to a zero, and their copies into arrays of zeros.
use Prim.Native.Nat.{ℕ, zero, suc, ◌-◌, ◌≤◌, ◌<◌}
use mathlib.Core.Path.{◌≡◌, refl, ap, ◌∙◌}
use mathlib.Core.Bool.{Bool, true, false}
use mathlib.Core.List.{[], ◌∷◌, ◌++◌}
use native.Mathlib.Omega.{arith}
use vcmp.Prelude.Tests.{◌==◌, if◌then◌else◌}
use vcmp.Prelude.Lists.{length, drop, All}
use vcmp.Prelude.Faults.{Outcome, done, fault, ◌>>=◌}
use vcmp.Prelude.Words.{Bytes}

-- `strncpy(dst, src, n)` on the array `dst`: behind the end of the string it writes zeros.
abbrev pub zero_fill : Bytes → ℕ → Outcome Bytes
zero_fill dst zero = done dst
zero_fill [] (suc n) = fault
zero_fill (d ∷ ds) (suc n) = do rest ← zero_fill ds n; done (0 ∷ rest)

unfoldable pub strncpy : Bytes → Bytes → ℕ → Outcome Bytes
strncpy dst src zero = done dst
strncpy [] src (suc n) = fault
strncpy (d ∷ ds) [] (suc n) = fault
strncpy (d ∷ ds) (c ∷ cs) (suc n) =
    let copied = strncpy ds cs n in
    if c == 0 then zero_fill (d ∷ ds) (suc n) else (do rest ← copied; done (c ∷ rest))

-- The string in an array: its bytes up to the first zero.
unfoldable pub string_of : Bytes → Outcome Bytes
string_of [] = fault
string_of (c ∷ cs) =
    let rest = string_of cs in if c == 0 then done [] else (do r ← rest; done (c ∷ r))

-- No byte of the text is `c`.
abbrev pub Without : ℕ → Bytes → Type 0
Without c xs = All (λ x. (x == c) ≡ false) xs

abbrev pub zeros : ℕ → Bytes
zeros zero = []
zeros (suc n) = 0 ∷ zeros n

-- A string in an array of 256 bytes that was zero.
abbrev pub padded : Bytes → Bytes
padded xs = xs ++ zeros (256 - length xs)

drop-zeros : (n m : ℕ) → drop n (zeros m) ≡ zeros (m - n)
drop-zeros zero m = ap zeros (omega arith)
drop-zeros (suc n) zero = let e : 0 ≡ 0 - suc n = omega arith in ap zeros e
drop-zeros (suc n) (suc m) =
    let e : m - n ≡ suc m - suc n = omega arith in drop-zeros n m ∙ ap zeros e

strncpy-append :
    (xs dst rest : Bytes)
    → Without 0 xs
    → length xs ≤ length dst
    → strncpy dst (xs ++ rest) (length xs) ≡ done (xs ++ drop (length xs) dst)
unfolding strncpy
strncpy-append [] dst rest w room = refl
strncpy-append (x ∷ xs) [] rest w room = absurd (omega arith)
strncpy-append (x ∷ xs) (d ∷ dst) rest (nz, w) room =
    rw (nz, strncpy-append xs dst rest w (omega arith)) refl

pub length-zeros : (n : ℕ) → length (zeros n) ≡ n
length-zeros zero = refl
length-zeros (suc n) = ap suc (length-zeros n)

-- A copy of a string that is not longer than the array.
pub strncpy-zeros :
    (xs rest : Bytes)
    → Without 0 xs
    → length xs ≤ 256
    → strncpy (zeros 256) (xs ++ rest) (length xs) ≡ done (padded xs)
strncpy-zeros xs rest w room =
    strncpy-append xs (zeros 256) rest w (omega (arith, length-zeros 256))
    ∙ rw (drop-zeros (length xs) 256) refl

pub string_of-append : (xs rest : Bytes) → Without 0 xs → string_of (xs ++ (0 ∷ rest)) ≡ done xs
unfolding string_of
string_of-append [] rest w = refl
string_of-append (x ∷ xs) rest (nz, w) = rw (nz, string_of-append xs rest w) refl

-- A string that leaves room for a zero reads back.
pub string_of-padded :
    (xs : Bytes) → Without 0 xs → length xs < 256 → string_of (padded xs) ≡ done xs
string_of-padded xs w room =
    let more : 256 - length xs ≡ suc (255 - length xs) = omega arith in
    rw more (string_of-append xs (zeros (255 - length xs)) w)

-- The same as a test.
abbrev pub lacks : ℕ → Bytes → Bool
lacks c [] = true
lacks c (x ∷ xs) = if x == c then false else lacks c xs

pub lacks-Without : (c : ℕ) (xs : Bytes) → lacks c xs ≡ true → Without c xs
lacks-Without c [] h = tt
lacks-Without c (x ∷ xs) h =
    let first : (x == c) ≡ false = ground arith in
    let further : lacks c xs ≡ true = ground arith in (first, lacks-Without c xs further)
