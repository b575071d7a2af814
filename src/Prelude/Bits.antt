-- ===== src/Prelude/Bits.antt =====
-- The bit operations of C as arithmetic: fields joined by `|`, masks by `&`, and `^` twice.
use Prim.Native.Nat.{
  ℕ, zero, suc, ◌+◌, ◌-◌, ◌*◌, ◌/◌, ◌%◌, ◌^◌, ◌≤◌, ◌<◌, min, max, bit_and, bit_or, bit_xor, digits,
  differ, bit_and-bitwise, bit_or-bitwise, bit_xor-bitwise,
}
use mathlib.Core.Path.{◌≡◌, refl, ap}
use native.Mathlib.Nat.{pow-suc, one-le-pow}
use native.Mathlib.Omega.{arith}

-- Two counts of digits that both suffice for `a` give the same word.
same_digits :
    (z : ℕ → ℕ) (f : ℕ → ℕ → ℕ) (m a b n : ℕ) → a ≤ m → a ≤ n → digits z f m a b ≡ digits z f n a b
same_digits z f zero (suc a) b n hm hn = absurd (omega arith)
same_digits z f m (suc a) b zero hm hn = absurd (omega arith)
same_digits z f (suc m) (suc a) b (suc n) hm hn =
    ap (λ (t : ℕ). t * 2 + f (suc a % 2) (b % 2))
      (same_digits z f m (suc a / 2) (b / 2) n (omega arith) (omega arith))
same_digits z f zero zero b zero hm hn = refl
same_digits z f zero zero b (suc n) hm hn = refl
same_digits z f (suc m) zero b zero hm hn = refl
same_digits z f (suc m) zero b (suc n) hm hn = refl

-- The lowest digit, and the rest.
lowest_digit :
    (z : ℕ → ℕ) (f : ℕ → ℕ → ℕ) (a b : ℕ)
    → digits z f (suc a) (suc a) b
      ≡ digits z f (suc a / 2) (suc a / 2) (b / 2) * 2 + f (suc a % 2) (b % 2)
lowest_digit z f a b =
    ap (λ (t : ℕ). t * 2 + f (suc a % 2) (b % 2))
      (same_digits z f a (suc a / 2) (b / 2) (suc a / 2) (omega arith) (omega arith))

and_step : (a b : ℕ) → bit_and a b ≡ bit_and (a / 2) (b / 2) * 2 + min (a % 2) (b % 2)
and_step zero b = omega (arith, bit_and-bitwise 0 b, bit_and-bitwise 0 (b / 2))
and_step (suc a) b = simp bit_and-bitwise (lowest_digit (λ _. zero) min a b)

or_step : (a b : ℕ) → bit_or a b ≡ bit_or (a / 2) (b / 2) * 2 + max (a % 2) (b % 2)
or_step zero b = omega (arith, bit_or-bitwise 0 b, bit_or-bitwise 0 (b / 2))
or_step (suc a) b = simp bit_or-bitwise (lowest_digit (λ y. y) max a b)

xor_step : (a b : ℕ) → bit_xor a b ≡ bit_xor (a / 2) (b / 2) * 2 + differ (a % 2) (b % 2)
xor_step zero b = omega (arith, bit_xor-bitwise 0 b, bit_xor-bitwise 0 (b / 2))
xor_step (suc a) b = simp bit_xor-bitwise (lowest_digit (λ y. y) differ a b)

and-zero : (n a : ℕ) → a ≤ n → bit_and a 0 ≡ 0
and-zero zero zero h = refl
and-zero zero (suc a) h = absurd (omega arith)
and-zero (suc n) a h = ground (arith, and_step a 0, and-zero n (a / 2))

or-zero : (n a : ℕ) → a ≤ n → bit_or a 0 ≡ a
or-zero zero zero h = refl
or-zero zero (suc a) h = absurd (omega arith)
or-zero (suc n) a h = ground (arith, or_step a 0, or-zero n (a / 2))

double_pow : (k q : ℕ) → q * 2 ^ suc k ≡ 2 * (q * 2 ^ k)
double_pow k q = omega (arith, ap (λ (t : ℕ). q * t) (pow-suc 2 k))

-- `(q << k) | r` is a sum where `r` has at most `k` bits.
pub bit_or_fields : (k q r : ℕ) → r < 2 ^ k → bit_or (q * 2 ^ k) r ≡ q * 2 ^ k + r
bit_or_fields zero q r h = ground (arith, or-zero q q)
bit_or_fields (suc k) q r h =
    ground
      (arith, or_step (q * 2 ^ suc k) r, double_pow k q, pow-suc 2 k, bit_or_fields k q (r / 2))

and_low : (k q r : ℕ) → r < 2 ^ k → bit_and (q * 2 ^ k + r) (2 ^ k - 1) ≡ r
and_low zero q r h = ground (arith, and-zero (q * 1 + r) (q * 1 + r))
and_low (suc k) q r h = ground (
  arith,
  and_step (q * 2 ^ suc k + r) (2 ^ suc k - 1),
  double_pow k q,
  pow-suc 2 k,
  one-le-pow k 2,
  and_low k q (r / 2),
)

-- A mask of `k` ones keeps the remainder.
pub bit_and_mask : (k a : ℕ) → bit_and a (2 ^ k - 1) ≡ a % 2 ^ k
bit_and_mask k a = ground (arith, one-le-pow k 2, and_low k (a / 2 ^ k) (a % 2 ^ k))

differ_twice : (x y : ℕ) → x < 2 → y < 2 → differ (differ x y) y ≡ x
differ_twice zero zero hx hy = refl
differ_twice zero (suc zero) hx hy = refl
differ_twice (suc zero) zero hx hy = refl
differ_twice (suc zero) (suc zero) hx hy = refl
differ_twice (suc (suc x)) y hx hy = absurd (omega arith)
differ_twice x (suc (suc y)) hx hy = absurd (omega arith)

differ-lt : (x y : ℕ) → x < 2 → y < 2 → differ x y < 2
differ-lt zero y hx hy = hy
differ-lt (suc zero) zero hx hy = hx
differ-lt (suc zero) (suc zero) hx hy = omega arith
differ-lt (suc zero) (suc (suc y)) hx hy = absurd (omega arith)
differ-lt (suc (suc x)) y hx hy = absurd (omega arith)

xor_twice : (n a k : ℕ) → a ≤ n → k ≤ n → bit_xor (bit_xor a k) k ≡ a
xor_twice zero zero zero ha hk = refl
xor_twice zero (suc a) k ha hk = absurd (omega arith)
xor_twice zero zero (suc k) ha hk = absurd (omega arith)
xor_twice (suc n) a k ha hk = ground (
  arith,
  halves,
  low,
  xor_step (bit_xor a k) k,
  xor_twice n (a / 2) (k / 2),
  differ_twice (a % 2) (k % 2),
)
  where
    halves : bit_xor a k / 2 ≡ bit_xor (a / 2) (k / 2)
    halves = ground (arith, xor_step a k, differ-lt (a % 2) (k % 2))

    low : bit_xor a k % 2 ≡ differ (a % 2) (k % 2)
    low = ground (arith, xor_step a k, differ-lt (a % 2) (k % 2))

-- Masking with the same word again gives the word back.
pub bit_xor_undo : (a k : ℕ) → bit_xor (bit_xor a k) k ≡ a
bit_xor_undo a k = xor_twice (a + k) a k (omega arith) (omega arith)

bit_xor-lt : (n a k : ℕ) → a < 2 ^ n → k < 2 ^ n → bit_xor a k < 2 ^ n
bit_xor-lt zero zero zero ha hk = omega arith
bit_xor-lt zero (suc a) k ha hk = absurd (omega arith)
bit_xor-lt zero zero (suc k) ha hk = absurd (omega arith)
bit_xor-lt (suc n) a k ha hk =
    ground
      (arith, xor_step a k, pow-suc 2 n, differ-lt (a % 2) (k % 2), bit_xor-lt n (a / 2) (k / 2))
