-- ===== src/Prelude/Words.antt =====
-- Integers of C: unsigned words wrap by `%`, an `int` or `ssize_t` is a `ℤ` below.
use Prim.Native.Nat.{ℕ, zero, suc, ◌+◌, ◌-◌, ◌*◌, ◌/◌, ◌%◌, ◌^◌, ◌<◌}
use mathlib.Core.Path.{◌≡◌, refl, ap}
use mathlib.Core.Bool.{Bool, true, false}
use mathlib.Core.List.{List, [], ◌∷◌}
use native.Mathlib.Nat.{pow-suc}
use native.Mathlib.Omega.{arith}
use vcmp.Prelude.Lists.{length, All}
use vcmp.Prelude.Tests.{ltb, if◌then◌else◌}

abbrev pub Bytes : Type 0
Bytes = List ℕ

abbrev pub u8 : ℕ → ℕ
u8 n = n % 2 ^ 8

abbrev pub u16 : ℕ → ℕ
u16 n = n % 2 ^ 16

abbrev pub u32 : ℕ → ℕ
u32 n = n % 2 ^ 32

abbrev pub u64 : ℕ → ℕ
u64 n = n % 2 ^ 64

-- `negsuc n` is -(n + 1).
pub data ℤ : Type 0 where
  pos : ℕ → ℤ
  negsuc : ℕ → ℤ

-- The tests `x > 0` and `x == 0` on an `int` that a library returns.
abbrev pub is_positive : ℤ → Bool
is_positive (pos zero) = false
is_positive (pos (suc n)) = true
is_positive (negsuc n) = false

abbrev pub is_zero : ℤ → Bool
is_zero (pos zero) = true
is_zero (pos (suc n)) = false
is_zero (negsuc n) = false

-- `(size_t)(int)n` for a `size_t` n: the low 32 bits, sign extended.
abbrev pub int_as_size : ℕ → ℕ
int_as_size n = let w = n % 2 ^ 32 in if ltb w (2 ^ 31) then w else w + (2 ^ 64 - 2 ^ 32)

abbrev pub IsByte : ℕ → Type 0
IsByte b = b < 256

-- The `n` bytes of a word in memory, the lowest first: the host is little endian.
unfoldable pub le_bytes : ℕ → ℕ → Bytes
le_bytes zero v = []
le_bytes (suc n) v = v % 256 ∷ le_bytes n (v / 256)

-- The word that these bytes of memory hold.
unfoldable pub le_word : Bytes → ℕ
le_word [] = 0
le_word (b ∷ bs) = b + 256 * le_word bs

pub length-le_bytes : (n v : ℕ) → length (le_bytes n v) ≡ n
unfolding le_bytes
length-le_bytes zero v = refl
length-le_bytes (suc n) v = ap suc (length-le_bytes n (v / 256))

le_bytes-IsByte : (n v : ℕ) → All IsByte (le_bytes n v)
unfolding le_bytes
le_bytes-IsByte zero v = tt
le_bytes-IsByte (suc n) v = (omega arith, le_bytes-IsByte n (v / 256))

pub le_word-le_bytes : (n v : ℕ) → v < 256 ^ n → le_word (le_bytes n v) ≡ v
unfolding le_bytes le_word
le_word-le_bytes zero v h = omega arith
le_word-le_bytes (suc n) v h = ground (arith, pow-suc 256 n, le_word-le_bytes n (v / 256))

-- Bytes in network order, the highest first.
be_from : ℕ → Bytes → ℕ
be_from acc [] = acc
be_from acc (b ∷ bs) = be_from (acc * 256 + b) bs

be_word : Bytes → ℕ
unfolding be_from
be_word bs = be_from 0 bs

unfoldable pub be_bytes : ℕ → ℕ → Bytes
be_bytes zero v = []
be_bytes (suc n) v = v / 256 ^ n % 256 ∷ be_bytes n v

-- `ntohs` and `ntohl`, and `htons` and `htonl`, reverse the bytes of a word on such a host.
unfoldable pub ntohs : ℕ → ℕ
unfolding le_bytes be_word
ntohs v = be_word (le_bytes 2 v)

unfoldable pub ntohl : ℕ → ℕ
unfolding le_bytes be_word
ntohl v = be_word (le_bytes 4 v)
