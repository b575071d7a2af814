-- ===== src/Frame/Order.antt =====
-- The byte order of 64-bit lengths.
use vcmp.Prelude.{
  ℕ, ◌+◌, ◌*◌, ◌/◌, ◌%◌, ◌^◌, ◌<◌, ◌≡◌, refl, ◌∙◌, All, [], ◌∷◌, arith, ◌++◌, IsByte, le_word,
  le_bytes, be_bytes, ntohl, ntohs, bit_or_fields, bit_and_mask,
}
use vcmp.Frame.{join_halves, ntohll, htonll}

pub ntohs-le_word : (a b : ℕ) → a < 256 → b < 256 → ntohs (a + 256 * b) ≡ a * 256 + b
unfolding ntohs
ntohs-le_word a b ha hb = omega arith

ntohl-le_word :
    (a b c d : ℕ)
    → IsByte a
    → IsByte b
    → IsByte c
    → IsByte d
    → ntohl (a + 256 * (b + 256 * (c + 256 * d))) ≡ ((a * 256 + b) * 256 + c) * 256 + d
unfolding ntohl
ntohl-le_word a b c d ha hb hc hd = omega arith

pub ntohl-lt : (v : ℕ) → ntohl v < 2 ^ 32
unfolding ntohl
ntohl-lt v = omega arith

ntohl-ntohl : (v : ℕ) → v < 2 ^ 32 → ntohl (ntohl v) ≡ v
unfolding ntohl
ntohl-ntohl v h = omega arith

-- Each half is reversed in its place.
pub ntohll_halves :
    (v : ℕ) → v < 2 ^ 64 → ntohll v ≡ ntohl (v / 2 ^ 32) * 2 ^ 32 + ntohl (v % 2 ^ 32)
unfolding ntohll join_halves
ntohll_halves v h = ground (
  arith,
  bit_and_mask 32 v,
  ntohl-lt (v / 2 ^ 32),
  ntohl-lt (v % 2 ^ 32),
  bit_or_fields 32 (ntohl (v / 2 ^ 32)) (ntohl (v % 2 ^ 32)),
)

pub htonll-eq-ntohll : (v : ℕ) → htonll v ≡ ntohll v
unfolding htonll ntohll
htonll-eq-ntohll v = refl

-- On words of 64 bits `ntohll` undoes `htonll`.
pub ntohll-htonll : (v : ℕ) → v < 2 ^ 64 → ntohll (htonll v) ≡ v
ntohll-htonll v h = ground (
  arith,
  htonll-eq-ntohll v,
  ntohll_halves v h,
  ntohll_halves (ntohl (v / 2 ^ 32) * 2 ^ 32 + ntohl (v % 2 ^ 32)),
  ntohl-lt (v / 2 ^ 32),
  ntohl-lt (v % 2 ^ 32),
  ntohl-ntohl (v / 2 ^ 32),
  ntohl-ntohl (v % 2 ^ 32),
)

-- The eight bytes of a word, the lowest first: each half of them is reversed in its place.
ntohll_bytes :
    (a b c d e f g h : ℕ)
    → All IsByte (a ∷ b ∷ c ∷ d ∷ e ∷ f ∷ g ∷ h ∷ [])
    → ntohll (le_word (a ∷ b ∷ c ∷ d ∷ e ∷ f ∷ g ∷ h ∷ []))
      ≡ (((e * 256 + f) * 256 + g) * 256 + h) * 2 ^ 32 + (((a * 256 + b) * 256 + c) * 256 + d)
unfolding le_word
ntohll_bytes a b c d e f g h bytes =
    ntohll_halves _ (omega arith)
    ∙ rw (
      high,
      low,
      ntohl-le_word e f g h (omega arith) (omega arith) (omega arith) (omega arith),
      ntohl-le_word a b c d (omega arith) (omega arith) (omega arith) (omega arith),
    )
  where
    high :
        le_word (a ∷ b ∷ c ∷ d ∷ e ∷ f ∷ g ∷ h ∷ []) / 2 ^ 32 ≡ e + 256 * (f + 256 * (g + 256 * h))
    high = omega arith

    low :
        le_word (a ∷ b ∷ c ∷ d ∷ e ∷ f ∷ g ∷ h ∷ []) % 2 ^ 32 ≡ a + 256 * (b + 256 * (c + 256 * d))
    low = omega arith

-- The eight bytes of a word in network order are read by `ntohll` as the word with its halves exchanged.
pub ntohll_network :
    (v : ℕ) → v < 2 ^ 64 → ntohll (le_word (be_bytes 8 v)) ≡ v % 2 ^ 32 * 2 ^ 32 + v / 2 ^ 32
unfolding be_bytes
ntohll_network v h = omega (
  arith,
  ntohll_bytes (v / 256 ^ 7 % 256) (v / 256 ^ 6 % 256) (v / 256 ^ 5 % 256) (v / 256 ^ 4 % 256)
      (v / 256 ^ 3 % 256) (v / 256 ^ 2 % 256) (v / 256 % 256) (v / 1 % 256) (omega arith),
)

pub le_bytes-ntohs : (v : ℕ) → v < 2 ^ 16 → le_bytes 2 (ntohs v) ≡ be_bytes 2 v
unfolding le_bytes be_bytes ntohs
le_bytes-ntohs v h = ground arith

le_bytes-ntohl : (v : ℕ) → v < 2 ^ 32 → le_bytes 4 (ntohl v) ≡ be_bytes 4 v
unfolding le_bytes be_bytes ntohl
le_bytes-ntohl v h = ground arith

le_bytes_halves :
    (high low : ℕ)
    → low < 2 ^ 32
    → le_bytes 8 (high * 2 ^ 32 + low) ≡ le_bytes 4 low ++ le_bytes 4 high
unfolding le_bytes
le_bytes_halves high low h = ground arith

-- The 64-bit field is written with the halves of the length exchanged, too.
pub le_bytes-htonll :
    (v : ℕ)
    → v < 2 ^ 64
    → le_bytes 8 (htonll v) ≡ be_bytes 4 (v % 2 ^ 32) ++ be_bytes 4 (v / 2 ^ 32)
le_bytes-htonll v h = rw (
  htonll-eq-ntohll v,
  ntohll_halves v h,
  le_bytes_halves (ntohl (v / 2 ^ 32)) (ntohl (v % 2 ^ 32)) (ntohl-lt (v % 2 ^ 32)),
  le_bytes-ntohl (v % 2 ^ 32) (omega arith),
  le_bytes-ntohl (v / 2 ^ 32) (omega arith),
)
