-- ===== src/Protocol/Layout.antt =====
-- The sizes of packets, and reading their words back.
use vcmp.Prelude.{
  ℕ, ◌+◌, ◌^◌, ◌<◌, ◌≡◌, refl, some, [], ◌∷◌, ◌++◌, Bool, true, Bytes, done, length, le_bytes,
  length-le_bytes, le_word, le_word-le_bytes, load_front-append, load_bytes, load_bytes-append, u64,
  append-nil, arith, sym,
}
use vcmp.Protocol.{
  vcmp_magic, VcmpHandshake, vcmp_gen_header, vcmp_gen_hs_header, vcmp_gen_data_header,
  header_bytes, handshake_bytes, data_bytes,
}

-- A handshake packet for a key of less than 2 ^ 32 bytes, if it can be allocated, starts with the magic
-- word, the version 1 and the type 2, whichever type was asked for, and holds the length of the key at
-- offset 7, which reads back, and the key at offset 11.
pub handshake_bytes-vcmp_gen_hs_header :
    (malloc : ℕ → Bool) (type : ℕ) (key rest : Bytes)
    → length key < 2 ^ 32
    → malloc (11 + length key) ≡ true
    → (h : VcmpHandshake) × (vcmp_gen_hs_header malloc type (length key) (key ++ rest)
        ≡ done (some h))
      × (load_bytes (handshake_bytes h) 0 7 ≡ done (vcmp_magic ++ (1 ∷ 2 ∷ [])))
      × (load_bytes (handshake_bytes h) 7 4 ≡ done (le_bytes 4 (length key)))
      × (le_word (le_bytes 4 (length key)) ≡ length key)
      × (load_bytes (handshake_bytes h) 11 (length key) ≡ done key)
unfolding vcmp_gen_hs_header vcmp_gen_header handshake_bytes header_bytes
handshake_bytes-vcmp_gen_hs_header malloc type key rest fits given = (
  record { header = vcmp_gen_header 2; keylen = length key; pubkey = key },
  rw (given, load_front-append key rest) refl,
  load_bytes-append [] header (le_bytes 4 (length key) ++ key) 0 7 refl refl,
  load_bytes-append header (le_bytes 4 (length key)) key 7 4 refl
      (sym (length-le_bytes 4 (length key))),
  le_word-le_bytes 4 (length key) fits,
  rw (append-nil key) at (
      load_bytes-append (header ++ le_bytes 4 (length key)) key [] 11 (length key)
        (omega (arith, length-le_bytes 4 (length key))) refl),
)
  where
    header : Bytes
    header = vcmp_magic ++ (1 ∷ 2 ∷ [])

-- A data packet with a payload of less than 2 ^ 32 bytes behind it starts with the magic word, the version 1 and the type 4; the length of
-- the payload stands at offset 31 and reads back; the payload stands at offset 35.
pub data_bytes-vcmp_gen_data_header :
    (uuid0 uuid1 time : ℕ) (payload : Bytes)
    → length payload < 2 ^ 32
    → let packet = data_bytes (vcmp_gen_data_header uuid0 uuid1 time (length payload)) ++ payload in
      (load_bytes packet 0 7 ≡ done (vcmp_magic ++ (1 ∷ 4 ∷ [])))
      × (load_bytes packet 31 4 ≡ done (le_bytes 4 (length payload)))
      × (le_word (le_bytes 4 (length payload)) ≡ length payload)
      × (load_bytes packet 35 (length payload) ≡ done payload)
unfolding data_bytes header_bytes vcmp_gen_data_header vcmp_gen_header le_bytes
data_bytes-vcmp_gen_data_header uuid0 uuid1 time payload fits = (
  load_bytes-append [] header (words ++ (le_bytes 4 (length payload) ++ payload)) 0 7 refl refl,
  load_bytes-append (header ++ words) (le_bytes 4 (length payload)) payload 31 4 refl refl,
  le_word-le_bytes 4 (length payload) fits,
  rw (append-nil payload) at (
      load_bytes-append (header ++ (words ++ le_bytes 4 (length payload))) payload [] 35
        (length payload) refl refl),
)
  where
    header : Bytes
    header = vcmp_magic ++ (1 ∷ 4 ∷ [])

    words : Bytes
    words = le_bytes 8 uuid0 ++ (le_bytes 8 uuid1 ++ le_bytes 8 (u64 time))
