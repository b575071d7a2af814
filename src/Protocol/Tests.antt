-- ===== src/Protocol/Tests.antt =====
-- Packets with short keys and payloads.
use vcmp.Prelude.{
  ◌≡◌, refl, some, [], ◌∷◌, ◌++◌, true, Bytes, done, arith, le_word, le_bytes, load_bytes,
}
use vcmp.Protocol.{vcmp_magic, VcmpHandshake, handshake_bytes, vcmp_gen_hs_header}
use vcmp.Protocol.Layout.{handshake_bytes-vcmp_gen_hs_header}

abbrev two_bytes : Bytes
two_bytes = 48 ∷ 9 ∷ []

handshake_bytes-vcmp_gen_hs_header_example :
    (h : VcmpHandshake) × (vcmp_gen_hs_header (λ n. true) 3 2 (two_bytes ++ []) ≡ done (some h))
    × (load_bytes (handshake_bytes h) 0 7 ≡ done (vcmp_magic ++ (1 ∷ 2 ∷ [])))
    × (load_bytes (handshake_bytes h) 7 4 ≡ done (le_bytes 4 2))
    × (le_word (le_bytes 4 2) ≡ 2)
    × (load_bytes (handshake_bytes h) 11 2 ≡ done two_bytes)
handshake_bytes-vcmp_gen_hs_header_example =
    handshake_bytes-vcmp_gen_hs_header (λ n. true) 3 two_bytes [] (omega arith) refl
