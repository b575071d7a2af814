-- ===== src/Protocol.antt =====
-- The packets of peers (vcmp/src/protocol.c, vcmp/include/vcmp/protocol.h): packed structs, with
-- their words in the order of a little endian host.
pub mod Layout
mod Tests
use vcmp.Prelude.{
  ℕ, ◌+◌, Option, none, some, List, [], ◌∷◌, ◌++◌, Bool, Outcome, done, ◌>>=◌, Bytes, u32, u64,
  if◌then◌else◌, le_bytes, load_front,
}

abbrev pub vcmp_magic : Bytes
vcmp_magic = b'V' ∷ b'C' ∷ b'M' ∷ b'P' ∷ 0 ∷ []

abbrev pub vcmp_version : ℕ
vcmp_version = 1

abbrev pub type_verify : ℕ
type_verify = 1

abbrev pub type_hs_init : ℕ
type_hs_init = 2

abbrev pub type_hs_ack : ℕ
type_hs_ack = 3

abbrev pub type_data : ℕ
type_data = 4

pub record VcmpHeader : Type 0 where
  pub magic : Bytes
  pub version : ℕ
  pub type : ℕ

pub record VcmpHandshake : Type 0 where
  pub header : VcmpHeader
  pub keylen : ℕ
  pub pubkey : Bytes

-- `vcmp_data_t` up to its payload.
pub record VcmpData : Type 0 where
  pub header : VcmpHeader
  pub uuid0 : ℕ
  pub uuid1 : ℕ
  pub timestamp : ℕ
  pub len : ℕ

-- `sizeof` of the three structs.
abbrev pub header_size : ℕ
header_size = 7

abbrev pub handshake_size : ℕ
handshake_size = 11

abbrev pub data_size : ℕ
data_size = 35

unfoldable pub vcmp_gen_header : ℕ → VcmpHeader
vcmp_gen_header type = record { magic = vcmp_magic; version = vcmp_version; type = type }

-- `malloc n` tells whether a block of `n` bytes is given. The type that is asked for is not used.
unfoldable pub vcmp_gen_hs_header : (ℕ → Bool) → ℕ → ℕ → Bytes → Outcome (Option VcmpHandshake)
unfolding vcmp_gen_header
vcmp_gen_hs_header malloc type keylen pubkey =
    if malloc (handshake_size + keylen)
    then (do
      key ← load_front keylen pubkey
      done (some (record { header = vcmp_gen_header type_hs_init; keylen = keylen; pubkey = key })))
    else done none

-- `uuid_generate` gives two words, `time` one.
unfoldable pub vcmp_gen_data_header : ℕ → ℕ → ℕ → ℕ → VcmpData
unfolding vcmp_gen_header
vcmp_gen_data_header uuid0 uuid1 time payload_size = record {
  header = vcmp_gen_header type_data;
  uuid0 = uuid0;
  uuid1 = uuid1;
  timestamp = u64 time;
  len = payload_size;
}

-- The structs as they lie in memory, and go out.
unfoldable pub header_bytes : VcmpHeader → Bytes
header_bytes h = h.magic ++ (h.version ∷ h.type ∷ [])

unfoldable pub handshake_bytes : VcmpHandshake → Bytes
unfolding header_bytes
handshake_bytes h = header_bytes h.header ++ (le_bytes 4 h.keylen ++ h.pubkey)

unfoldable pub data_bytes : VcmpData → Bytes
unfolding header_bytes
data_bytes d =
    header_bytes d.header
    ++ (le_bytes 8 d.uuid0 ++ (le_bytes 8 d.uuid1 ++ (le_bytes 8 d.timestamp ++ le_bytes 4 d.len)))
