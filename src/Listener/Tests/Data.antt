-- ===== src/Listener/Tests/Data.antt =====
-- A library for keys, and packets, to run the listener on. A key is a number, its export two bytes,
-- and what is encrypted stays as it is.
use vcmp.Prelude.{
  ℕ, refl, none, some, [], ◌∷◌, ◌++◌, true, Bytes, ℤ, pos, negsuc, ◌==◌, if◌then◌else◌, length,
  get_elem?,
}
use vcmp.Listener.State.{Peer, Env, Input, no_stage, pubkey_wait, pubkey_check}
use vcmp.Listener.Accept.{zero_bytes}
use vcmp.Rsa.Openssl.{Evp}
use vcmp.Rsa.Decrypt.{EncryptNeedsInit}
use vcmp.Randdata.{codes}

-- A context is 0 at first, 1 when it is prepared for encryption, and 2 for decryption.
abbrev evp_where : (ℕ → Bytes → ℕ → ℤ × Bytes) → Evp ℕ ℕ
evp_where encrypt = record {
  ctx_new_id = some 0;
  keygen_init = λ c. (pos 1, c);
  set_rsa_keygen_bits = λ c n. (pos 1, c);
  keygen = λ c. (pos 1, 7);
  i2d_pubkey = λ k. (pos 2, 48 ∷ k ∷ []);
  d2i_pubkey = λ b. get_elem? b 1;
  ctx_new = λ k. some 0;
  encrypt_init = λ c. (pos 1, 1);
  encrypt_size = λ c b. (pos 1, length b);
  encrypt = encrypt;
  decrypt_init = λ c. (pos 1, 2);
  decrypt_size = λ c b. (pos 1, length b);
}

abbrev env_where : (ℕ → Bytes → ℕ → ℤ × Bytes) → Env ℕ ℕ
env_where encrypt = record {
  malloc = λ n. true;
  evp = evp_where encrypt;
  rand = λ i. i;
  write = λ b. pos 0;
  uuid0 = 259;
  uuid1 = 4;
  time = 5;
}

-- One library that refuses as OpenSSL does, and one that does not.
abbrev pub strict_encrypt : ℕ → Bytes → ℕ → ℤ × Bytes
strict_encrypt c b n = if c == 1 then (pos 1, b) else (negsuc 1, [])

abbrev pub strict_env : Env ℕ ℕ
strict_env = env_where strict_encrypt

abbrev pub lax_env : Env ℕ ℕ
lax_env = env_where (λ c b n. (pos 1, b))

pub strict_law : EncryptNeedsInit strict_env.evp
strict_law = record { refuses = λ ctx buf n. refl }

abbrev pub input_of : Bytes → Input
input_of bs = record { length = length bs; extent = bs }

abbrev pub challenge : Bytes
challenge = codes "abcdefghijkl"

abbrev pub fresh_peer : Peer ℕ
fresh_peer = record { pubkey = none; stage = no_stage; authenticity = zero_bytes }

abbrev pub waiting_peer : Peer ℕ
waiting_peer = record { pubkey = none; stage = pubkey_wait; authenticity = zero_bytes }

abbrev pub asked_peer : Peer ℕ
asked_peer = record { pubkey = some 9; stage = pubkey_check; authenticity = challenge }

abbrev packet_head : ℕ → Bytes
packet_head type = b'V' ∷ b'C' ∷ b'M' ∷ b'P' ∷ 0 ∷ 1 ∷ type ∷ []

abbrev pub verify_packet : Bytes
verify_packet = packet_head 1

abbrev pub key_packet : Bytes
key_packet = packet_head 3 ++ (2 ∷ 0 ∷ 0 ∷ 0 ∷ 48 ∷ 9 ∷ [])

-- An identifier and a time of zeros, the length 12, and the payload.
abbrev pub answer_packet : Bytes
answer_packet = packet_head 4 ++ (zero_bytes ++ (zero_bytes ++ (12 ∷ 0 ∷ 0 ∷ 0 ∷ challenge)))

-- A library for which each payload decrypts to the challenge.
abbrev pub sure_env : Env ℕ ℕ
sure_env = env_where (λ c b n. (pos 1, challenge))
