-- ===== src/Rsa/Openssl.antt =====
-- The functions of OpenSSL that vcmp/src/rsa.c calls. `K` is `EVP_PKEY` and `C` is `EVP_PKEY_CTX`; a
-- function that changes a context returns it. An `int` result is a `ℤ`.
use vcmp.Prelude.{ℕ, Option, Bytes, ℤ}

pub record Evp (K C : Type 0) : Type 0 where
  pub ctx_new_id : Option C
  pub keygen_init : C → ℤ × C
  pub set_rsa_keygen_bits : C → ℕ → ℤ × C
  pub keygen : C → ℤ × K
  pub i2d_pubkey : K → ℤ × Bytes
  pub d2i_pubkey : Bytes → Option K
  pub ctx_new : K → Option C
  pub encrypt_init : C → ℤ × C
  pub encrypt_size : C → Bytes → ℤ × ℕ
  pub encrypt : C → Bytes → ℕ → ℤ × Bytes
  pub decrypt_init : C → ℤ × C
  pub decrypt_size : C → Bytes → ℤ × ℕ
