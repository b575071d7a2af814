-- ===== src/Rsa/Decrypt.antt =====
-- `rsa_decrypt` makes its last call with `EVP_PKEY_encrypt`.
use vcmp.Prelude.{ℕ, ◌≡◌, none, Bool, false, Bytes, is_positive, arith, Option-cases, inl, inr}
use vcmp.Rsa.Openssl.{Evp}
use vcmp.Rsa.{rsa_decrypt}

-- OpenSSL: `EVP_PKEY_encrypt` fails on a context that `EVP_PKEY_encrypt_init` has not prepared, such
-- as one prepared for decryption.
pub record EncryptNeedsInit {K C : Type 0} (evp : Evp K C) : Type 0 where
  pub refuses :
      (ctx : C) (buf : Bytes) (n : ℕ)
      → is_positive (evp.encrypt (evp.decrypt_init ctx).1 buf n).0 ≡ false

-- Where `EVP_PKEY_encrypt` refuses a context that was prepared for decryption, `rsa_decrypt` gives no
-- result, on any input and with any key.
pub rsa_decrypt-none :
    {K C : Type 0} (evp : Evp K C)
    → EncryptNeedsInit evp
    → (malloc : ℕ → Bool) (buf : Bytes) (key : K) → (rsa_decrypt evp malloc buf key).0 ≡ none
unfolding rsa_decrypt
rsa_decrypt-none evp law malloc buf key = elim (Option-cases (evp.ctx_new key)) [
  | inl e ↦ rw (e, rsa_decrypt)
  | inr (ctx, e) ↦
      let outlen = (evp.decrypt_size (evp.decrypt_init ctx).1 buf).1 in
      rw (e, rsa_decrypt) (ground (arith, law.refuses ctx buf outlen))
]
