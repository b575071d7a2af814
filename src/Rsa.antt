-- ===== src/Rsa.antt =====
-- RSA through OpenSSL (vcmp/src/rsa.c, vcmp/include/vcmp/rsa.h).
pub mod Openssl
pub mod Balance
pub mod Decrypt
mod Tests
use vcmp.Prelude.{
  ℕ, ◌+◌, Option, none, some, List, [], ◌∷◌, ◌++◌, Bool, not, Bytes, ℤ, is_positive, if◌then◌else◌,
  length,
}
use vcmp.Rsa.Openssl.{Evp}

-- What a function of rsa.c takes from and gives back to OpenSSL and the heap, in order.
pub data Call : Type 0 where
  ctx_new ctx_free malloc_buf free_buf : Call

-- The result and the calls.
abbrev pub Ran : Type 0 → Type 0
Ran A = Option A × List Call

abbrev pub rsa_bits : ℕ
rsa_bits = 2048

module _ {K C : Type 0} (evp : Evp K C) where
  generate_in : C → Ran K
  generate_in ctx =
      let (inited, ctx1) = evp.keygen_init ctx in
      let (set, ctx2) = evp.set_rsa_keygen_bits ctx1 rsa_bits in
      let (made, pkey) = evp.keygen ctx2 in
      if not (is_positive inited)
      then (none, ctx_new ∷ ctx_free ∷ [])
      else if not (is_positive set)
      then (none, ctx_new ∷ ctx_free ∷ [])
      else if not (is_positive made)
      then (none, ctx_new ∷ ctx_free ∷ [])
      else (some pkey, ctx_new ∷ ctx_free ∷ [])

  unfoldable pub rsa_generate : Ran K
  unfolding generate_in
  rsa_generate = elim evp.ctx_new_id [ none ↦ (none, []) | some ctx ↦ generate_in ctx ]

  -- The key and the length that goes to `*outlen`.
  unfoldable pub rsa_get_der_pubkey : K → Option (ℤ × Bytes)
  rsa_get_der_pubkey pubkey =
      let (outlen, key) = evp.i2d_pubkey pubkey in
      if not (is_positive outlen) then none else some (outlen, key)

  unfoldable pub rsa_load_der_pubkey : Bytes → Option K
  rsa_load_der_pubkey pubkey = evp.d2i_pubkey pubkey

  encrypt_in : (ℕ → Bool) → Bytes → C → Ran Bytes
  encrypt_in malloc buf ctx =
      let (inited, ctx1) = evp.encrypt_init ctx in
      let (sized, outlen) = evp.encrypt_size ctx1 buf in
      let (crypted, encrypted) = evp.encrypt ctx1 buf outlen in
      if not (is_positive inited)
      then (none, ctx_new ∷ ctx_free ∷ [])
      else if not (is_positive sized)
      then (none, ctx_new ∷ ctx_free ∷ [])
      else if not (malloc outlen)
      then (none, ctx_new ∷ ctx_free ∷ [])
      else if not (is_positive crypted)
      then (none, ctx_new ∷ malloc_buf ∷ free_buf ∷ ctx_free ∷ [])
      else (some encrypted, ctx_new ∷ malloc_buf ∷ ctx_free ∷ [])

  -- `*outlen` is the length of the result.
  unfoldable pub rsa_encrypt : (ℕ → Bool) → Bytes → K → Ran Bytes
  unfolding encrypt_in
  rsa_encrypt malloc buf pubkey = elim (evp.ctx_new pubkey) [
    | none ↦ (none, [])
    | some ctx ↦ encrypt_in malloc buf ctx
  ]

  -- The last call is `EVP_PKEY_encrypt` here too.
  decrypt_in : (ℕ → Bool) → Bytes → C → Ran Bytes
  decrypt_in malloc buf ctx =
      let (inited, ctx1) = evp.decrypt_init ctx in
      let (sized, outlen) = evp.decrypt_size ctx1 buf in
      let (crypted, decrypted) = evp.encrypt ctx1 buf outlen in
      if not (is_positive inited)
      then (none, ctx_new ∷ ctx_free ∷ [])
      else if not (is_positive sized)
      then (none, ctx_new ∷ ctx_free ∷ [])
      else if not (malloc outlen)
      then (none, ctx_new ∷ ctx_free ∷ [])
      else if not (is_positive crypted)
      then (none, ctx_new ∷ malloc_buf ∷ free_buf ∷ ctx_free ∷ [])
      else (some decrypted, ctx_new ∷ malloc_buf ∷ ctx_free ∷ [])

  unfoldable pub rsa_decrypt : (ℕ → Bool) → Bytes → K → Ran Bytes
  unfolding decrypt_in
  rsa_decrypt malloc buf privkey = elim (evp.ctx_new privkey) [
    | none ↦ (none, [])
    | some ctx ↦ decrypt_in malloc buf ctx
  ]
