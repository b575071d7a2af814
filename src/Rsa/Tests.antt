-- ===== src/Rsa/Tests.antt =====
-- A library where the buffer cannot be encrypted, and one where it can.
use vcmp.Prelude.{
  ℕ, zero, suc, ◌≡◌, refl, none, some, [], ◌∷◌, true, pos, negsuc, length, get_elem?,
}
use vcmp.Rsa.Openssl.{Evp}
use vcmp.Rsa.{ctx_new, ctx_free, malloc_buf, free_buf, rsa_generate, rsa_encrypt, rsa_decrypt}
use vcmp.Rsa.Balance.{times, IsBalanced, rsa_IsBalanced}

-- A context is 1 when it is prepared for encryption.
abbrev plain : Evp ℕ ℕ
plain = record {
  ctx_new_id = some 0;
  keygen_init = λ c. (pos 1, c);
  set_rsa_keygen_bits = λ c n. (pos 1, c);
  keygen = λ c. (pos 1, 7);
  i2d_pubkey = λ k. (pos 2, 48 ∷ k ∷ []);
  d2i_pubkey = λ b. get_elem? b 1;
  ctx_new = λ k. some 0;
  encrypt_init = λ c. (pos 1, 1);
  encrypt_size = λ c b. (pos 1, length b);
  encrypt = λ c b n. elim c [ zero ↦ (negsuc 0, []) | suc m ↦ (pos 1, b) ];
  decrypt_init = λ c. (pos 1, 0);
  decrypt_size = λ c b. (pos 1, length b);
}

encrypt_run :
    rsa_encrypt plain (λ n. true) (1 ∷ 2 ∷ []) 7
    ≡ (some (1 ∷ 2 ∷ []), ctx_new ∷ malloc_buf ∷ ctx_free ∷ [])
unfolding rsa_encrypt
encrypt_run = refl

decrypt_run :
    rsa_decrypt plain (λ n. true) (1 ∷ 2 ∷ []) 7
    ≡ (none, ctx_new ∷ malloc_buf ∷ free_buf ∷ ctx_free ∷ [])
unfolding rsa_decrypt
decrypt_run = refl

rsa_IsBalanced_example :
    (times ctx_new (rsa_generate plain).1 ≡ times ctx_free (rsa_generate plain).1)
    × IsBalanced (rsa_encrypt plain (λ n. true) (1 ∷ 2 ∷ []) 7)
    × IsBalanced (rsa_decrypt plain (λ n. true) (1 ∷ 2 ∷ []) 7)
rsa_IsBalanced_example = rsa_IsBalanced plain (λ n. true) (1 ∷ 2 ∷ []) 7
