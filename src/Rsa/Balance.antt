-- ===== src/Rsa/Balance.antt =====
-- What rsa.c takes it gives back: contexts always, buffers unless they are the result.
use vcmp.Prelude.{
  ℕ, ◌+◌, ◌≡◌, Option, none, some, List, [], ◌∷◌, Bool, true, false, Bytes, if◌then◌else◌, arith,
}
use vcmp.Rsa.Openssl.{Evp}
use vcmp.Rsa.{
  Call, ctx_new, ctx_free, malloc_buf, free_buf, Ran, rsa_generate, rsa_encrypt, rsa_decrypt,
}

abbrev pub same_call : Call → Call → Bool
same_call ctx_new ctx_new = true
same_call ctx_free ctx_free = true
same_call malloc_buf malloc_buf = true
same_call free_buf free_buf = true
same_call _ _ = false

abbrev pub times : Call → List Call → ℕ
times c [] = 0
times c (x ∷ xs) = (if same_call c x then 1 else 0) + times c xs

abbrev pub buffers_out : Option Bytes → ℕ
buffers_out none = 0
buffers_out (some b) = 1

-- Every context is freed, and every buffer but the one returned.
abbrev pub IsBalanced : Ran Bytes → Type 0
IsBalanced r =
    (times ctx_new r.1 ≡ times ctx_free r.1)
    × (times malloc_buf r.1 ≡ times free_buf r.1 + buffers_out r.0)

-- On every path through `rsa_generate`, `rsa_encrypt` and `rsa_decrypt` each context that was made is
-- freed, and each buffer is freed or returned.
pub rsa_IsBalanced :
    {K C : Type 0} (evp : Evp K C) (malloc : ℕ → Bool) (buf : Bytes) (key : K)
    → (times ctx_new (rsa_generate evp).1 ≡ times ctx_free (rsa_generate evp).1)
      × IsBalanced (rsa_encrypt evp malloc buf key)
      × IsBalanced (rsa_decrypt evp malloc buf key)
unfolding rsa_generate rsa_encrypt rsa_decrypt
rsa_IsBalanced evp malloc buf key = (ground arith, ground arith, ground arith)
