-- ===== src/Listener/Stages/Laws.antt =====
-- What keeps the stages of the listener inside of their buffers: what OpenSSL writes, and input in one
-- piece.
use vcmp.Prelude.{
  ℕ, ◌+◌, ◌^◌, ◌≤◌, ◌<◌, ◌≡◌, some, Bool, true, false, not, Bytes, ℤ, pos, done, ◌>>=◌, Runs,
  >>=-Runs, length, load_front_in_bounds, ◌==◌, arith, Bool-cases, inl, inr, is_positive,
}
use vcmp.Listener.State.{Input}
use vcmp.Listener.Wire.{vcmp_validate, load_type}
use vcmp.Listener.Wire.Bounds.{load-Runs, vcmp_validate-Runs}
use vcmp.Listener.Stages.{is_other}
use vcmp.Protocol.{handshake_size, vcmp_gen_hs_header}
use vcmp.Rsa.Openssl.{Evp}
use vcmp.Rsa.{rsa_get_der_pubkey}

pub is_other-Runs : (buf : Bytes) (type : ℕ) → 7 ≤ length buf → Runs (is_other buf type)
unfolding is_other
is_other-Runs buf type h =
    >>=-Runs (vcmp_validate buf) _ (vcmp_validate-Runs buf h) λ code e. typed (code == 0)
  where
    typed :
        (t : Bool)
        → Runs (elim t [ true ↦ load_type buf >>= λ t. done (not (t == type)) | false ↦ done true ])
    typed true = >>=-Runs (load_type buf) _ (load-Runs buf 6 (omega arith)) λ t e. tt
    typed false = tt

-- OpenSSL: `i2d_PUBKEY` returns the number of bytes that it has written.
pub record DerLaw {K C : Type 0} (evp : Evp K C) : Type 0 where
  pub writes :
      (k : K) (outlen : ℤ) (der : Bytes)
      → evp.i2d_pubkey k ≡ (outlen, der)
      → is_positive outlen ≡ true
      → outlen ≡ pos (length der)

-- All of the input is in the first extent, and its length fits an `int`.
pub record InOnePiece (input : Input) : Type 0 where
  pub whole : length input.extent ≡ input.length
  pub fits : input.length < 2 ^ 31

pub vcmp_gen_hs_header-Runs :
    (malloc : ℕ → Bool) (type keylen : ℕ) (der : Bytes)
    → keylen ≤ length der
    → Runs (vcmp_gen_hs_header malloc type keylen der)
unfolding vcmp_gen_hs_header
vcmp_gen_hs_header-Runs malloc type keylen der h =
    elim (Bool-cases (malloc (handshake_size + keylen))) [
      | inl e ↦ rw e (let (bs, r, l, s) = load_front_in_bounds keylen der h in rw r tt)
      | inr e ↦ rw e tt
    ]

pub der_written :
    {K C : Type 0} (evp : Evp K C) (k : K) (outlen : ℤ) (der : Bytes)
    → rsa_get_der_pubkey evp k ≡ some (outlen, der)
    → (evp.i2d_pubkey k ≡ (outlen, der)) × (is_positive outlen ≡ true)
unfolding rsa_get_der_pubkey
der_written evp k outlen der e = ground arith
