-- ===== src/Listener/Stages/Bounds.antt =====
-- The stages of `read_cb` run without a fault on packets that stand in one piece.
use vcmp.Prelude.{
  ℕ, ◌+◌, ◌≤◌, ◌≡◌, refl, Option, none, some, List, [], ◌∷◌, ◌++◌, not, Bytes, ℤ, done, Runs,
  >>=-Runs, if-Runs, Runs-eq_done, length, load_bytes, memcmp_equal, memcmp_equal_in_bounds, ◌==◌,
  leb, int_as_size, arith, Option-cases, inl, inr,
}
use vcmp.Listener.State.{Peer, Env, Input, Step, drop_peer, evbuffer_drain, free_pkey, Call}
use vcmp.Listener.Wire.{load_keylen, load_len}
use vcmp.Listener.Wire.Bounds.{load_bytes-Runs, load_keylen-Runs, load_len-Runs}
use vcmp.Listener.Stages.{
  int_as_u32, is_other, send_handshake, send_pubkey, stage_none, send_data, send_challenge,
  load_pubkey, stage_pubkey_wait, compare_answer, decrypt_answer, stage_pubkey_check,
}
use vcmp.Protocol.{
  header_size, handshake_size, data_size, type_verify, type_hs_init, type_hs_ack, type_data,
  VcmpHandshake, vcmp_gen_hs_header,
}
use vcmp.Rsa.{rsa_get_der_pubkey, rsa_load_der_pubkey, rsa_encrypt, rsa_decrypt}
use vcmp.Randdata.{rand_array, rand_array_fills}
use vcmp.Listener.Stages.Laws.{
  DerLaw, InOnePiece, is_other-Runs, vcmp_gen_hs_header-Runs, der_written,
}

module _ {K C : Type 0} (env : Env K C) where
  send_pubkey-Runs :
      (keypair : K) (peer : Peer K) → DerLaw env.evp → Runs (send_pubkey env keypair peer)
  unfolding send_pubkey
  send_pubkey-Runs keypair peer law = elim (Option-cases (rsa_get_der_pubkey env.evp keypair)) [
    | inl e ↦ rw (e, send_pubkey) tt
    | inr ((keylen, der), e) ↦
        rw (e, send_pubkey)
          (>>=-Runs (vcmp_gen_hs_header env.malloc type_hs_init (int_as_u32 keylen) der) _
            (vcmp_gen_hs_header-Runs env.malloc type_hs_init (int_as_u32 keylen) der
              (long_enough keylen der e))
            λ made _. made_case made)
  ]
    where
      long_enough :
          (keylen : ℤ) (der : Bytes)
          → rsa_get_der_pubkey env.evp keypair ≡ some (keylen, der)
          → int_as_u32 keylen ≤ length der
      long_enough keylen der e =
          let (written, positive) = der_written env.evp keypair keylen der e in
          rw (law.writes keypair keylen der written positive) (omega arith)

      made_case :
          (made : Option VcmpHandshake)
          → Runs {A = Step K} (elim made [
            | none ↦ done (drop_peer (evbuffer_drain header_size ∷ []))
            | some hs ↦ done (send_handshake env peer hs)
          ])
      made_case none = tt
      made_case (some hs) = tt

  pub stage_none-Runs :
      (keypair : K) (peer : Peer K) (input : Input)
      → DerLaw env.evp
      → 7 ≤ length input.extent
      → Runs (stage_none env keypair peer input)
  unfolding stage_none
  stage_none-Runs keypair peer input law h =
      >>=-Runs (is_other input.extent type_verify) _ (is_other-Runs input.extent type_verify h)
        λ other e. if-Runs other _ _ (λ _. tt) (λ _. send_pubkey-Runs keypair peer law)

  send_challenge-Runs :
      (peer : Peer K) (k : K) (drained : List (Call K))
      → length peer.authenticity ≡ 12
      → Runs (send_challenge env peer k drained)
  unfolding send_challenge
  send_challenge-Runs peer k drained h =
      let (a, r, l, g) = rand_array_fills env.rand peer.authenticity 12 h in
      >>=-Runs (rand_array env.rand peer.authenticity 12) _ (Runs-eq_done _ r)
        λ a _. crypted a (rsa_encrypt env.evp env.malloc a k).0
    where
      crypted :
          (a : Bytes) (o : Option Bytes)
          → Runs {A = Step K} (elim o [
            | none ↦ done (drop_peer (drained ++ (free_pkey (some k) ∷ [])))
            | some enc ↦ done (send_data env (record peer { authenticity = a }) k enc drained)
          ])
      crypted a none = tt
      crypted a (some enc) = tt

  load_pubkey-Runs :
      (peer : Peer K) (input : Input) (keylen : ℕ)
      → length peer.authenticity ≡ 12
      → 11 + keylen ≤ length input.extent
      → Runs (load_pubkey env peer input keylen)
  unfolding load_pubkey
  load_pubkey-Runs peer input keylen h room =
      >>=-Runs (load_bytes input.extent handshake_size keylen) _
        (load_bytes-Runs input.extent 11 keylen room)
        λ der _. keyed (rsa_load_der_pubkey env.evp der)
    where
      keyed :
          (o : Option K)
          → Runs {A = Step K} (elim o [
            | none ↦ done (drop_peer (evbuffer_drain (int_as_size input.length) ∷ []))
            | some k ↦ send_challenge env peer k (evbuffer_drain (int_as_size input.length) ∷ [])
          ])
      keyed none = tt
      keyed (some k) = send_challenge-Runs peer k (evbuffer_drain (int_as_size input.length) ∷ []) h

  size_of_piece :
      (input : Input) → InOnePiece input → int_as_size input.length ≡ length input.extent
  size_of_piece input one = ground arith

  pub stage_pubkey_wait-Runs :
      (peer : Peer K) (input : Input)
      → length peer.authenticity ≡ 12
      → InOnePiece input
      → Runs (stage_pubkey_wait env peer input)
  unfolding stage_pubkey_wait
  stage_pubkey_wait-Runs peer input h one =
      let size = size_of_piece input one in
      if-Runs (leb (int_as_size input.length) handshake_size) _ _ (λ _. tt)
        λ long.
          >>=-Runs (load_keylen input.extent) _ (load_keylen-Runs input.extent (ground arith))
            λ keylen _.
              if-Runs (not (int_as_size input.length == handshake_size + keylen)) _ _ (λ _. tt)
                λ fits.
                  >>=-Runs (is_other input.extent type_hs_ack) _
                    (is_other-Runs input.extent type_hs_ack (ground arith))
                    λ other _.
                      if-Runs other _ _ (λ _. tt)
                        λ _. load_pubkey-Runs peer input keylen h (ground arith)

  -- What `memcmp` reads of an answer is there.
  abbrev pub LongAnswers : K → Type 0
  LongAnswers keypair =
      (payload answer : Bytes)
      → (rsa_decrypt env.evp env.malloc payload keypair).0 ≡ some answer
      → 12 ≤ length answer

  decrypt_answer-Runs :
      (keypair : K) (peer : Peer K) (input : Input) (len : ℕ)
      → length peer.authenticity ≡ 12
      → LongAnswers keypair
      → 35 + len ≤ length input.extent
      → Runs (decrypt_answer env keypair peer input len)
  unfolding decrypt_answer compare_answer
  decrypt_answer-Runs keypair peer input len h answers room =
      >>=-Runs (load_bytes input.extent data_size len) _ (load_bytes-Runs input.extent 35 len room)
        λ payload _. decrypted payload (rsa_decrypt env.evp env.malloc payload keypair).0 refl
    where
      decrypted :
          (payload : Bytes) (o : Option Bytes)
          → (rsa_decrypt env.evp env.malloc payload keypair).0 ≡ o
          → Runs {A = Step K} (elim o [
            | none ↦
                done (
                  drop_peer
                    (evbuffer_drain (int_as_size input.length) ∷ free_pkey peer.pubkey ∷ []))
            | some answer ↦
                compare_answer env peer answer (evbuffer_drain (int_as_size input.length) ∷ [])
          ])
      decrypted payload none e = tt
      decrypted payload (some answer) e =
          let (same, r) =
            memcmp_equal_in_bounds 12 peer.authenticity answer (omega arith)
              (answers payload answer e) in
          >>=-Runs (memcmp_equal 12 peer.authenticity answer) _ (Runs-eq_done _ r) λ _ _. tt

  pub stage_pubkey_check-Runs :
      (keypair : K) (peer : Peer K) (input : Input)
      → length peer.authenticity ≡ 12
      → LongAnswers keypair
      → InOnePiece input
      → Runs (stage_pubkey_check env keypair peer input)
  unfolding stage_pubkey_check
  stage_pubkey_check-Runs keypair peer input h answers one =
      let size = size_of_piece input one in
      if-Runs (leb (int_as_size input.length) data_size) _ _ (λ _. tt)
        λ long.
          >>=-Runs (load_len input.extent) _ (load_len-Runs input.extent (ground arith)) λ len _.
            if-Runs (not (int_as_size input.length == data_size + len)) _ _ (λ _. tt)
              λ fits.
                >>=-Runs (is_other input.extent type_data) _
                  (is_other-Runs input.extent type_data (ground arith))
                  λ other _.
                    if-Runs other _ _ (λ _. tt)
                      λ _. decrypt_answer-Runs keypair peer input len h answers (ground arith)
