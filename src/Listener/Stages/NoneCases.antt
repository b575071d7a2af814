-- ===== src/Listener/Stages/NoneCases.antt =====
-- All that `read_cb` can do in the first stage, with what each result rests on.
use vcmp.Prelude.{
  ◌≡◌, refl, ap, ◌∙◌, Option, none, some, [], ◌∷◌, false, Bytes, done, inl, inr, Holds, >>=-Holds,
  if-Holds, Option-cases, Bool-cases, is_zero,
}
use vcmp.Listener.State.{
  Peer, Env, Input, Step, pubkey_wait, evbuffer_drain, bufferevent_write, drop_peer,
}
use vcmp.Listener.Stages.{int_as_u32, is_other, send_handshake, send_pubkey, stage_none}
use vcmp.Protocol.{
  header_size, type_verify, type_hs_init, VcmpHandshake, vcmp_gen_hs_header, handshake_bytes,
}
use vcmp.Rsa.{rsa_get_der_pubkey}

module _ {K C : Type 0} (env : Env K C) (keypair : K) (peer : Peer K) (input : Input) where
  pub data NoneStep (s : Step K) : Type 0 where
    refused : s ≡ drop_peer [] → NoneStep s
    failed : s ≡ drop_peer (evbuffer_drain header_size ∷ []) → NoneStep s
    unsent :
        (b : Bytes)
        → s ≡ drop_peer (evbuffer_drain header_size ∷ bufferevent_write b ∷ [])
        → NoneStep s
    sent :
        (b : Bytes)
        → is_other input.extent type_verify ≡ done false
        → s ≡ record {
          calls = evbuffer_drain header_size ∷ bufferevent_write b ∷ [];
          peer = some (record peer { stage = pubkey_wait });
        }
        → NoneStep s

  send_handshake-NoneStep :
      (hs : VcmpHandshake)
      → is_other input.extent type_verify ≡ done false
      → NoneStep (send_handshake env peer hs)
  unfolding send_handshake
  send_handshake-NoneStep hs checked =
      elim (Bool-cases (is_zero (env.write (handshake_bytes hs)))) [
        | inl e ↦ rw e (sent (handshake_bytes hs) checked refl)
        | inr e ↦ rw e (unsent (handshake_bytes hs) refl)
      ]

  send_pubkey-NoneStep :
      is_other input.extent type_verify ≡ done false → Holds NoneStep (send_pubkey env keypair peer)
  unfolding send_pubkey
  send_pubkey-NoneStep checked = elim (Option-cases (rsa_get_der_pubkey env.evp keypair)) [
    | inl e ↦ rw (e, send_pubkey) (failed refl)
    | inr ((keylen, der), e) ↦
        rw (e, send_pubkey)
          (>>=-Holds NoneStep (vcmp_gen_hs_header env.malloc type_hs_init (int_as_u32 keylen) der) _
            λ made _. made_case made)
  ]
    where
      made_case :
          (made : Option VcmpHandshake)
          → Holds NoneStep (elim made [
            | none ↦ done (drop_peer (evbuffer_drain header_size ∷ []))
            | some hs ↦ done (send_handshake env peer hs)
          ])
      made_case none = failed refl
      made_case (some hs) = send_handshake-NoneStep hs checked

  pub stage_none-NoneStep : Holds NoneStep (stage_none env keypair peer input)
  unfolding stage_none
  stage_none-NoneStep = >>=-Holds NoneStep (is_other input.extent type_verify) _ λ other e.
      if-Holds NoneStep other (done (drop_peer [])) (send_pubkey env keypair peer)
        (λ _. refused refl) (λ f. send_pubkey-NoneStep (e ∙ ap done f))
