-- ===== src/Listener/Stages/WaitCases.antt =====
-- All that `read_cb` can do while it waits for the peer's key, with what each result rests on.
use vcmp.Prelude.{
  ℕ, ◌+◌, ◌≡◌, refl, ap, ◌∙◌, Option, none, some, List, [], ◌∷◌, ◌++◌, false, not, Bytes, done,
  arith, inl, inr, Holds, >>=-Holds, if-Holds, Bool-cases, leb, ◌==◌, is_zero, u32, take, length,
  load_bytes, int_as_size,
}
use vcmp.Listener.State.{
  Peer, Env, Input, Step, pubkey_check, Call, evbuffer_drain, bufferevent_write, free_pkey,
  drop_peer,
}
use vcmp.Listener.Stages.{is_other, send_data, send_challenge, load_pubkey, stage_pubkey_wait}
use vcmp.Listener.Wire.{load_keylen}
use vcmp.Protocol.{handshake_size, data_size, type_hs_ack, vcmp_gen_data_header, data_bytes}
use vcmp.Rsa.{rsa_load_der_pubkey, rsa_encrypt}
use vcmp.Randdata.{rand_array}

-- The 8 bytes that go out.
abbrev pub sent_bytes : {K C : Type 0} → Env K C → Bytes → Bytes
sent_bytes env enc =
    take 8
      (data_bytes (vcmp_gen_data_header env.uuid0 env.uuid1 env.time (u32 (length enc))) ++ enc)

module _ {K C : Type 0} (env : Env K C) (peer : Peer K) (input : Input) where
  -- The packet holds a key of `keylen` bytes and nothing else, and its header is right.
  pub record AckPacket : Type 0 where
    pub keylen : ℕ
    pub keylen_read : load_keylen input.extent ≡ done keylen
    pub fits : int_as_size input.length ≡ handshake_size + keylen
    pub is_ack : is_other input.extent type_hs_ack ≡ done false

  abbrev drained : List (Call K)
  drained = evbuffer_drain (int_as_size input.length) ∷ []

  pub data WaitStep (s : Step K) : Type 0 where
    refused : s ≡ drop_peer [] → WaitStep s
    no_key : AckPacket → s ≡ drop_peer drained → WaitStep s
    unencrypted :
        AckPacket → (k : K) → s ≡ drop_peer (drained ++ (free_pkey (some k) ∷ [])) → WaitStep s
    unsent :
        AckPacket
        → (k : K) (b : Bytes)
        → s ≡ drop_peer (drained ++ (bufferevent_write b ∷ []) ++ (free_pkey (some k) ∷ []))
        → WaitStep s
    challenged :
        (p : AckPacket) (k : K) (der authenticity enc : Bytes)
        → load_bytes input.extent handshake_size p.keylen ≡ done der
        → rsa_load_der_pubkey env.evp der ≡ some k
        → rand_array env.rand peer.authenticity 12 ≡ done authenticity
        → (rsa_encrypt env.evp env.malloc authenticity k).0 ≡ some enc
        → s ≡ record {
          calls = drained ++ (bufferevent_write (sent_bytes env enc) ∷ []);
          peer =
              some (record { pubkey = some k; stage = pubkey_check; authenticity = authenticity });
        }
        → WaitStep s

  module _ (p : AckPacket) (k : K) (der : Bytes)
      (der_read : load_bytes input.extent handshake_size p.keylen ≡ done der)
      (loaded : rsa_load_der_pubkey env.evp der ≡ some k) where
    send_data-WaitStep :
        (authenticity enc : Bytes)
        → rand_array env.rand peer.authenticity 12 ≡ done authenticity
        → (rsa_encrypt env.evp env.malloc authenticity k).0 ≡ some enc
        → WaitStep (send_data env (record peer { authenticity = authenticity }) k enc drained)
    unfolding send_data
    send_data-WaitStep authenticity enc r c =
        elim (Bool-cases (env.malloc (data_size + length enc))) [
          | inr e ↦ rw e (unencrypted p k refl)
          | inl e ↦ elim (Bool-cases (is_zero (env.write (sent_bytes env enc)))) [
            | inl w ↦ rw (e, w) (challenged p k der authenticity enc der_read loaded r c refl)
            | inr w ↦ rw (e, w) (unsent p k (sent_bytes env enc) refl)
          ]
        ]

    send_challenge-WaitStep : Holds WaitStep (send_challenge env peer k drained)
    unfolding send_challenge
    send_challenge-WaitStep =
        >>=-Holds WaitStep (rand_array env.rand peer.authenticity 12) _
          λ a r. crypted a r (rsa_encrypt env.evp env.malloc a k).0 refl
      where
        crypted :
            (a : Bytes)
            → rand_array env.rand peer.authenticity 12 ≡ done a
            → (o : Option Bytes) → (rsa_encrypt env.evp env.malloc a k).0 ≡ o
            → Holds WaitStep (elim o [
              | none ↦ done (drop_peer (drained ++ (free_pkey (some k) ∷ [])))
              | some enc ↦ done (send_data env (record peer { authenticity = a }) k enc drained)
            ])
        crypted a r none e = unencrypted p k refl
        crypted a r (some enc) e = send_data-WaitStep a enc r e

  load_pubkey-WaitStep : (p : AckPacket) → Holds WaitStep (load_pubkey env peer input p.keylen)
  unfolding load_pubkey
  load_pubkey-WaitStep p =
      >>=-Holds WaitStep (load_bytes input.extent handshake_size p.keylen) _
        λ der e. keyed der e (rsa_load_der_pubkey env.evp der) refl
    where
      keyed :
          (der : Bytes)
          → load_bytes input.extent handshake_size p.keylen ≡ done der
          → (o : Option K) → rsa_load_der_pubkey env.evp der ≡ o
          → Holds WaitStep (elim o [
            | none ↦ done (drop_peer drained)
            | some k ↦ send_challenge env peer k drained
          ])
      keyed der r none e = no_key p refl
      keyed der r (some k) e = send_challenge-WaitStep p k der r e

  pub stage_pubkey_wait-WaitStep : Holds WaitStep (stage_pubkey_wait env peer input)
  unfolding stage_pubkey_wait
  stage_pubkey_wait-WaitStep =
      if-Holds WaitStep (leb (int_as_size input.length) handshake_size) _ _ (λ _. refused refl)
        λ _. >>=-Holds WaitStep (load_keylen input.extent) _ λ keylen kr.
          if-Holds WaitStep (not (int_as_size input.length == handshake_size + keylen)) _ _
            (λ _. refused refl)
            λ fits. >>=-Holds WaitStep (is_other input.extent type_hs_ack) _ λ other o.
              if-Holds WaitStep other _ _ (λ _. refused refl)
                λ f. load_pubkey-WaitStep (record {
                  keylen = keylen;
                  keylen_read = kr;
                  fits = ground arith;
                  is_ack = o ∙ ap done f;
                })
