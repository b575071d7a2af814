-- ===== src/Listener/Stages/Success.antt =====
-- The stages of `read_cb` on the packets that the protocol asks for, where the libraries do their part.
use vcmp.Prelude.{
  ℕ, ◌+◌, ◌^◌, ◌<◌, ◌≡◌, refl, ap, ◌∙◌, Option, none, some, List, [], ◌∷◌, ◌++◌, append-nil, true,
  false, Bytes, pos, is_zero, Outcome, done, length, load_bytes, load_bytes-append, load_front,
  load_front-append, le_bytes, length-le_bytes, le_word-le_bytes, leb-false, ==_refl, int_as_size,
  arith, u32, sym,
}
use vcmp.Listener.State.{
  Peer, Env, Input, Step, pubkey_wait, pubkey_check, Call, free_pkey, evbuffer_drain,
  bufferevent_write, drop_peer,
}
use vcmp.Listener.Wire.{vcmp_validate, load_keylen}
use vcmp.Listener.Stages.{
  is_other, stage_none, send_pubkey, send_handshake, stage_pubkey_wait, load_pubkey, send_challenge,
  send_data,
}
use vcmp.Listener.Stages.WaitCases.{sent_bytes}
use vcmp.Protocol.{vcmp_gen_hs_header, handshake_bytes, type_verify, type_hs_ack}
use vcmp.Rsa.{rsa_get_der_pubkey, rsa_load_der_pubkey, rsa_encrypt}
use vcmp.Randdata.{rand_array}

-- The header of a packet, with what follows it.
abbrev pub with_header : ℕ → Bytes → Bytes
with_header type rest = b'V' ∷ b'C' ∷ b'M' ∷ b'P' ∷ 0 ∷ 1 ∷ type ∷ rest

is_other-with_header :
    (type : ℕ) (rest : Bytes) → is_other (with_header type rest) type ≡ done false
unfolding is_other vcmp_validate
is_other-with_header type rest = ground arith

module _ {K C : Type 0} (env : Env K C) (peer : Peer K) where
  send_data_lem :
      (k : K) (enc : Bytes) (n : ℕ)
      → env.malloc (35 + length enc) ≡ true
      → is_zero (env.write (sent_bytes env enc)) ≡ true
      → send_data env peer k enc (evbuffer_drain n ∷ []) ≡ record {
        calls = evbuffer_drain n ∷ bufferevent_write (sent_bytes env enc) ∷ [];
        peer = some (record peer { pubkey = some k; stage = pubkey_check });
      }
  unfolding send_data
  send_data_lem k enc n given sent = rw (given, sent)

module _ {K C : Type 0} (env : Env K C) (peer : Peer K) where
  send_pubkey_lem :
      (keypair : K) (der : Bytes)
      → env.evp.i2d_pubkey keypair ≡ (pos (length der), der)
      → 0 < length der
      → length der < 2 ^ 32
      → env.malloc (11 + length der) ≡ true
      → is_zero (env.write (with_header 2 (le_bytes 4 (length der) ++ der))) ≡ true
      → send_pubkey env keypair peer
        ≡ done (record {
          calls =
              evbuffer_drain 7
              ∷ bufferevent_write (with_header 2 (le_bytes 4 (length der) ++ der))
              ∷ [];
          peer = some (record peer { stage = pubkey_wait });
        })
  unfolding send_pubkey send_handshake rsa_get_der_pubkey vcmp_gen_hs_header handshake_bytes
  send_pubkey_lem keypair der exported some_key short given sent =
      rw (got, send_pubkey) (rw (word, given, whole) (rw sent))
    where
      got : rsa_get_der_pubkey env.evp keypair ≡ some (pos (length der), der)
      got = ground arith

      word : u32 (length der) ≡ length der
      word = omega arith

      whole : load_front (length der) der ≡ done der
      whole = rw append-nil at (load_front-append der [])

  pub stage_none_lem :
      (keypair : K) (input : Input) (rest der : Bytes)
      → input.extent ≡ with_header type_verify rest
      → env.evp.i2d_pubkey keypair ≡ (pos (length der), der)
      → 0 < length der
      → length der < 2 ^ 32
      → env.malloc (11 + length der) ≡ true
      → is_zero (env.write (with_header 2 (le_bytes 4 (length der) ++ der))) ≡ true
      → stage_none env keypair peer input
        ≡ done (record {
          calls =
              evbuffer_drain 7
              ∷ bufferevent_write (with_header 2 (le_bytes 4 (length der) ++ der))
              ∷ [];
          peer = some (record peer { stage = pubkey_wait });
        })
  unfolding stage_none
  stage_none_lem keypair input rest der packet exported some_key short given sent =
      rw (packet, is_other-with_header type_verify rest)
        (send_pubkey_lem keypair der exported some_key short given sent)

  send_challenge_lem :
      (k : K) (authenticity enc : Bytes) (n : ℕ)
      → rand_array env.rand peer.authenticity 12 ≡ done authenticity
      → (rsa_encrypt env.evp env.malloc authenticity k).0 ≡ some enc
      → send_challenge env peer k (evbuffer_drain n ∷ [])
        ≡ done (
            send_data env
              (record peer { authenticity = authenticity })
              k
              enc
              (evbuffer_drain n ∷ []))
  unfolding send_challenge
  send_challenge_lem k authenticity enc n filled encrypted =
      let drained : List (Call K) = evbuffer_drain n ∷ [] in
      let crypted : Option Bytes → Outcome (Step K) = λ o. elim o [
        | none ↦ done (drop_peer (drained ++ (free_pkey (some k) ∷ [])))
        | some e ↦ done (send_data env (record peer { authenticity = authenticity }) k e drained)
      ] in
      rw filled (ap crypted encrypted)

  load_pubkey_lem :
      (input : Input) (keylen : ℕ) (der : Bytes) (k : K)
      → load_bytes input.extent 11 keylen ≡ done der
      → env.evp.d2i_pubkey der ≡ some k
      → load_pubkey env peer input keylen
        ≡ send_challenge env peer k (evbuffer_drain (int_as_size input.length) ∷ [])
  unfolding load_pubkey rsa_load_der_pubkey
  load_pubkey_lem input keylen der k key loaded =
      let drained : List (Call K) = evbuffer_drain (int_as_size input.length) ∷ [] in
      let keyed : Option K → Outcome (Step K) = λ o. elim o [
        | none ↦ done (drop_peer drained)
        | some pubkey ↦ send_challenge env peer pubkey drained
      ] in
      rw key (ap keyed loaded)

  -- A packet is read as a key packet if it is one from end to end.
  stage_pubkey_wait-load_pubkey :
      (input : Input) (der : Bytes)
      → input.extent ≡ with_header type_hs_ack (le_bytes 4 (length der) ++ der)
      → int_as_size input.length ≡ 11 + length der
      → 0 < length der
      → length der < 2 ^ 32
      → stage_pubkey_wait env peer input ≡ load_pubkey env peer input (length der)
  unfolding stage_pubkey_wait load_keylen
  stage_pubkey_wait-load_pubkey input der packet size some_key fits =
      rw (size, leb-false (11 + length der) 11 (omega arith), packet, key_len)
        (rw (
          le_word-le_bytes 4 (length der) fits,
          ==_refl (11 + length der),
          is_other-with_header type_hs_ack (le_bytes 4 (length der) ++ der),
        ))
    where
      key_len :
          load_bytes (with_header type_hs_ack (le_bytes 4 (length der) ++ der)) 7 4
          ≡ done (le_bytes 4 (length der))
      key_len =
          load_bytes-append (with_header type_hs_ack []) (le_bytes 4 (length der)) der 7 4 refl
            (sym (length-le_bytes 4 (length der)))

  pub stage_pubkey_wait_lem :
      (input : Input) (der authenticity enc : Bytes) (k : K)
      → input.extent ≡ with_header type_hs_ack (le_bytes 4 (length der) ++ der)
      → input.length ≡ 11 + length der
      → input.length < 2 ^ 31
      → 0 < length der
      → env.evp.d2i_pubkey der ≡ some k
      → rand_array env.rand peer.authenticity 12 ≡ done authenticity
      → (rsa_encrypt env.evp env.malloc authenticity k).0 ≡ some enc
      → env.malloc (35 + length enc) ≡ true
      → is_zero (env.write (sent_bytes env enc)) ≡ true
      → stage_pubkey_wait env peer input
        ≡ done (record {
          calls = evbuffer_drain (11 + length der) ∷ bufferevent_write (sent_bytes env enc) ∷ [];
          peer =
              some (record { pubkey = some k; stage = pubkey_check; authenticity = authenticity });
        })
  stage_pubkey_wait_lem input der authenticity enc k packet len fits some_key loaded filled
        encrypted given sent =
      stage_pubkey_wait-load_pubkey input der packet size some_key (omega arith)
      ∙ load_pubkey_lem input (length der) der k (rw packet key) loaded
      ∙ rw size (
          send_challenge_lem k authenticity enc (11 + length der) filled encrypted
          ∙ ap done (
              send_data_lem env (record peer { authenticity = authenticity }) k enc
                (11 + length der) given sent))
    where
      size : int_as_size input.length ≡ 11 + length der
      size = ground arith

      key :
          load_bytes (with_header type_hs_ack (le_bytes 4 (length der) ++ der)) 11 (length der)
          ≡ done der
      key = rw (append-nil der) at (
          load_bytes-append (with_header type_hs_ack (le_bytes 4 (length der))) der [] 11
            (length der) (omega (arith, length-le_bytes 4 (length der))) refl)
