-- ===== src/Listener/Success.antt =====
-- A peer that keeps to the protocol gets through, where the libraries do their part.
use vcmp.Prelude.{
  ◌+◌, ◌^◌, ◌≤◌, ◌<◌, ◌≡◌, refl, ap, ◌∙◌, some, [], ◌∷◌, ◌++◌, true, Bytes, pos, is_zero, done,
  length, le_bytes, ltb-false, arith,
}
use vcmp.Listener.State.{
  Peer, Env, Input, no_stage, pubkey_wait, pubkey_check, evbuffer_drain, bufferevent_write,
}
use vcmp.Listener.Stages.Success.{with_header, stage_none_lem, stage_pubkey_wait_lem}
use vcmp.Listener.Stages.{stage_none, stage_pubkey_wait}
use vcmp.Listener.Stages.WaitCases.{sent_bytes}
use vcmp.Listener.{dispatch, read_cb}
use vcmp.Protocol.{type_verify, type_hs_ack}
use vcmp.Rsa.{rsa_encrypt}
use vcmp.Randdata.{rand_array}

module _ {K C : Type 0} (env : Env K C) (keypair : K) (peer : Peer K) where
  at_no_stage :
      (input : Input) → dispatch env keypair no_stage peer input ≡ stage_none env keypair peer input
  unfolding dispatch
  at_no_stage input = refl

  at_pubkey_wait :
      (input : Input)
      → dispatch env keypair pubkey_wait peer input ≡ stage_pubkey_wait env peer input
  unfolding dispatch
  at_pubkey_wait input = refl

  -- If a new peer's input begins with the header of a verification packet, and the listener's key can be
  -- exported, the packet allocated and the write made, then the peer is sent the exported key, in a packet
  -- of type 2 with the length of the key before it, and its key is waited for.
  pub read_cb_verified :
      (input : Input) (rest der : Bytes)
      → peer.stage ≡ no_stage
      → input.extent ≡ with_header type_verify rest
      → 7 ≤ input.length
      → env.evp.i2d_pubkey keypair ≡ (pos (length der), der)
      → 0 < length der
      → length der < 2 ^ 32
      → env.malloc (11 + length der) ≡ true
      → is_zero (env.write (with_header 2 (le_bytes 4 (length der) ++ der))) ≡ true
      → read_cb env keypair peer input
        ≡ done (record {
          calls =
              evbuffer_drain 7
              ∷ bufferevent_write (with_header 2 (le_bytes 4 (length der) ++ der))
              ∷ [];
          peer = some (record peer { stage = pubkey_wait });
        })
  unfolding read_cb
  read_cb_verified input rest der st packet long exported some_key short given sent =
      rw (ltb-false input.length 7 long) (
        ap (λ s. dispatch env keypair s peer input) st
        ∙ at_no_stage input
        ∙ stage_none_lem env peer keypair input rest der packet exported some_key short given sent)

  -- If a peer whose key is waited for sends it in a packet of type 3 that takes up the whole input, of less
  -- than 2 ^ 31 bytes and in one piece, and the key can be loaded, the challenge encrypted, the packet
  -- allocated and the write made, then the buffer is drained, and the peer keeps its key and the
  -- challenge that was drawn for it, and its answer is waited for.
  pub read_cb_keyed :
      (input : Input) (der authenticity enc : Bytes) (k : K)
      → peer.stage ≡ pubkey_wait
      → input.extent ≡ with_header type_hs_ack (le_bytes 4 (length der) ++ der)
      → input.length ≡ 11 + length der
      → input.length < 2 ^ 31
      → 0 < length der
      → env.evp.d2i_pubkey der ≡ some k
      → rand_array env.rand peer.authenticity 12 ≡ done authenticity
      → (rsa_encrypt env.evp env.malloc authenticity k).0 ≡ some enc
      → env.malloc (35 + length enc) ≡ true
      → is_zero (env.write (sent_bytes env enc)) ≡ true
      → read_cb env keypair peer input
        ≡ done (record {
          calls = evbuffer_drain (11 + length der) ∷ bufferevent_write (sent_bytes env enc) ∷ [];
          peer =
              some (record { pubkey = some k; stage = pubkey_check; authenticity = authenticity });
        })
  unfolding read_cb
  read_cb_keyed input der authenticity enc k st packet len fits some_key loaded filled encrypted
        given sent =
      rw (ltb-false input.length 7 (omega arith)) (
        ap (λ s. dispatch env keypair s peer input) st
        ∙ at_pubkey_wait input
        ∙ stage_pubkey_wait_lem env peer input der authenticity enc k packet len fits some_key
            loaded filled encrypted given sent)
