-- ===== src/Listener/Stages.antt =====
-- The three cases of the `switch` in `read_cb`.
pub mod NoneCases
pub mod WaitCases
pub mod CheckCases
pub mod Laws
pub mod Bounds
pub mod Success
use vcmp.Prelude.{
  ℕ, ◌+◌, ◌-◌, Option, none, some, List, [], ◌∷◌, ◌++◌, Bool, true, false, not, ◌||◌, Outcome, done,
  ◌>>=◌, Bytes, ltb, leb, ◌==◌, if◌then◌else◌, ℤ, pos, negsuc, is_zero, u32, take, length,
  load_bytes, memcmp_equal, int_as_size,
}
use vcmp.Listener.State.{
  Peer, Env, Input, Step, Stage, pubkey_wait, pubkey_check, ready, Call, evbuffer_drain,
  bufferevent_write, free_pkey, drop_peer,
}
use vcmp.Listener.Wire.{vcmp_validate, load_type, load_keylen, load_len}
use vcmp.Protocol.{
  header_size, handshake_size, data_size, type_verify, type_hs_init, type_hs_ack, type_data,
  VcmpHandshake, vcmp_gen_hs_header, vcmp_gen_data_header, handshake_bytes, data_bytes,
}
use vcmp.Rsa.{rsa_get_der_pubkey, rsa_load_der_pubkey, rsa_encrypt, rsa_decrypt}
use vcmp.Randdata.{rand_array}

-- An `int` length of a key as `const uint32_t keylen`.
abbrev pub int_as_u32 : ℤ → ℕ
int_as_u32 (pos n) = u32 n
int_as_u32 (negsuc n) = u32 (4294967295 - u32 n)

-- `vcmp_validate(h) != 0 || h->type != type`
unfoldable pub is_other : Bytes → ℕ → Outcome Bool
is_other buf type = do
  code ← vcmp_validate buf
  elim (code == 0) [ true ↦ (do t ← load_type buf; done (not (t == type))) | false ↦ done true ]

module _ {K C : Type 0} (env : Env K C) where
  -- Once the handshake is made: the write, and the next stage.
  unfoldable pub send_handshake : Peer K → VcmpHandshake → Step K
  send_handshake peer hs =
      let calls = evbuffer_drain header_size ∷ bufferevent_write (handshake_bytes hs) ∷ [] in
      if not (is_zero (env.write (handshake_bytes hs)))
      then drop_peer calls
      else record { calls = calls; peer = some (record peer { stage = pubkey_wait }) }

  -- From `evbuffer_drain` on: the public key goes out.
  unfoldable pub send_pubkey : K → Peer K → Outcome (Step K)
  send_pubkey keypair peer =
      let drained = evbuffer_drain header_size ∷ [] in
      elim (rsa_get_der_pubkey env.evp keypair) [
        | none ↦ done (drop_peer drained)
        | some (keylen, der_pubkey) ↦ do
          made ← vcmp_gen_hs_header env.malloc type_hs_init (int_as_u32 keylen) der_pubkey
          elim made [ none ↦ done (drop_peer drained) | some hs ↦ done (send_handshake peer hs) ]
      ]

  unfoldable pub stage_none : K → Peer K → Input → Outcome (Step K)
  stage_none keypair peer input = do
    other ← is_other input.extent type_verify
    if other then done (drop_peer []) else send_pubkey keypair peer

  -- `bufferevent_write(bev, buf, sizeof(buf))`, where `buf` is a pointer of 8 bytes.
  unfoldable pub send_data : Peer K → K → Bytes → List (Call K) → Step K
  send_data peer pubkey enc drained =
      let d = vcmp_gen_data_header env.uuid0 env.uuid1 env.time (u32 (length enc)) in
      let sent = take 8 (data_bytes d ++ enc) in
      let calls = drained ++ (bufferevent_write sent ∷ []) in
      if not (env.malloc (data_size + length enc))
      then drop_peer (drained ++ (free_pkey (some pubkey) ∷ []))
      else if not (is_zero (env.write sent))
      then drop_peer (calls ++ (free_pkey (some pubkey) ∷ []))
      else record {
        calls = calls;
        peer = some (record peer { pubkey = some pubkey; stage = pubkey_check });
      }

  -- With the peer's key loaded: random bytes go out encrypted.
  unfoldable pub send_challenge : Peer K → K → List (Call K) → Outcome (Step K)
  send_challenge peer pubkey drained = do
    authenticity ← rand_array env.rand peer.authenticity 12
    let peer' = record peer { authenticity = authenticity }
    elim (rsa_encrypt env.evp env.malloc authenticity pubkey).0 [
      | none ↦ done (drop_peer (drained ++ (free_pkey (some pubkey) ∷ [])))
      | some enc ↦ done (send_data peer' pubkey enc drained)
    ]

  -- With the packet checked: the key is loaded and the buffer drained.
  unfoldable pub load_pubkey : Peer K → Input → ℕ → Outcome (Step K)
  load_pubkey peer input keylen = do
    der ← load_bytes input.extent handshake_size keylen
    let drained = evbuffer_drain (int_as_size input.length) ∷ []
    elim (rsa_load_der_pubkey env.evp der) [
      | none ↦ done (drop_peer drained)
      | some pubkey ↦ send_challenge peer pubkey drained
    ]

  unfoldable pub stage_pubkey_wait : Peer K → Input → Outcome (Step K)
  stage_pubkey_wait peer input =
      let len = int_as_size input.length in
      if leb len handshake_size then done (drop_peer []) else (do
        keylen ← load_keylen input.extent
        if not (len == handshake_size + keylen) then done (drop_peer []) else (do
          other ← is_other input.extent type_hs_ack
          if other then done (drop_peer []) else load_pubkey peer input keylen))

  -- With the answer decrypted: it has to be what was sent.
  unfoldable pub compare_answer : Peer K → Bytes → List (Call K) → Outcome (Step K)
  compare_answer peer dec drained = do
    same ← memcmp_equal 12 peer.authenticity dec
    done (
        if not same
        then drop_peer (drained ++ (free_pkey peer.pubkey ∷ []))
        else record { calls = drained; peer = some (record peer { stage = ready }) })

  unfoldable pub decrypt_answer : K → Peer K → Input → ℕ → Outcome (Step K)
  decrypt_answer keypair peer input len = do
    payload ← load_bytes input.extent data_size len
    let drained = evbuffer_drain (int_as_size input.length) ∷ []
    elim (rsa_decrypt env.evp env.malloc payload keypair).0 [
      | none ↦ done (drop_peer (drained ++ (free_pkey peer.pubkey ∷ [])))
      | some dec ↦ compare_answer peer dec drained
    ]

  -- The first return does not free the peer's key.
  unfoldable pub stage_pubkey_check : K → Peer K → Input → Outcome (Step K)
  stage_pubkey_check keypair peer input =
      let size = int_as_size input.length in
      let refused = drop_peer (free_pkey peer.pubkey ∷ []) in
      if leb size data_size then done (drop_peer []) else (do
        len ← load_len input.extent
        if not (size == data_size + len) then done refused else (do
          other ← is_other input.extent type_data
          if other then done refused else decrypt_answer keypair peer input len))
