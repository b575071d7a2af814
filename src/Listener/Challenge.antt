-- ===== src/Listener/Challenge.antt =====
-- What it takes to get ready, and what the listener sends on the way.
use vcmp.Prelude.{
  ◌%◌, ◌≡◌, ◌≢◌, refl, some, List, [], ◌∷◌, true, Bytes, done, load_bytes, memcmp_equal,
  int_as_size, arith, le_bytes,
}
use vcmp.Listener.State.{
  Peer, Env, Input, Step, pubkey_wait, pubkey_check, ready, Call, evbuffer_drain, bufferevent_write,
  drop_peer,
}
use vcmp.Listener.Stages.WaitCases.{WaitStep, sent_bytes}
use vcmp.Listener.Stages.NoneCases.{NoneStep}
use vcmp.Listener.Stages.CheckCases.{CheckStep, DataPacket}
use vcmp.Listener.Cases.{ReadStep, read_cb-ReadStep}
use vcmp.Listener.Accept.{accept_conn_cb}
use vcmp.Listener.Progress.{Reaches, accepted, kept}
use vcmp.Listener.{read_cb}
use vcmp.Protocol.{data_size, data_bytes, vcmp_gen_data_header}
use vcmp.Rsa.{rsa_decrypt}
use vcmp.Rsa.Decrypt.{EncryptNeedsInit, rsa_decrypt-none}

module _ {K C : Type 0} (env : Env K C) (keypair : K) (peer : Peer K) (input : Input) where
  -- The peer has answered with a data packet whose payload decrypts, by the listener's own key, to
  -- bytes that begin with the challenge.
  pub record Answered : Type 0 where
    pub was_asked : peer.stage ≡ pubkey_check
    pub packet : DataPacket env keypair peer input
    pub payload : Bytes
    pub answer : Bytes
    pub payload_read : load_bytes input.extent data_size packet.len ≡ done payload
    pub decrypts : (rsa_decrypt env.evp env.malloc payload keypair).0 ≡ some answer
    pub same : memcmp_equal 12 peer.authenticity answer ≡ done true

  no_peer : {s : Step K} {p : Peer K} (cs : List (Call K)) → s ≡ drop_peer cs → s.peer ≡ some p → ⊥
  unfolding drop_peer
  no_peer cs e h = cc

  CheckStep-Answered :
      {s : Step K} {p : Peer K}
      → peer.stage ≡ pubkey_check
      → CheckStep env keypair peer input s
      → s.peer ≡ some p
      → Answered
  CheckStep-Answered st (CheckStep.too_short l e) h = absurd (no_peer _ e h)
  CheckStep-Answered st (CheckStep.refused l e) h = absurd (no_peer _ e h)
  CheckStep-Answered st (CheckStep.failed l e) h = absurd (no_peer _ e h)
  CheckStep-Answered st (CheckStep.verified p b a r d m e) h = record {
    was_asked = st;
    packet = p;
    payload = b;
    answer = a;
    payload_read = r;
    decrypts = d;
    same = m;
  }

  NoneStep-not_ready :
      {s : Step K} {p : Peer K}
      → NoneStep env keypair peer input s
      → s.peer ≡ some p
      → p.stage ≡ ready
      → ⊥
  NoneStep-not_ready (NoneStep.refused e) h q = no_peer _ e h
  NoneStep-not_ready (NoneStep.failed e) h q = no_peer _ e h
  NoneStep-not_ready (NoneStep.unsent b e) h q = no_peer _ e h
  NoneStep-not_ready (NoneStep.sent b o e) h q = ground arith

  WaitStep-not_ready :
      {s : Step K} {p : Peer K} → WaitStep env peer input s → s.peer ≡ some p → p.stage ≡ ready → ⊥
  WaitStep-not_ready (WaitStep.refused e) h q = no_peer _ e h
  WaitStep-not_ready (WaitStep.no_key p e) h q = no_peer _ e h
  WaitStep-not_ready (WaitStep.unencrypted p k e) h q = no_peer _ e h
  WaitStep-not_ready (WaitStep.unsent p k b e) h q = no_peer _ e h
  WaitStep-not_ready (WaitStep.challenged p k der a enc r l ra c e) h q = ground arith

  ReadStep-Answered :
      {s : Step K} {p : Peer K}
      → ReadStep env keypair peer input s
      → peer.stage ≢ ready
      → s.peer ≡ some p
      → p.stage ≡ ready
      → Answered
  ReadStep-Answered (ReadStep.no_header l e) n h q = absurd (no_peer _ e h)
  ReadStep-Answered (ReadStep.at_none st c) n h q = absurd (NoneStep-not_ready c h q)
  ReadStep-Answered (ReadStep.at_wait st c) n h q = absurd (WaitStep-not_ready c h q)
  ReadStep-Answered (ReadStep.at_check st c) n h q = CheckStep-Answered st c h
  ReadStep-Answered (ReadStep.at_ready st e) n h q = absurd (n st)

  pub read_cb-Answered :
      {s : Step K} {p : Peer K}
      → read_cb env keypair peer input ≡ done s
      → peer.stage ≢ ready
      → s.peer ≡ some p
      → p.stage ≡ ready
      → Answered
  read_cb-Answered h = ReadStep-Answered (read_cb-ReadStep env keypair peer input h)

-- OpenSSL's `EVP_PKEY_encrypt` in what answers a callback.
abbrev pub OpensslLaw : {K C : Type 0} → Env K C → Type 0
OpensslLaw env = EncryptNeedsInit env.evp

accepted_not_ready :
    {K : Type 0} {p : Peer K} → (accept_conn_cb true true).peer ≡ some p → p.stage ≢ ready
unfolding accept_conn_cb
accepted_not_ready h = ground arith

-- If `EVP_PKEY_encrypt` refuses contexts prepared for decryption in every callback, no peer is ready
-- after any number of callbacks.
pub Reaches_not_ready :
    {K C : Type 0} {keypair : K} {p : Peer K}
    → Reaches {C = C} OpensslLaw keypair p
    → p.stage ≢ ready
Reaches_not_ready (accepted h) q = accepted_not_ready h q
Reaches_not_ready {keypair} (kept {p = p} env input r law h e) q =
    let a = read_cb-Answered env keypair p input h (Reaches_not_ready r) e q in
    cc (rsa_decrypt-none env.evp law env.malloc a.payload keypair, a.decrypts)

sent_bytes_lem :
    {K C : Type 0} (env : Env K C) (enc : Bytes)
    → sent_bytes env enc ≡ b'V' ∷ b'C' ∷ b'M' ∷ b'P' ∷ 0 ∷ 1 ∷ 4 ∷ env.uuid0 % 256 ∷ []
unfolding data_bytes vcmp_gen_data_header le_bytes
sent_bytes_lem env enc = refl

module _ {K C : Type 0} (env : Env K C) (keypair : K) (peer : Peer K) (input : Input) where
  WaitStep-calls :
      {s : Step K} {p : Peer K}
      → WaitStep env peer input s
      → s.peer ≡ some p
      → s.calls
        ≡ evbuffer_drain (int_as_size input.length)
          ∷ bufferevent_write (b'V' ∷ b'C' ∷ b'M' ∷ b'P' ∷ 0 ∷ 1 ∷ 4 ∷ env.uuid0 % 256 ∷ [])
          ∷ []
  WaitStep-calls (WaitStep.refused e) h = absurd (no_peer env keypair peer input _ e h)
  WaitStep-calls (WaitStep.no_key p e) h = absurd (no_peer env keypair peer input _ e h)
  WaitStep-calls (WaitStep.unencrypted p k e) h = absurd (no_peer env keypair peer input _ e h)
  WaitStep-calls (WaitStep.unsent p k b e) h = absurd (no_peer env keypair peer input _ e h)
  WaitStep-calls (WaitStep.challenged p k der a enc r l ra c e) h = rw (e, sent_bytes_lem env enc)

  ReadStep-calls :
      {s : Step K} {p : Peer K}
      → peer.stage ≡ pubkey_wait
      → ReadStep env keypair peer input s
      → s.peer ≡ some p
      → s.calls
        ≡ evbuffer_drain (int_as_size input.length)
          ∷ bufferevent_write (b'V' ∷ b'C' ∷ b'M' ∷ b'P' ∷ 0 ∷ 1 ∷ 4 ∷ env.uuid0 % 256 ∷ [])
          ∷ []
  ReadStep-calls st (ReadStep.no_header l e) h = absurd (no_peer env keypair peer input _ e h)
  ReadStep-calls st (ReadStep.at_none st' c) h = cc
  ReadStep-calls st (ReadStep.at_wait st' c) h = WaitStep-calls c h
  ReadStep-calls st (ReadStep.at_check st' c) h = cc
  ReadStep-calls st (ReadStep.at_ready st' e) h = cc

  -- A callback that keeps a peer whose key was waited for drains the buffer and writes 8 bytes, those of
  -- a data packet up to the first byte of its identifier: neither the length nor the encrypted challenge
  -- goes out.
  pub read_cb-challenge :
      {s : Step K} {p : Peer K}
      → peer.stage ≡ pubkey_wait
      → read_cb env keypair peer input ≡ done s
      → s.peer ≡ some p
      → s.calls
        ≡ evbuffer_drain (int_as_size input.length)
          ∷ bufferevent_write (b'V' ∷ b'C' ∷ b'M' ∷ b'P' ∷ 0 ∷ 1 ∷ 4 ∷ env.uuid0 % 256 ∷ [])
          ∷ []
  read_cb-challenge st h = ReadStep-calls st (read_cb-ReadStep env keypair peer input h)
