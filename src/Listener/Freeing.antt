-- ===== src/Listener/Freeing.antt =====
-- A callback frees its peer and its bufferevent together, once, and at its end.
use vcmp.Prelude.{
  ℕ, suc, if◌then◌else◌, ◌≡◌, refl, Option, none, some, List, [], ◌∷◌, ◌++◌, Bool, true, false,
  done, leb, int_as_size, arith,
}
use vcmp.Listener.State.{
  Peer, Env, Input, Step, pubkey_check, Call, evbuffer_drain, bufferevent_write, free_pkey,
  free_peer, bufferevent_free, drop_peer,
}
use vcmp.Listener.Stages.NoneCases.{NoneStep}
use vcmp.Listener.Stages.WaitCases.{WaitStep}
use vcmp.Listener.Stages.CheckCases.{CheckStep}
use vcmp.Listener.Cases.{ReadStep, read_cb-ReadStep}
use vcmp.Listener.{read_cb}
use vcmp.Protocol.{data_size}

-- No call in the list frees the peer or the bufferevent.
abbrev pub frees_nothing : {K : Type 0} → List (Call K) → Bool
frees_nothing [] = true
frees_nothing (free_peer ∷ cs) = false
frees_nothing (bufferevent_free ∷ cs) = false
frees_nothing (evbuffer_drain n ∷ cs) = frees_nothing cs
frees_nothing (bufferevent_write b ∷ cs) = frees_nothing cs
frees_nothing (free_pkey k ∷ cs) = frees_nothing cs

-- A peer that is kept is not freed; a peer that is dropped is freed, and its bufferevent after it,
-- by the last two calls and by no other.
abbrev pub EndsRight : {K : Type 0} → Option (Peer K) → List (Call K) → Type 0
EndsRight {K} none cs =
    (front : List (Call K)) × (cs ≡ front ++ (free_peer ∷ bufferevent_free ∷ []))
    × (frees_nothing front ≡ true)
EndsRight {K} (some p) cs = frees_nothing cs ≡ true

abbrev pub StepEndsRight : {K : Type 0} → Step K → Type 0
StepEndsRight s = EndsRight s.peer s.calls

drop_peer-EndsRight :
    {K : Type 0} (cs : List (Call K)) {s : Step K}
    → frees_nothing cs ≡ true
    → s ≡ drop_peer cs
    → StepEndsRight s
unfolding drop_peer
drop_peer-EndsRight cs h e = rw e (cs, refl, h)

module _ {K C : Type 0} (env : Env K C) (keypair : K) (peer : Peer K) (input : Input) where
  NoneStep-EndsRight : {s : Step K} → NoneStep env keypair peer input s → StepEndsRight s
  NoneStep-EndsRight (NoneStep.refused e) = drop_peer-EndsRight _ refl e
  NoneStep-EndsRight (NoneStep.failed e) = drop_peer-EndsRight _ refl e
  NoneStep-EndsRight (NoneStep.unsent b e) = drop_peer-EndsRight _ refl e
  NoneStep-EndsRight (NoneStep.sent b o e) = rw e refl

  WaitStep-EndsRight : {s : Step K} → WaitStep env peer input s → StepEndsRight s
  WaitStep-EndsRight (WaitStep.refused e) = drop_peer-EndsRight _ refl e
  WaitStep-EndsRight (WaitStep.no_key p e) = drop_peer-EndsRight _ refl e
  WaitStep-EndsRight (WaitStep.unencrypted p k e) = drop_peer-EndsRight _ refl e
  WaitStep-EndsRight (WaitStep.unsent p k b e) = drop_peer-EndsRight _ refl e
  WaitStep-EndsRight (WaitStep.challenged p k der a enc r l ra c e) = rw e refl

  CheckStep-EndsRight : {s : Step K} → CheckStep env keypair peer input s → StepEndsRight s
  CheckStep-EndsRight (CheckStep.too_short l e) = drop_peer-EndsRight _ refl e
  CheckStep-EndsRight (CheckStep.refused l e) = drop_peer-EndsRight _ refl e
  CheckStep-EndsRight (CheckStep.failed l e) = drop_peer-EndsRight _ refl e
  CheckStep-EndsRight (CheckStep.verified p b a r d m e) = rw e refl

  ReadStep-EndsRight : {s : Step K} → ReadStep env keypair peer input s → StepEndsRight s
  ReadStep-EndsRight (ReadStep.no_header l e) = drop_peer-EndsRight _ refl e
  ReadStep-EndsRight (ReadStep.at_none st h) = NoneStep-EndsRight h
  ReadStep-EndsRight (ReadStep.at_wait st h) = WaitStep-EndsRight h
  ReadStep-EndsRight (ReadStep.at_check st h) = CheckStep-EndsRight h
  ReadStep-EndsRight (ReadStep.at_ready st e) = rw e refl

  -- Whatever a callback reads and whatever the libraries answer: a peer that it keeps is not freed,
  -- and one that it drops is freed by the last calls but one, its bufferevent by the last, and
  -- neither by any other call.
  pub read_cb-EndsRight :
      {s : Step K} → read_cb env keypair peer input ≡ done s → EndsRight s.peer s.calls
  read_cb-EndsRight h = ReadStep-EndsRight (read_cb-ReadStep env keypair peer input h)

-- How many keys are freed.
abbrev pub keys_freed : {K : Type 0} → List (Call K) → ℕ
keys_freed [] = 0
keys_freed (free_pkey (some k) ∷ cs) = suc (keys_freed cs)
keys_freed (free_pkey none ∷ cs) = keys_freed cs
keys_freed (free_peer ∷ cs) = keys_freed cs
keys_freed (bufferevent_free ∷ cs) = keys_freed cs
keys_freed (evbuffer_drain n ∷ cs) = keys_freed cs
keys_freed (bufferevent_write b ∷ cs) = keys_freed cs

module _ {K C : Type 0} (env : Env K C) (keypair k : K) (peer : Peer K) (input : Input)
    (holds : peer.pubkey ≡ some k) where
  CheckStep-keys_freed :
      {s : Step K}
      → CheckStep env keypair peer input s
      → s.peer ≡ none
      → keys_freed s.calls ≡ (if leb (int_as_size input.length) data_size then 0 else 1)
  unfolding drop_peer
  CheckStep-keys_freed (CheckStep.too_short l e) d = rw (e, l)
  CheckStep-keys_freed (CheckStep.refused l e) d = rw (e, l, holds)
  CheckStep-keys_freed (CheckStep.failed l e) d = rw (e, l, holds)
  CheckStep-keys_freed (CheckStep.verified p b a r f m e) d = ground arith

  ReadStep-keys_freed :
      {s : Step K}
      → peer.stage ≡ pubkey_check
      → ReadStep env keypair peer input s
      → s.peer ≡ none
      → keys_freed s.calls ≡ (if leb (int_as_size input.length) data_size then 0 else 1)
  unfolding drop_peer
  ReadStep-keys_freed st (ReadStep.no_header l e) d = rw e (ground arith)
  ReadStep-keys_freed st (ReadStep.at_none st' h) d = cc
  ReadStep-keys_freed st (ReadStep.at_wait st' h) d = cc
  ReadStep-keys_freed st (ReadStep.at_check st' h) d = CheckStep-keys_freed h d
  ReadStep-keys_freed st (ReadStep.at_ready st' e) d = cc

  -- When a peer in the check stage, that has a key, is dropped, one key is freed if the length of the
  -- input, as an `int`, is more than that of the header of a data packet, and none if it is not.
  pub read_cb-keys_freed :
      {s : Step K}
      → peer.stage ≡ pubkey_check
      → read_cb env keypair peer input ≡ done s
      → s.peer ≡ none
      → keys_freed s.calls ≡ (if leb (int_as_size input.length) data_size then 0 else 1)
  read_cb-keys_freed st h d = ReadStep-keys_freed st (read_cb-ReadStep env keypair peer input h) d
