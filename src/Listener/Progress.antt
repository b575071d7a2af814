-- ===== src/Listener/Progress.antt =====
-- The life of a peer over any number of callbacks.
use vcmp.Prelude.{ℕ, ◌≡◌, ◌≢◌, Option, none, some, List, true, Bytes, done, length, arith}
use vcmp.Listener.State.{
  Peer, Env, Input, Step, Stage, no_stage, pubkey_wait, pubkey_check, ready, Call, drop_peer,
}
use vcmp.Listener.Stages.NoneCases.{NoneStep}
use vcmp.Listener.Stages.WaitCases.{WaitStep}
use vcmp.Listener.Stages.CheckCases.{CheckStep}
use vcmp.Listener.Cases.{ReadStep, read_cb-ReadStep}
use vcmp.Listener.Accept.{accept_conn_cb}
use vcmp.Listener.{read_cb}
use vcmp.Randdata.{rand_array, rand_array_fills}

-- A peer has a key from the check stage on and not before, and its challenge has 12 bytes.
abbrev pub KeyFits : {K : Type 0} → Stage → Option K → Type 0
KeyFits no_stage k = k ≡ none
KeyFits pubkey_wait k = k ≡ none
KeyFits pubkey_check k = k ≢ none
KeyFits ready k = k ≢ none

pub record IsValid {K : Type 0} (p : Peer K) : Type 0 where
  pub key_fits : KeyFits p.stage p.pubkey
  pub challenge_fits : length p.authenticity ≡ 12

-- The stage that may come after a stage.
pub data Follows : Stage → Stage → Type 0 where
  validated : Follows no_stage pubkey_wait
  keyed : Follows pubkey_wait pubkey_check
  verified : Follows pubkey_check ready
  stays : Follows ready ready

abbrev Keeps : {K : Type 0} → Peer K → Option (Peer K) → Type 0
Keeps p none = Unit
Keeps p (some p') = Follows p.stage p'.stage × IsValid p'

module _ {K : Type 0} where
  drop_peer-Keeps :
      (p : Peer K) (cs : List (Call K)) {s : Step K} → s ≡ drop_peer cs → Keeps p s.peer
  unfolding drop_peer
  drop_peer-Keeps p cs e = rw e tt

challenge_length :
    (rand : ℕ → ℕ) (arr a : Bytes)
    → length arr ≡ 12
    → rand_array rand arr 12 ≡ done a
    → length a ≡ 12
challenge_length rand arr a e r = let (new, runs, long, good) = rand_array_fills rand arr 12 e in cc

module _ {K C : Type 0} (env : Env K C) (keypair : K) (peer : Peer K) (input : Input)
    (v : IsValid peer) where
  NoneStep-Keeps :
      {s : Step K} → peer.stage ≡ no_stage → NoneStep env keypair peer input s → Keeps peer s.peer
  NoneStep-Keeps st (NoneStep.refused e) = drop_peer-Keeps peer _ e
  NoneStep-Keeps st (NoneStep.failed e) = drop_peer-Keeps peer _ e
  NoneStep-Keeps st (NoneStep.unsent b e) = drop_peer-Keeps peer _ e
  NoneStep-Keeps st (NoneStep.sent b o e) =
      rw (e, st)
        (validated, record { key_fits = rw st at v.key_fits; challenge_fits = v.challenge_fits })

  WaitStep-Keeps :
      {s : Step K} → peer.stage ≡ pubkey_wait → WaitStep env peer input s → Keeps peer s.peer
  WaitStep-Keeps st (WaitStep.refused e) = drop_peer-Keeps peer _ e
  WaitStep-Keeps st (WaitStep.no_key p e) = drop_peer-Keeps peer _ e
  WaitStep-Keeps st (WaitStep.unencrypted p k e) = drop_peer-Keeps peer _ e
  WaitStep-Keeps st (WaitStep.unsent p k b e) = drop_peer-Keeps peer _ e
  WaitStep-Keeps st (WaitStep.challenged p k der a enc r l ra c e) =
      rw (e, st)
        (
          keyed,
          record {
            key_fits = λ q. cc;
            challenge_fits = challenge_length env.rand peer.authenticity a v.challenge_fits ra;
          },
        )

  CheckStep-Keeps :
      {s : Step K}
      → peer.stage ≡ pubkey_check
      → CheckStep env keypair peer input s
      → Keeps peer s.peer
  CheckStep-Keeps st (CheckStep.too_short l e) = drop_peer-Keeps peer _ e
  CheckStep-Keeps st (CheckStep.refused l e) = drop_peer-Keeps peer _ e
  CheckStep-Keeps st (CheckStep.failed l e) = drop_peer-Keeps peer _ e
  CheckStep-Keeps st (CheckStep.verified p b a r d m e) =
      rw (e, st)
        (verified, record { key_fits = rw st at v.key_fits; challenge_fits = v.challenge_fits })

  ReadStep-Keeps : {s : Step K} → ReadStep env keypair peer input s → Keeps peer s.peer
  ReadStep-Keeps (ReadStep.no_header l e) = drop_peer-Keeps peer _ e
  ReadStep-Keeps (ReadStep.at_none st h) = NoneStep-Keeps st h
  ReadStep-Keeps (ReadStep.at_wait st h) = WaitStep-Keeps st h
  ReadStep-Keeps (ReadStep.at_check st h) = CheckStep-Keeps st h
  ReadStep-Keeps (ReadStep.at_ready st e) = rw e (rw st stays, v)

  -- A callback that keeps a valid peer moves it to the next stage, or leaves a ready peer ready, and
  -- keeps it valid: with a key from the check stage on and not before, and a challenge of 12 bytes.
  pub read_cb-Follows :
      {s : Step K} {p : Peer K}
      → read_cb env keypair peer input ≡ done s
      → s.peer ≡ some p
      → Follows peer.stage p.stage × IsValid p
  read_cb-Follows h e = rw e at (ReadStep-Keeps (read_cb-ReadStep env keypair peer input h))

-- The peers of a listener with this key pair: accepted, and then kept by each callback, whatever
-- the libraries answer it within `Law`.
pub data Reaches {K C : Type 0} (Law : Env K C → Type 0) (keypair : K) : Peer K → Type 0 where
  accepted : {p : Peer K} → (accept_conn_cb true true).peer ≡ some p → Reaches Law keypair p
  kept :
      {p q : Peer K} {s : Step K} (env : Env K C) (input : Input)
      → Reaches Law keypair p
      → Law env
      → read_cb env keypair p input ≡ done s
      → s.peer ≡ some q
      → Reaches Law keypair q

accepted-IsValid : {K : Type 0} {p : Peer K} → (accept_conn_cb true true).peer ≡ some p → IsValid p
unfolding accept_conn_cb
accepted-IsValid h = ground arith

-- Every peer that was accepted and kept by any number of callbacks is valid: it has a key from the check
-- stage on and not before, and a challenge of 12 bytes.
pub Reaches-IsValid :
    {K C : Type 0} {Law : Env K C → Type 0} {keypair : K} {p : Peer K}
    → Reaches Law keypair p
    → IsValid p
Reaches-IsValid (accepted h) = accepted-IsValid h
Reaches-IsValid {keypair} (kept {p = p} env input r l h e) =
    (read_cb-Follows env keypair p input (Reaches-IsValid r) h e).1
