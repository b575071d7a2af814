-- ===== src/Listener/Cases.antt =====
-- All that `read_cb` can do, by the stage of the peer.
use vcmp.Prelude.{◌≡◌, refl, some, [], done, ltb, true, Holds-done, arith, Bool-cases, inl, inr}
use vcmp.Listener.State.{
  Peer, Env, Input, Step, Stage, no_stage, pubkey_wait, pubkey_check, ready, drop_peer,
}
use vcmp.Listener.Stages.NoneCases.{NoneStep, stage_none-NoneStep}
use vcmp.Listener.Stages.WaitCases.{WaitStep, stage_pubkey_wait-WaitStep}
use vcmp.Listener.Stages.CheckCases.{CheckStep, stage_pubkey_check-CheckStep}
use vcmp.Listener.{dispatch, read_cb}
use vcmp.Protocol.{header_size}

module _ {K C : Type 0} (env : Env K C) (keypair : K) (peer : Peer K) (input : Input) where
  pub data ReadStep (s : Step K) : Type 0 where
    no_header : ltb input.length header_size ≡ true → s ≡ drop_peer [] → ReadStep s
    at_none : peer.stage ≡ no_stage → NoneStep env keypair peer input s → ReadStep s
    at_wait : peer.stage ≡ pubkey_wait → WaitStep env peer input s → ReadStep s
    at_check : peer.stage ≡ pubkey_check → CheckStep env keypair peer input s → ReadStep s
    at_ready : peer.stage ≡ ready → s ≡ record { calls = []; peer = some peer } → ReadStep s

  dispatch-ReadStep :
      (stage : Stage) {s : Step K}
      → peer.stage ≡ stage
      → dispatch env keypair stage peer input ≡ done s
      → ReadStep s
  unfolding dispatch
  dispatch-ReadStep no_stage e h =
      at_none e (Holds-done _ _ (stage_none-NoneStep env keypair peer input) h)
  dispatch-ReadStep pubkey_wait e h =
      at_wait e (Holds-done _ _ (stage_pubkey_wait-WaitStep env peer input) h)
  dispatch-ReadStep pubkey_check e h =
      at_check e (Holds-done _ _ (stage_pubkey_check-CheckStep env keypair peer input) h)
  dispatch-ReadStep ready e h = at_ready e (ground arith)

  pub read_cb-ReadStep : {s : Step K} → read_cb env keypair peer input ≡ done s → ReadStep s
  unfolding read_cb
  read_cb-ReadStep h = elim (Bool-cases (ltb input.length header_size)) [
    | inl e ↦ no_header e (ground arith)
    | inr e ↦ dispatch-ReadStep peer.stage refl (rw e at h)
  ]
