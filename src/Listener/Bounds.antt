-- ===== src/Listener/Bounds.antt =====
-- `read_cb` runs without a fault on input that stands in one piece.
use vcmp.Prelude.{
  ◌≤◌, ◌≡◌, done, fault, Runs, Runs-done, if-Runs, ltb-false, leb-false, int_as_size, ◌^◌,
  load_bytes_overrun, ltb, length, arith, ◌<◌,
}
use vcmp.Listener.State.{Peer, Env, Input, Step, Stage, no_stage, pubkey_wait, pubkey_check, ready}
use vcmp.Listener.Stages.Laws.{DerLaw, InOnePiece}
use vcmp.Listener.Stages.Bounds.{
  LongAnswers, stage_none-Runs, stage_pubkey_wait-Runs, stage_pubkey_check-Runs,
}
use vcmp.Listener.Stages.{stage_pubkey_wait}
use vcmp.Listener.Wire.{load_keylen}
use vcmp.Listener.Progress.{IsValid}
use vcmp.Listener.{dispatch, read_cb}
use vcmp.Protocol.{header_size}

module _ {K C : Type 0} (env : Env K C) (keypair : K) (peer : Peer K) (input : Input)
    (v : IsValid peer) (law : DerLaw env.evp) (answers : LongAnswers env keypair)
    (one : InOnePiece input) where
  dispatch-Runs : (stage : Stage) → 7 ≤ input.length → Runs (dispatch env keypair stage peer input)
  unfolding dispatch
  dispatch-Runs no_stage h = stage_none-Runs env keypair peer input law (ground arith)
  dispatch-Runs pubkey_wait h = stage_pubkey_wait-Runs env peer input v.challenge_fits one
  dispatch-Runs pubkey_check h =
      stage_pubkey_check-Runs env keypair peer input v.challenge_fits answers one
  dispatch-Runs ready h = tt

  -- The callback of a valid peer returns without a fault, in any stage and on any bytes, if the input
  -- stands in one piece of less than 2 ^ 31 bytes, `i2d_PUBKEY` writes as much as it says, and no payload
  -- decrypts to less than 12 bytes.
  pub read_cb_returns : (s : Step K) × (read_cb env keypair peer input ≡ done s)
  unfolding read_cb
  read_cb_returns = Runs-done (read_cb env keypair peer input) (
      if-Runs (ltb input.length header_size) _ _ (λ _. tt)
        λ long. dispatch-Runs peer.stage (ground arith))

-- Where a key is waited for and more than 11 but less than 2 ^ 31 bytes are in the buffer, of which
-- less than 11 stand in the first extent, the callback reads past the end of that extent.
read_cb_split_packet :
    {K C : Type 0} (env : Env K C) (keypair : K) (peer : Peer K) (input : Input)
    → peer.stage ≡ pubkey_wait
    → 11 < input.length
    → input.length < 2 ^ 31
    → length input.extent < 11
    → read_cb env keypair peer input ≡ fault
unfolding read_cb dispatch stage_pubkey_wait load_keylen
read_cb_split_packet env keypair peer input st long fits split =
    rw (ltb-false input.length 7 (omega arith), st)
      (rw (
        leb-false (int_as_size input.length) 11 (ground arith),
        load_bytes_overrun input.extent 7 4 split,
      ))
