-- ===== src/Listener.antt =====
-- The listener for peers (vcmp/src/listener.c, vcmp/include/vcmp/listener.h).
-- A callback is given what it would read from its buffer, and gives back the calls it makes into
-- libevent, OpenSSL and the heap, in order, with the peer, or with none where the peer was freed.
pub mod State
pub mod Wire
pub mod Stages
pub mod Accept
pub mod Cases
pub mod Freeing
pub mod Progress
pub mod Challenge
pub mod Bounds
pub mod Success
mod Tests
use vcmp.Prelude.{
  ℕ, ◌+◌, Option, none, some, List, [], ◌∷◌, ◌++◌, Bool, true, false, not, Outcome, done, ◌>>=◌,
  Bytes, ltb, leb, ◌==◌, if◌then◌else◌,
}
use vcmp.Listener.State.{
  Peer, Env, Input, Step, Stage, no_stage, pubkey_wait, pubkey_check, ready, drop_peer,
}
use vcmp.Listener.Stages.{stage_none, stage_pubkey_wait, stage_pubkey_check}
use vcmp.Protocol.{header_size}

module _ {K C : Type 0} (env : Env K C) (keypair : K) where
  -- The `switch`, which has no case for a peer that is ready.
  dispatch : Stage → Peer K → Input → Outcome (Step K)
  dispatch no_stage peer input = stage_none env keypair peer input
  dispatch pubkey_wait peer input = stage_pubkey_wait env peer input
  dispatch pubkey_check peer input = stage_pubkey_check env keypair peer input
  dispatch ready peer input = done (record { calls = []; peer = some peer })

  unfoldable pub read_cb : Peer K → Input → Outcome (Step K)
  unfolding dispatch
  read_cb peer input =
      if ltb input.length header_size then done (drop_peer []) else dispatch peer.stage peer input
