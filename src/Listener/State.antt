-- ===== src/Listener/State.antt =====
-- A peer, what its callbacks are given, and what they do (vcmp/include/vcmp/listener.h).
use vcmp.Prelude.{ℕ, Option, none, List, [], ◌∷◌, ◌++◌, Bool, Bytes, ℤ}
pub use vcmp.Libevent.{Input}
use vcmp.Rsa.Openssl.{Evp}

pub data Stage : Type 0 where
  no_stage pubkey_wait pubkey_check ready : Stage

pub record Peer (K : Type 0) : Type 0 where
  pub pubkey : Option K
  pub stage : Stage
  pub authenticity : Bytes

-- The answers that one run of a callback gets: `malloc` by size, OpenSSL, `rand` by round,
-- `bufferevent_write` by what is written, `uuid_generate` as two words, and `time`.
pub record Env (K C : Type 0) : Type 0 where
  pub malloc : ℕ → Bool
  pub evp : Evp K C
  pub rand : ℕ → ℕ
  pub write : Bytes → ℤ
  pub uuid0 : ℕ
  pub uuid1 : ℕ
  pub time : ℕ

pub data Call (K : Type 0) : Type 0 where
  evbuffer_drain : ℕ → Call K
  bufferevent_write : Bytes → Call K
  free_pkey : Option K → Call K
  free_peer bufferevent_free : Call K

pub record Step (K : Type 0) : Type 0 where
  pub calls : List (Call K)
  pub peer : Option (Peer K)

-- `free(peer); bufferevent_free(bev); return;` after the calls made so far.
unfoldable pub drop_peer : {K : Type 0} → List (Call K) → Step K
drop_peer calls = record { calls = calls ++ (free_peer ∷ bufferevent_free ∷ []); peer = none }
