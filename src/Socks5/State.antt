-- ===== src/Socks5/State.antt =====
-- The context of a connection through a proxy, what its callbacks are given, and what they do.
use vcmp.Prelude.{ℕ, Option, List, Bool, Bytes, ℤ}

-- A pointer is null, or points to an object, or has never been set.
pub data Ptr (A : Type 0) : Type 0 where
  null wild : Ptr A
  to : A → Ptr A

-- The bytes of the array that are written.
pub record Hostname : Type 0 where
  pub len : ℕ
  pub hostname : Bytes

-- Which of the callbacks are there.
pub record Callbacks : Type 0 where
  pub readcb : Bool
  pub writecb : Bool
  pub eventcb : Bool

pub record Socks5Ctx : Type 0 where
  pub hostname : Ptr Hostname
  pub ipv4_addr : Ptr Bytes
  pub dst_port : ℕ
  pub callbacks : Callbacks
  pub stage : ℕ

-- What the memory of a new context holds in the fields that are not always set.
pub record Fresh : Type 0 where
  pub hostname : Ptr Hostname
  pub ipv4_addr : Ptr Bytes
  pub stage : ℕ

pub record Env : Type 0 where
  pub malloc : ℕ → Bool
  pub write : Bytes → ℤ

-- `BEV_EVENT_ERROR`, `BEV_EVENT_CONNECTED`, `BEV_EVENT_EOF`, and any other event.
pub data Event : Type 0 where
  failed connected ended other : Event

pub data Call : Type 0 where
  eventcb : Event → Call
  bufferevent_write : Bytes → Call
  evbuffer_drain : ℕ → Call
  readcb writecb bufferevent_free free_hostname free_ipv4 free_ctx : Call

pub record Step : Type 0 where
  pub calls : List Call
  pub ctx : Option Socks5Ctx
