-- ===== src/Libevent.antt =====
-- What the callbacks see of libevent.
use vcmp.Prelude.{ℕ, Bytes}

-- `evbuffer_get_length`, and the first extent, which `evbuffer_peek` points to.
pub record Input : Type 0 where
  pub length : ℕ
  pub extent : Bytes

-- The port and the address as they stand in `struct sockaddr_in`.
pub record Sockaddr : Type 0 where
  pub port : ℕ
  pub addr : ℕ

-- What the error callbacks of the listening sockets call.
pub data BaseCall : Type 0 where
  event_base_loopexit : BaseCall
