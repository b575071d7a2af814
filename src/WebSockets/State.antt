-- ===== src/WebSockets/State.antt =====
-- A client of the WebSocket server, what its callbacks are given, and what they do.
use vcmp.Prelude.{ℕ, Option, List, Bool, Bytes, ℤ}
use vcmp.Handshake.Entries.{Entry, Uthash}

-- `ctx` is an address.
pub record WsClient : Type 0 where
  pub handshake_done : Bool
  pub disconnect : Bool
  pub ctx : ℕ

-- Which of the callbacks of `ws_ctx_t` are there.
pub record WsCtx : Type 0 where
  pub read_cb : Bool
  pub accept_cb : Bool
  pub close_cb : Bool

-- The answers that one run of a callback gets: memory for the entry of the line that ends at an index, the
-- hash table, `malloc` by size, `SHA1`, `EVP_EncodeBlock`, and `bufferevent_write`.
pub record Env (H : Type 0) : Type 0 where
  pub entries : ℕ → Option Entry
  pub uthash : Uthash H
  pub malloc : ℕ → Bool
  pub sha1 : Bytes → Bytes
  pub encode_block : Bytes → Bytes
  pub write : Bytes → ℤ

-- What a callback of `ws_ctx_t` is given: the client itself, or what the client holds.
pub data CbArg : Type 0 where
  client : CbArg
  client_ctx : ℕ → CbArg

-- `read_cb_of` is given the opcode, the offset of the payload and its length.
pub data Call : Type 0 where
  accept_cb : Call
  close_cb : CbArg → Call
  read_cb_of : ℕ → ℕ → ℕ → CbArg → Call
  bufferevent_write : Bytes → Call
  evbuffer_drain : ℕ → Call
  bufferevent_free bufferevent_trigger ws_free_handshake free_client : Call

pub record Step : Type 0 where
  pub calls : List Call
  pub client : WsClient
