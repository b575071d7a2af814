-- ===== src/WebSockets.antt =====
-- The WebSocket server (vcmp/src/websockets/websockets.c and
-- vcmp/include/vcmp/websockets/websockets.h). A callback gives the calls that it makes, in order, and the
-- client as it leaves it.
pub mod State
pub mod Cases
pub mod Order
pub mod Replies
pub mod Accepts
pub mod Sends
pub mod Tests
use vcmp.Prelude.{
  ℕ, ◌+◌, ◌-◌, ◌^◌, ◌%◌, Option, none, some, List, [], ◌∷◌, ◌++◌, Bool, true, false, not, Outcome,
  done, fault, ◌>>=◌, Bytes, ltb, leb, ◌==◌, if◌then◌else◌, is_zero, take, length, load_front,
  int_as_size, store_bytes, ntohs, u16,
}
use vcmp.Libevent.{Input, Sockaddr, BaseCall, event_base_loopexit}
use vcmp.Handshake.Entries.{Entry}
use vcmp.Prelude.{zeros}
use vcmp.Prelude.{string_of}
use vcmp.Handshake.{ws_parse_handshake, ws_header_get}
use vcmp.Frame.{WsFrame, Parsed, ws_parse_frame, ws_make_frame, ws_calc_frame_size, opcode_close}
use vcmp.Randdata.{codes}
use vcmp.WebSockets.State.{
  WsClient, WsCtx, Env, CbArg, client, client_ctx, Call, accept_cb, close_cb, read_cb_of,
  bufferevent_write, bufferevent_free, evbuffer_drain, bufferevent_trigger, ws_free_handshake,
  free_client, Step,
}

abbrev pub ws_magic : Bytes
ws_magic = codes "258EAFA5-E914-47DA-95CA-C5AB0DC85B11"

abbrev pub key_name : Bytes
key_name = codes "Sec-WebSocket-Key"

-- A `size_t` as the `int` that bounds a loop.
abbrev pub int_rounds : ℕ → ℕ
int_rounds n = if ltb (n % 2 ^ 32) (2 ^ 31) then n % 2 ^ 32 else 0

-- What `snprintf` makes of the answer.
abbrev pub response : Bytes → Bytes
response base64 =
    codes
      "HTTP/1.1 101 Switching Protocols\r\nUpgrade: websocket\r\nConnection: Upgrade\r\nSec-WebSocket-Accept: "
    ++ (base64 ++ codes "\r\n\r\n")

-- The end of the branch: what is drained, and whether there is more.
unfoldable pub drain_frame : Input → Parsed → List Call
drain_frame input parsed =
    let n = (parsed.size + parsed.frame.len) % 2 ^ 64 in
    evbuffer_drain n ∷ (if leb 2 (input.length - n) then bufferevent_trigger ∷ [] else [])

module _ {H : Type 0} (env : Env H) (ctx : WsCtx) where
  -- `written` bytes of the array `response`, which holds 1023 of them and a zero.
  unfoldable pub send_response : WsClient → ℕ → Bytes → Outcome Step
  send_response cl len hash = do
    let text = response (env.encode_block hash)
    sent ← load_front (length text) (take 1023 text ++ (0 ∷ []))
    let calls = ws_free_handshake ∷ evbuffer_drain len ∷ bufferevent_write sent ∷ []
    done (
        if not (is_zero (env.write sent))
        then record { calls = calls ++ (bufferevent_free ∷ []); client = cl }
        else record {
          calls = calls ++ (if ctx.accept_cb then accept_cb ∷ [] else []);
          client = record cl { handshake_done = true };
        })

  -- With the key found.
  unfoldable pub answer_key : WsClient → ℕ → Entry → Outcome Step
  answer_key cl len entry = do
    websocket_key ← string_of entry.value
    if not (env.malloc (length websocket_key + 37))
        then done (record { calls = ws_free_handshake ∷ bufferevent_free ∷ []; client = cl })
        else send_response cl len (env.sha1 (websocket_key ++ ws_magic))

  unfoldable pub read_handshake : WsClient → Input → Outcome Step
  read_handshake cl input = do
    parsed ← ws_parse_handshake env.uthash env.entries input.extent (int_rounds input.length)
    elim parsed [
      | none ↦ done (record { calls = bufferevent_free ∷ []; client = cl })
      | some head ↦ elim (ws_header_get env.uthash head key_name) [
        | none ↦ done (record { calls = ws_free_handshake ∷ bufferevent_free ∷ []; client = cl })
        | some entry ↦ answer_key cl (int_as_size input.length) entry
      ]
    ]

  -- A close frame is answered by the header of one, made in an array of 256 bytes.
  unfoldable pub answer_close : WsClient → Input → Parsed → Outcome Step
  answer_close cl input parsed = do
    made ← ws_make_frame true parsed.frame.opcode parsed.frame.len (some (zeros 256)) 256
    let told = if ctx.close_cb then close_cb (client_ctx cl.ctx) ∷ [] else []
    elim made [
      | none ↦ fault
      | some (n, tmp) ↦
          (let calls = told ++ (bufferevent_write (take n tmp) ∷ []) in
            done (
              if not (is_zero (env.write (take n tmp)))
              then record { calls = calls ++ (bufferevent_free ∷ []); client = cl }
              else record {
                calls = calls ++ drain_frame input parsed;
                client = record cl { disconnect = true };
              }))
    ]

  unfoldable pub pass_frame : WsClient → Input → Parsed → Step
  pass_frame cl input parsed =
      let frame = parsed.frame in
      let told =
        if ctx.read_cb
        then read_cb_of frame.opcode frame.begin frame.len (client_ctx cl.ctx) ∷ []
        else [] in
      record { calls = told ++ drain_frame input parsed; client = cl }

  unfoldable pub read_frame : WsClient → Input → Outcome Step
  read_frame cl input = do
    parsed ← ws_parse_frame input.extent (int_as_size input.length)
    elim parsed [
      | none ↦ done (record { calls = bufferevent_free ∷ []; client = cl })
      | some p ↦ elim (p.frame.opcode == opcode_close) [
        | true ↦ answer_close cl input p
        | false ↦ done (pass_frame cl input p)
      ]
    ]

  unfoldable pub read_cb : WsClient → Input → Outcome Step
  read_cb cl input = if not cl.handshake_done then read_handshake cl input else read_frame cl input

-- `ended` tells whether the events have `BEV_EVENT_EOF` or `BEV_EVENT_ERROR`. The callback is given
-- the client here, and not what the client holds.
unfoldable pub event_cb : WsCtx → Bool → List Call
event_cb ctx ended =
    if ended
    then (if ctx.close_cb then close_cb client ∷ [] else [])
      ++ (bufferevent_free ∷ free_client ∷ [])
    else []

-- No bufferevent is given this callback.
unfoldable pub write_cb : WsClient → List Call
write_cb cl = if cl.disconnect then bufferevent_free ∷ free_client ∷ [] else []

-- `bev` and `cl` tell whether the two allocations succeed; the client of the open bufferevent.
unfoldable pub accept_conn_cb : Bool → Bool → Option WsClient
accept_conn_cb bev cl =
    if not bev
    then none
    else if not cl
    then none
    else some (record { handshake_done = false; disconnect = false; ctx = 0 })

unfoldable pub accept_error_cb : List BaseCall
accept_error_cb = event_base_loopexit ∷ []

-- The result, the address that is bound, and the static `_ctx` where it is set.
pub record Started : Type 0 where
  pub result : ℕ
  pub bound : Option Sockaddr
  pub ctx : Option WsCtx

unfoldable pub ws_server_init : (Bytes → Option ℕ) → (Sockaddr → Bool) → Bytes → ℕ → WsCtx → Started
ws_server_init inet_pton bind ip port ctx =
    let refused : Started = record { result = 1; bound = none; ctx = none } in
    elim (inet_pton ip) [
      | none ↦ refused
      | some addr ↦
          (let sin : Sockaddr = record { port = ntohs (u16 port); addr = addr } in
            if not (bind sin)
            then refused
            else record { result = 0; bound = some sin; ctx = some ctx })
    ]

abbrev pub ws_client_set_ctx : WsClient → ℕ → WsClient
ws_client_set_ctx cl ctx = record cl { ctx = ctx }

-- The result, and what is written.
unfoldable pub ws_client_send :
    (ℕ → Bool) → (Bytes → Bool) → ℕ → Bytes → ℕ → Outcome (ℕ × Option Bytes)
ws_client_send malloc write opcode payload len = do
  let frame_size = ws_calc_frame_size len
  let size = (frame_size + len) % 2 ^ 64
  if not (malloc size) then done (1, none) else (do
    made ← ws_make_frame true opcode len (some (zeros size)) size
    elim made [
      | none ↦ done (1, none)
      | some (n, buf) ↦
          (if not (n == frame_size) then done (1, none) else (do
            copied ← load_front len payload
            buf' ← store_bytes buf n copied
            sent ← load_front size buf'
            done (if write sent then (0, some sent) else (1, some sent))))
    ])
