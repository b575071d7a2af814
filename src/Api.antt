-- ===== src/Api.antt =====
-- The API for the user's front end (vcmp/src/api.c and vcmp/include/vcmp/api.h). A bufferevent is its
-- address, and the static `api_user_bev` is passed from call to call.
pub mod World
pub mod Addresses
pub mod User
pub mod Events
mod Tests
use vcmp.Prelude.{
  ℕ, Option, none, some, List, [], ◌∷◌, Bool, true, false, not, Outcome, done, fault, ◌>>=◌, Bytes,
  ◌==◌, if◌then◌else◌, length,
}
use vcmp.Libevent.{Sockaddr}
use vcmp.Frame.{opcode_text}
use vcmp.WebSockets.State.{WsCtx}
use vcmp.WebSockets.{Started, ws_server_init, ws_client_send}
use vcmp.Randdata.{codes}

abbrev pub event_user_join : ℕ
event_user_join = 1

-- What `read_cb` calls of yyjson: only a text frame is read, and nothing is done with it.
pub data JsonCall : Type 0 where
  yyjson_read : Bytes → JsonCall
  yyjson_doc_free : JsonCall

unfoldable pub read_cb : ℕ → Bytes → List JsonCall
read_cb opcode payload =
    if opcode == opcode_text then yyjson_read payload ∷ yyjson_doc_free ∷ [] else []

unfoldable pub accept_cb : ℕ → Option ℕ → Option ℕ
accept_cb bev (some user) = some user
accept_cb bev none = some bev

unfoldable pub close_cb : ℕ → Option ℕ → Option ℕ
close_cb bev user = none

abbrev pub api_ctx : WsCtx
api_ctx = record { read_cb = true; accept_cb = true; close_cb = true }

-- The result, and what `ws_server_init` has set.
unfoldable pub vcmp_api_init : (Bytes → Option ℕ) → (Sockaddr → Bool) → Bytes → ℕ → ℕ × Started
vcmp_api_init inet_pton bind ip port =
    let started = ws_server_init inet_pton bind ip port api_ctx in
    (if not (started.result == 0) then 1 else 0, started)

-- The name of an event.
abbrev pub event_name : ℕ → Bytes
event_name type = if type == event_user_join then codes "user_join" else codes "user_leave"

-- With the text made: the result, and what is written to the bufferevent of that address.
unfoldable pub send_event :
    (ℕ → Bool) → (Bytes → Bool) → ℕ → Bytes → Outcome (ℕ × Option (ℕ × Bytes))
send_event malloc write user text = do
  (ret, written) ← ws_client_send malloc write opcode_text text (length text)
  done (if not (ret == 0) then 1 else 0, elim written [ none ↦ none | some b ↦ some (user, b) ])

-- `json` is what yyjson writes of the object with these two strings; `none` is no memory.
unfoldable pub vcmp_api_event_user :
    (ℕ → Bool)
    → (Bytes → Bool)
    → (Bytes → Bytes → Option Bytes)
    → Option ℕ
    → ℕ
    → Bytes
    → Outcome (ℕ × Option (ℕ × Bytes))
vcmp_api_event_user malloc write json none type username = done (1, none)
vcmp_api_event_user malloc write json (some user) type username =
    elim (json (event_name type) username) [
      | none ↦ done (1, none)
      | some text ↦ send_event malloc write user text
    ]
