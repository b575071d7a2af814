-- ===== src/Api/World.antt =====
-- The connections of the WebSocket server together with the user of the API.
use vcmp.Prelude.{
  ℕ, ◌≡◌, Option, none, some, List, [], ◌∷◌, Bool, true, false, done, ◌==◌, if◌then◌else◌,
}
use vcmp.Libevent.{Input}
use vcmp.WebSockets.State.{
  WsClient, Env, Call, accept_cb, close_cb, read_cb_of, bufferevent_write, bufferevent_free,
  evbuffer_drain, bufferevent_trigger, ws_free_handshake, free_client, Step,
}
use vcmp.WebSockets.{read_cb, event_cb, accept_conn_cb}
use vcmp.Api.{api_ctx}

-- The client of each bufferevent that is open, and `api_user_bev`.
pub record World : Type 0 where
  pub open_bevs : ℕ → Option WsClient
  pub user : Option ℕ

abbrev pub set_at : (ℕ → Option WsClient) → ℕ → Option WsClient → ℕ → Option WsClient
set_at f bev v j = if j == bev then v else f j

-- What the callbacks of the API do when those of the server call them.
abbrev pub run_calls : ℕ → List Call → Option ℕ → Option ℕ
run_calls bev [] user = user
run_calls bev (accept_cb ∷ cs) user = run_calls bev cs (vcmp.Api.accept_cb bev user)
run_calls bev (close_cb a ∷ cs) user = run_calls bev cs (vcmp.Api.close_cb bev user)
run_calls bev (read_cb_of o b l a ∷ cs) user = run_calls bev cs user
run_calls bev (bufferevent_write b ∷ cs) user = run_calls bev cs user
run_calls bev (evbuffer_drain n ∷ cs) user = run_calls bev cs user
run_calls bev (bufferevent_free ∷ cs) user = run_calls bev cs user
run_calls bev (bufferevent_trigger ∷ cs) user = run_calls bev cs user
run_calls bev (ws_free_handshake ∷ cs) user = run_calls bev cs user
run_calls bev (free_client ∷ cs) user = run_calls bev cs user

abbrev pub frees_bev : List Call → Bool
frees_bev [] = false
frees_bev (bufferevent_free ∷ cs) = true
frees_bev (accept_cb ∷ cs) = frees_bev cs
frees_bev (close_cb a ∷ cs) = frees_bev cs
frees_bev (read_cb_of o b l a ∷ cs) = frees_bev cs
frees_bev (bufferevent_write b ∷ cs) = frees_bev cs
frees_bev (evbuffer_drain n ∷ cs) = frees_bev cs
frees_bev (bufferevent_trigger ∷ cs) = frees_bev cs
frees_bev (ws_free_handshake ∷ cs) = frees_bev cs
frees_bev (free_client ∷ cs) = frees_bev cs

abbrev pub after_read : World → ℕ → Step → World
after_read w bev s = record {
  open_bevs = set_at w.open_bevs bev (if frees_bev s.calls then none else some s.client);
  user = run_calls bev s.calls w.user;
}

-- A connection is made, at an address that is not in use; its buffer is read; and it ends.
pub data Happens (H : Type 0) (w : World) : World → Type 0 where
  connects :
      (bev : ℕ)
      → w.open_bevs bev ≡ none
      → Happens H w
          (record { open_bevs = set_at w.open_bevs bev (accept_conn_cb true true); user = w.user })
  reads :
      (env : Env H) (bev : ℕ) (cl : WsClient) (input : Input) (s : Step)
      → w.open_bevs bev ≡ some cl
      → read_cb env api_ctx cl input ≡ done s
      → Happens H w (after_read w bev s)
  ends :
      (bev : ℕ) (cl : WsClient)
      → w.open_bevs bev ≡ some cl
      → Happens H w (record {
        open_bevs = set_at w.open_bevs bev none;
        user = run_calls bev (event_cb api_ctx true) w.user;
      })
