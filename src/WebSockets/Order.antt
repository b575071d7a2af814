-- ===== src/WebSockets/Order.antt =====
-- The order of the calls of a WebSocket client's callback.
use mathlib.Core.Path.{subst}
use vcmp.Prelude.{
  sym, ◌≤◌, ℕ, suc, ◌≡◌, refl, List, [], ◌∷◌, Bool, true, false, done, if◌then◌else◌, arith,
}
use vcmp.Libevent.{Input}
use vcmp.WebSockets.State.{
  WsClient, WsCtx, Env, Call, accept_cb, close_cb, read_cb_of, bufferevent_write, bufferevent_free,
  evbuffer_drain, bufferevent_trigger, ws_free_handshake, free_client, Step,
}
use vcmp.WebSockets.Cases.{RequestStep, FrameStep, ReadStep, read_cb-ReadStep}
use vcmp.WebSockets.{drain_frame, pass_frame, read_cb}

-- The bufferevent is used no more after it was freed, and the client is not freed.
abbrev pub frees_last : List Call → Bool
frees_last [] = true
frees_last (bufferevent_free ∷ []) = true
frees_last (bufferevent_free ∷ c ∷ cs) = false
frees_last (free_client ∷ cs) = false
frees_last (accept_cb ∷ cs) = frees_last cs
frees_last (close_cb a ∷ cs) = frees_last cs
frees_last (read_cb_of o b l a ∷ cs) = frees_last cs
frees_last (bufferevent_write b ∷ cs) = frees_last cs
frees_last (evbuffer_drain n ∷ cs) = frees_last cs
frees_last (bufferevent_trigger ∷ cs) = frees_last cs
frees_last (ws_free_handshake ∷ cs) = frees_last cs

abbrev pub accepts : List Call → ℕ
accepts [] = 0
accepts (accept_cb ∷ cs) = suc (accepts cs)
accepts (close_cb a ∷ cs) = accepts cs
accepts (read_cb_of o b l a ∷ cs) = accepts cs
accepts (bufferevent_write b ∷ cs) = accepts cs
accepts (evbuffer_drain n ∷ cs) = accepts cs
accepts (bufferevent_free ∷ cs) = accepts cs
accepts (bufferevent_trigger ∷ cs) = accepts cs
accepts (ws_free_handshake ∷ cs) = accepts cs
accepts (free_client ∷ cs) = accepts cs

-- How often the application is told of a frame or of the end.
abbrev pub told : List Call → ℕ
told [] = 0
told (accept_cb ∷ cs) = told cs
told (close_cb a ∷ cs) = suc (told cs)
told (read_cb_of o b l a ∷ cs) = suc (told cs)
told (bufferevent_write b ∷ cs) = told cs
told (evbuffer_drain n ∷ cs) = told cs
told (bufferevent_free ∷ cs) = told cs
told (bufferevent_trigger ∷ cs) = told cs
told (ws_free_handshake ∷ cs) = told cs
told (free_client ∷ cs) = told cs

-- What the application is told in one callback, by whether the handshake was done: before, nothing is
-- told, and the client is accepted just when the handshake gets done; after, the handshake stays done,
-- nobody is accepted, and at most one thing is told.
abbrev pub TellsRight : WsCtx → Bool → Step → Type 0
TellsRight ctx false s =
    (told s.calls ≡ 0)
    × (accepts s.calls ≡ (if s.client.handshake_done then (if ctx.accept_cb then 1 else 0) else 0))
TellsRight ctx true s =
    (s.client.handshake_done ≡ true) × (accepts s.calls ≡ 0) × (told s.calls ≤ 1)

module _ {H : Type 0} (env : Env H) (ctx : WsCtx) (cl : WsClient) where
  pub record InOrder (s : Step) : Type 0 where
    pub freed : frees_last s.calls ≡ true
    pub tells : TellsRight ctx cl.handshake_done s

  before :
      {s : Step}
      → cl.handshake_done ≡ false
      → frees_last s.calls ≡ true
      → TellsRight ctx false s
      → InOrder s
  before {s} u f t = record { freed = f; tells = subst (λ b. TellsRight ctx b s) (sym u) t }

  after :
      {s : Step}
      → cl.handshake_done ≡ true
      → frees_last s.calls ≡ true
      → TellsRight ctx true s
      → InOrder s
  after {s} d f t = record { freed = f; tells = subst (λ b. TellsRight ctx b s) (sym d) t }

  request_InOrder :
      (input : Input) {s : Step}
      → cl.handshake_done ≡ false
      → RequestStep env ctx cl input s
      → InOrder s
  request_InOrder input u (RequestStep.no_headers e) = rw e (before u refl (refl, ground arith))
  request_InOrder input u (RequestStep.no_key e) = rw e (before u refl (refl, ground arith))
  request_InOrder input u (RequestStep.unsent len sent e) =
      rw e (before u refl (refl, ground arith))
  request_InOrder input u (RequestStep.accepted len sent e) =
      rw e (before u (ground arith) (ground arith))

  frame_InOrder :
      (input : Input) {s : Step}
      → cl.handshake_done ≡ true
      → FrameStep env ctx cl input s
      → InOrder s
  unfolding pass_frame drain_frame
  frame_InOrder input d (FrameStep.malformed r e) = rw e (after d refl (d, refl, omega arith))
  frame_InOrder input d (FrameStep.unanswered sent e) =
      rw e (after d (ground arith) (d, ground arith, ground arith))
  frame_InOrder input d (FrameStep.closed sent p e) =
      rw e (after d (ground arith) (d, ground arith, ground arith))
  frame_InOrder input d (FrameStep.passed p e) =
      rw e (after d (ground arith) (d, ground arith, ground arith))

  step_InOrder : (input : Input) {s : Step} → ReadStep env ctx cl input s → InOrder s
  step_InOrder input (ReadStep.request u r) = request_InOrder input u r
  step_InOrder input (ReadStep.frame d r) = frame_InOrder input d r

  -- Whatever a client's callback reads and whatever the libraries answer: it frees its bufferevent by
  -- its last call or not at all, and never the client; before the handshake it tells the application
  -- nothing but that the client is accepted, which it does, if there is a callback for it, just when the
  -- handshake gets done; and after it the handshake stays done, nobody is accepted, and at most one
  -- thing is told.
  pub read_cb-InOrder : (input : Input) {s : Step} → read_cb env ctx cl input ≡ done s → InOrder s
  read_cb-InOrder input h = step_InOrder input (read_cb-ReadStep env ctx cl input h)
