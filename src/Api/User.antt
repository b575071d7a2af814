-- ===== src/Api/User.antt =====
-- Who the user of the API is, and where the address of the user dangles.
use vcmp.Prelude.{
  ℕ, ◌≡◌, ◌≢◌, refl, ap, ◌∙◌, Option, none, some, [], ◌∷◌, true, false, done, arith, ◌==◌, ==_refl,
  ==_false, if◌then◌else◌, int_as_size, Bool-cases, inl, inr, ◌⊎◌,
}
use vcmp.Libevent.{Input}
use vcmp.Frame.{ws_parse_frame}
use vcmp.WebSockets.State.{WsClient, Env, bufferevent_free, Step}
use vcmp.WebSockets.Cases.{RequestStep, FrameStep, ReadStep, read_cb-ReadStep}
use vcmp.WebSockets.Replies.{read_cb_malformed}
use vcmp.WebSockets.{event_cb, accept_conn_cb, pass_frame, drain_frame}
use vcmp.Api.World.{World, set_at, run_calls, frees_bev, after_read, Happens, connects, reads, ends}
use vcmp.Api.{api_ctx}
use vcmp.Api.Addresses.{UserIsOpen, EachOpen, UserIsOpen-EachOpen, EachOpen-OpenAt, run_calls-other}

module _ {H : Type 0} (env : Env H) (bev : ℕ) (cl : WsClient) (input : Input)
    (user : Option ℕ) where
  -- If the bufferevent is the user after a callback, then it is open and its client has shaken hands.
  abbrev StaysOpen : Step → Type 0
  StaysOpen s =
      run_calls bev s.calls user ≡ some bev
      → (frees_bev s.calls ≡ false) × (s.client.handshake_done ≡ true)

  request_StaysOpen :
      {s : Step} → user ≢ some bev → RequestStep env api_ctx cl input s → StaysOpen s
  unfolding vcmp.Api.accept_cb
  request_StaysOpen n (RequestStep.no_headers e) = rw e (λ h. absurd (n h))
  request_StaysOpen n (RequestStep.no_key e) = rw e (λ h. absurd (n h))
  request_StaysOpen n (RequestStep.unsent len sent e) = rw e (λ h. absurd (n h))
  request_StaysOpen n (RequestStep.accepted len sent e) = rw e (λ h. (refl, refl))

  frame_StaysOpen :
      {s : Step}
      → cl.handshake_done ≡ true
      → ws_parse_frame input.extent (int_as_size input.length) ≢ done none
      → FrameStep env api_ctx cl input s
      → StaysOpen s
  unfolding pass_frame drain_frame vcmp.Api.close_cb
  frame_StaysOpen d masked (FrameStep.malformed r e) = absurd (masked r)
  frame_StaysOpen d masked (FrameStep.unanswered sent e) = rw e (λ h. absurd cc)
  frame_StaysOpen d masked (FrameStep.closed sent p e) = rw e (λ h. (ground arith, d))
  frame_StaysOpen d masked (FrameStep.passed p e) = rw e (λ h. (ground arith, d))

  step_StaysOpen :
      {s : Step}
      → (user ≡ some bev → cl.handshake_done ≡ true)
      → (cl.handshake_done ≡ true
          → ws_parse_frame input.extent (int_as_size input.length) ≢ done none)
      → ReadStep env api_ctx cl input s
      → StaysOpen s
  step_StaysOpen known masked (ReadStep.request u r) = request_StaysOpen (λ e. cc (known e)) r
  step_StaysOpen known masked (ReadStep.frame d r) = frame_StaysOpen d (masked d) r

-- What is read of a client that has shaken hands is masked.
abbrev pub IsMasked : {H : Type 0} {w w' : World} → Happens H w w' → Type 0
IsMasked (connects bev e) = Unit
IsMasked (reads env bev cl input s o h) =
    cl.handshake_done ≡ true → ws_parse_frame input.extent (int_as_size input.length) ≢ done none
IsMasked (ends bev cl o) = Unit

set_at_same : (f : ℕ → Option WsClient) (bev : ℕ) (v : Option WsClient) → set_at f bev v bev ≡ v
set_at_same f bev v = rw (==_refl bev) refl

set_at_other :
    (f : ℕ → Option WsClient) (bev j : ℕ) (v : Option WsClient) → j ≢ bev → set_at f bev v j ≡ f j
set_at_other f bev j v n = rw (==_false j bev n) refl

ends-none : (bev : ℕ) (user : Option ℕ) → run_calls bev (event_cb api_ctx true) user ≡ none
unfolding event_cb vcmp.Api.close_cb
ends-none bev user = refl

nat_cases : (a b : ℕ) → (a ≡ b) ⊎ (a ≢ b)
nat_cases a b = elim (Bool-cases (a == b)) [
  | inl e ↦ inl (ground arith)
  | inr e ↦ inr (λ h. ground arith)
]

connects_EachOpen :
    (w : World) (bev : ℕ) (v : Option WsClient)
    → EachOpen w
    → w.open_bevs bev ≡ none
    → EachOpen (record { open_bevs = set_at w.open_bevs bev v; user = w.user })
connects_EachOpen w bev v valid free j is_user =
    let (cl, o, d) = valid j is_user in
    let other : j ≢ bev = λ e. absurd (cc (ap w.open_bevs e)) in
    (cl, set_at_other w.open_bevs bev j v other ∙ o, d)

reads_EachOpen :
    {H : Type 0} (w : World) (env : Env H) (bev : ℕ) (cl : WsClient) (input : Input) (s : Step)
    → EachOpen w
    → w.open_bevs bev ≡ some cl
    → StaysOpen env bev cl input w.user s
    → EachOpen (after_read w bev s)
reads_EachOpen w env bev cl input s valid o stays j is_user =
    let v : Option WsClient = if frees_bev s.calls then none else some s.client in
    elim (nat_cases j bev) [
      | inl e ↦
          let (f, d) = stays (is_user ∙ ap some e) in
          let kept : v ≡ some s.client = ap (λ b. if b then none else some s.client) f in
          (s.client, ap (set_at w.open_bevs bev v) e ∙ set_at_same w.open_bevs bev v ∙ kept, d)
      | inr n ↦
          let (cl', o', d) = valid j (run_calls-other bev s.calls w.user j n is_user) in
          (cl', set_at_other w.open_bevs bev j v n ∙ o', d)
    ]

known :
    (w : World) (bev : ℕ) (cl : WsClient)
    → EachOpen w
    → w.open_bevs bev ≡ some cl
    → w.user ≡ some bev
    → cl.handshake_done ≡ true
known w bev cl valid o is_user =
    let (cl', o', d) = valid bev is_user in let same : cl' ≡ cl = cc in cc

Happens-EachOpen :
    {H : Type 0} {w w' : World} → EachOpen w → (h : Happens H w w') → IsMasked h → EachOpen w'
Happens-EachOpen {w} valid (connects bev e) m =
    connects_EachOpen w bev (accept_conn_cb true true) valid e
Happens-EachOpen {w} valid (reads env bev cl input s o h) m =
    reads_EachOpen w env bev cl input s valid o (
      step_StaysOpen env bev cl input w.user (known w bev cl valid o) m
        (read_cb-ReadStep env api_ctx cl input h))
Happens-EachOpen {w} valid (ends bev cl o) m = λ j is_user. absurd (cc (ends-none bev w.user))

-- The user of the API stays an open bufferevent whose client has shaken hands, whatever connects, sends
-- and ends, if what is read of a client that has shaken hands is masked.
pub Happens-UserIsOpen :
    {H : Type 0} {w w' : World} → UserIsOpen w → (h : Happens H w w') → IsMasked h → UserIsOpen w'
Happens-UserIsOpen {w} {w'} valid h m =
    EachOpen-OpenAt w'.open_bevs w'.user (Happens-EachOpen (UserIsOpen-EachOpen w valid) h m)

-- A frame of the user that is not masked closes the user's bufferevent, and the API keeps its address;
-- when a connection gets the address, its client is the user without any handshake.
pub unmasked_user :
    {H : Type 0} (w : World) (env : Env H) (bev : ℕ) (cl : WsClient) (input : Input)
    → w.user ≡ some bev
    → w.open_bevs bev ≡ some cl
    → cl.handshake_done ≡ true
    → ws_parse_frame input.extent (int_as_size input.length) ≡ done none
    → (w' : World) × (w'' : World) × Happens H w w'
      × Happens H w' w''
      × (w'.user ≡ some bev)
      × (w'.open_bevs bev ≡ none)
      × (w''.user ≡ some bev)
      × (w''.open_bevs bev ≡ accept_conn_cb true true)
unmasked_user {H} w env bev cl input is_user o d unmasked = (
  w1,
  w2,
  reads env bev cl input s o (read_cb_malformed env api_ctx cl input d unmasked),
  connects bev closed,
  is_user,
  closed,
  is_user,
  set_at_same w1.open_bevs bev (accept_conn_cb true true),
)
  where
    s : Step
    s = record { calls = bufferevent_free ∷ []; client = cl }

    w1 : World
    w1 = after_read w bev s

    w2 : World
    w2 = record { open_bevs = set_at w1.open_bevs bev (accept_conn_cb true true); user = w1.user }

    closed : w1.open_bevs bev ≡ none
    closed = set_at_same w.open_bevs bev none

-- The end of any connection leaves the API without a user, also where the user is another bufferevent,
-- which stays open.
pub ended_other :
    {H : Type 0} (w : World) (bev user : ℕ) (cl user_cl : WsClient)
    → w.user ≡ some user
    → w.open_bevs user ≡ some user_cl
    → w.open_bevs bev ≡ some cl
    → user ≢ bev
    → (w' : World) × Happens H w w' × (w'.user ≡ none) × (w'.open_bevs user ≡ some user_cl)
ended_other w bev user cl user_cl is_user user_open o n = (
  record {
    open_bevs = set_at w.open_bevs bev none;
    user = run_calls bev (event_cb api_ctx true) w.user;
  },
  ends bev cl o,
  ends-none bev w.user,
  set_at_other w.open_bevs bev user none n ∙ user_open,
)
