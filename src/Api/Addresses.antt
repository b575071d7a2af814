-- ===== src/Api/Addresses.antt =====
-- The address of the user, and what the calls of a client at another address do to it.
use mathlib.Core.Path.{subst}
use vcmp.Prelude.{ℕ, ◌≡◌, ◌≢◌, refl, Option, none, some, List, [], ◌∷◌, true}
use vcmp.WebSockets.State.{
  WsClient, Call, accept_cb, close_cb, read_cb_of, bufferevent_write, bufferevent_free,
  evbuffer_drain, bufferevent_trigger, ws_free_handshake, free_client,
}
use vcmp.Api.World.{World, run_calls}
use vcmp.Api.{api_ctx}

-- The user is an open bufferevent whose client has shaken hands.
abbrev pub OpenAt : (ℕ → Option WsClient) → Option ℕ → Type 0
OpenAt f none = Unit
OpenAt f (some bev) = (cl : WsClient) × (f bev ≡ some cl) × (cl.handshake_done ≡ true)

abbrev pub UserIsOpen : World → Type 0
UserIsOpen w = OpenAt w.open_bevs w.user

-- The same, to be used and to be shown for each bufferevent that may be the user.
abbrev pub EachOpen : World → Type 0
EachOpen w =
    (bev : ℕ)
    → w.user ≡ some bev
    → (cl : WsClient) × (w.open_bevs bev ≡ some cl) × (cl.handshake_done ≡ true)

pub UserIsOpen-EachOpen : (w : World) → UserIsOpen w → EachOpen w
UserIsOpen-EachOpen w valid bev is_user = subst (λ u. OpenAt w.open_bevs u) is_user valid

pub EachOpen-OpenAt :
    (f : ℕ → Option WsClient) (user : Option ℕ)
    → ((bev : ℕ)
        → user ≡ some bev
        → (cl : WsClient) × (f bev ≡ some cl) × (cl.handshake_done ≡ true))
    → OpenAt f user
EachOpen-OpenAt f none h = tt
EachOpen-OpenAt f (some bev) h = h bev refl

-- Callbacks for one bufferevent do not make another one the user.
pub run_calls-other :
    (bev : ℕ) (cs : List Call) (user : Option ℕ) (other : ℕ)
    → other ≢ bev
    → run_calls bev cs user ≡ some other
    → user ≡ some other
unfolding vcmp.Api.accept_cb vcmp.Api.close_cb
run_calls-other bev [] user other n h = h
run_calls-other bev (accept_cb ∷ cs) (some u) other n h = run_calls-other bev cs (some u) other n h
run_calls-other bev (accept_cb ∷ cs) none other n h =
    let same : some bev ≡ some other = run_calls-other bev cs (some bev) other n h in absurd (n cc)
run_calls-other bev (close_cb a ∷ cs) user other n h =
    let same : none ≡ some other = run_calls-other bev cs none other n h in absurd cc
run_calls-other bev (read_cb_of o b l a ∷ cs) user other n h = run_calls-other bev cs user other n h
run_calls-other bev (bufferevent_write b ∷ cs) user other n h =
    run_calls-other bev cs user other n h
run_calls-other bev (evbuffer_drain k ∷ cs) user other n h = run_calls-other bev cs user other n h
run_calls-other bev (bufferevent_free ∷ cs) user other n h = run_calls-other bev cs user other n h
run_calls-other bev (bufferevent_trigger ∷ cs) user other n h =
    run_calls-other bev cs user other n h
run_calls-other bev (ws_free_handshake ∷ cs) user other n h = run_calls-other bev cs user other n h
run_calls-other bev (free_client ∷ cs) user other n h = run_calls-other bev cs user other n h
