-- ===== src/Socks5/Order.antt =====
-- In which order a SOCKS5 client calls the application.
use vcmp.Prelude.{
  ◌≡◌, ◌≢◌, refl, ◌∙◌, Option, none, some, List, [], ◌∷◌, ◌++◌, Bool, true, false, Holds-done,
  if◌then◌else◌,
}
use vcmp.Socks5.State.{
  Socks5Ctx, Event, failed, connected, ended, other, Call, eventcb, readcb, writecb,
  bufferevent_write, evbuffer_drain, bufferevent_free, free_hostname, free_ipv4, free_ctx, Step,
}
use vcmp.Socks5.{stage_connected, is_set}
use vcmp.Socks5.Sends.{only_sends}
use vcmp.Socks5.Cases.{callback, told, owned, Acts, callback-Acts}
use vcmp.Socks5.Runs.{Reaches}

-- Whether the application has been told that it is connected, when it had been before or not; none
-- where it is called to read or to write before.
abbrev pub told_by : Bool → List Call → Option Bool
told_by b [] = some b
told_by b (eventcb connected ∷ cs) = told_by true cs
told_by b (eventcb failed ∷ cs) = told_by b cs
told_by b (eventcb ended ∷ cs) = told_by b cs
told_by b (eventcb other ∷ cs) = told_by b cs
told_by true (readcb ∷ cs) = told_by true cs
told_by false (readcb ∷ cs) = none
told_by true (writecb ∷ cs) = told_by true cs
told_by false (writecb ∷ cs) = none
told_by b (bufferevent_write x ∷ cs) = told_by b cs
told_by b (evbuffer_drain n ∷ cs) = told_by b cs
told_by b (bufferevent_free ∷ cs) = told_by b cs
told_by b (free_hostname ∷ cs) = told_by b cs
told_by b (free_ipv4 ∷ cs) = told_by b cs
told_by b (free_ctx ∷ cs) = told_by b cs

told_by-append :
    (a b : Bool) (cs ds : List Call) → told_by a cs ≡ some b → told_by a (cs ++ ds) ≡ told_by b ds
told_by-append true true [] ds h = refl
told_by-append false false [] ds h = refl
told_by-append true false [] ds h = cc
told_by-append false true [] ds h = cc
told_by-append a b (eventcb connected ∷ cs) ds h = told_by-append true b cs ds h
told_by-append a b (eventcb failed ∷ cs) ds h = told_by-append a b cs ds h
told_by-append a b (eventcb ended ∷ cs) ds h = told_by-append a b cs ds h
told_by-append a b (eventcb other ∷ cs) ds h = told_by-append a b cs ds h
told_by-append true b (readcb ∷ cs) ds h = told_by-append true b cs ds h
told_by-append false b (readcb ∷ cs) ds h = cc
told_by-append true b (writecb ∷ cs) ds h = told_by-append true b cs ds h
told_by-append false b (writecb ∷ cs) ds h = cc
told_by-append a b (bufferevent_write x ∷ cs) ds h = told_by-append a b cs ds h
told_by-append a b (evbuffer_drain n ∷ cs) ds h = told_by-append a b cs ds h
told_by-append a b (bufferevent_free ∷ cs) ds h = told_by-append a b cs ds h
told_by-append a b (free_hostname ∷ cs) ds h = told_by-append a b cs ds h
told_by-append a b (free_ipv4 ∷ cs) ds h = told_by-append a b cs ds h
told_by-append a b (free_ctx ∷ cs) ds h = told_by-append a b cs ds h

told_by-sent : (b : Bool) (cs : List Call) → only_sends cs ≡ true → told_by b cs ≡ some b
told_by-sent b [] h = refl
told_by-sent b (bufferevent_write x ∷ cs) h = told_by-sent b cs h
told_by-sent b (evbuffer_drain n ∷ cs) h = told_by-sent b cs h
told_by-sent b (eventcb e ∷ cs) h = cc
told_by-sent b (readcb ∷ cs) h = cc
told_by-sent b (writecb ∷ cs) h = cc
told_by-sent b (bufferevent_free ∷ cs) h = cc
told_by-sent b (free_hostname ∷ cs) h = cc
told_by-sent b (free_ipv4 ∷ cs) h = cc
told_by-sent b (free_ctx ∷ cs) h = cc

told_by-told :
    (b : Bool) (c : Socks5Ctx) (e : Event) → e ≢ connected → told_by b (told c e) ≡ some b
told_by-told b c e n = with_eventcb c.callbacks.eventcb e n
  where
    with_eventcb :
        (there : Bool) (e : Event)
        → e ≢ connected
        → told_by b (if there then eventcb e ∷ [] else []) ≡ some b
    with_eventcb there connected n = absurd (n refl)
    with_eventcb true failed n = refl
    with_eventcb true ended n = refl
    with_eventcb true other n = refl
    with_eventcb false e n = refl

told_by-owned : (b : Bool) (c : Socks5Ctx) → told_by b (owned c) ≡ some b
told_by-owned b c = with_ptrs (is_set c.hostname) (is_set c.ipv4_addr)
  where
    with_ptrs :
        (h i : Bool)
        → told_by b (
            (if h then free_hostname ∷ [] else [])
            ++ ((if i then free_ipv4 ∷ [] else []) ++ (free_ctx ∷ [])))
          ≡ some b
    with_ptrs true true = refl
    with_ptrs true false = refl
    with_ptrs false true = refl
    with_ptrs false false = refl

-- A context that has an event callback, and passes on only what comes after that was told of the connection.
abbrev pub Knows : Option Socks5Ctx → Bool → Type 0
Knows none b = Unit
Knows (some d) b = (d.callbacks.eventcb ≡ true) × (d.stage ≡ stage_connected → b ≡ true)

-- The calls are in order, after which `Knows` holds again.
abbrev pub InOrder : Bool → List Call → Option Socks5Ctx → Type 0
InOrder a cs r = (b : Bool) × (told_by a cs ≡ some b) × Knows r b

Acts-InOrder :
    {c : Socks5Ctx} {s : Step} (b : Bool) → Acts c s → Knows (some c) b → InOrder b s.calls s.ctx
Acts-InOrder {c} b (Acts.gave_up front h e) k = rw e (
  b,
  told_by-append b b front _ (told_by-sent b front h)
      ∙ told_by-append b b (told c failed) (bufferevent_free ∷ owned c)
          (told_by-told b c failed (λ x. cc))
      ∙ told_by-owned b c,
  tt,
)
Acts-InOrder {c} b (Acts.ends ev n e) k =
    rw e
      (b, told_by-append b b (told c ev) (owned c) (told_by-told b c ev n) ∙ told_by-owned b c, tt)
Acts-InOrder b (Acts.moves front st h n e) (k, l) =
    rw e (b, told_by-sent b front h, (k, λ x. absurd (n x)))
Acts-InOrder b (Acts.connects n e) (k, l) = rw e (rw k (true, refl, (refl, λ x. refl)))
Acts-InOrder b (Acts.reads h e) (k, l) = rw e (rw (l h) (true, refl, (k, λ x. refl)))
Acts-InOrder b (Acts.writes h e) (k, l) = rw e (rw (l h) (true, refl, (k, λ x. refl)))
Acts-InOrder b (Acts.rests e) k = rw e (b, refl, k)

InOrder-append :
    {c : Socks5Ctx} {s : Step} (a : Bool) (cs : List Call)
    → InOrder a cs (some c)
    → Acts c s
    → InOrder a (cs ++ s.calls) s.ctx
InOrder-append {s} a cs (b, e, k) acts =
    let (b', e', k') = Acts-InOrder b acts k in (b', told_by-append a b cs s.calls e ∙ e', k')

-- From a context that is not connected and has an event callback, after any callbacks: the application
-- was not called to read or to write before it was told that it is connected, and has been told so
-- when the context is in the connected stage.
pub Reaches-InOrder :
    {c : Socks5Ctx} {cs : List Call} {r : Option Socks5Ctx}
    → c.callbacks.eventcb ≡ true
    → c.stage ≢ stage_connected
    → Reaches c cs r
    → InOrder false cs r
Reaches-InOrder there n Reaches.starts = (false, refl, (there, λ x. absurd (n x)))
Reaches-InOrder there n (Reaches.after {cs = cs} {d = d} env a s r h) =
    InOrder-append false cs (Reaches-InOrder there n r)
      (Holds-done (Acts d) (callback env d a) (callback-Acts env d a) h)
