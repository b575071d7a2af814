-- ===== src/Socks5/Runs.antt =====
-- A SOCKS5 client over all the callbacks of a connection: what is freed, and what the application is told.
use vcmp.Prelude.{◌≡◌, Option, none, some, List, [], ◌∷◌, ◌++◌, done}
use vcmp.Socks5.State.{
  Socks5Ctx, Env, Call, eventcb, readcb, writecb, bufferevent_write, evbuffer_drain,
  bufferevent_free, free_hostname, free_ipv4, free_ctx, Step,
}
use vcmp.Socks5.Cases.{Arrival, callback, owned}

-- The calls of all callbacks from a context on, in order, and the context that is left.
pub data Reaches (c : Socks5Ctx) : List Call → Option Socks5Ctx → Type 0 where
  starts : Reaches c [] (some c)
  after :
      {cs : List Call} {d : Socks5Ctx} (env : Env) (a : Arrival) (s : Step)
      → Reaches c cs (some d)
      → callback env d a ≡ done s
      → Reaches c (cs ++ s.calls) s.ctx

-- The calls that free memory.
abbrev pub frees : List Call → List Call
frees [] = []
frees (free_hostname ∷ cs) = free_hostname ∷ frees cs
frees (free_ipv4 ∷ cs) = free_ipv4 ∷ frees cs
frees (free_ctx ∷ cs) = free_ctx ∷ frees cs
frees (bufferevent_write b ∷ cs) = frees cs
frees (evbuffer_drain n ∷ cs) = frees cs
frees (eventcb e ∷ cs) = frees cs
frees (readcb ∷ cs) = frees cs
frees (writecb ∷ cs) = frees cs
frees (bufferevent_free ∷ cs) = frees cs

-- A context that is left owns what the first one did and nothing of it is freed; when none is left,
-- all of it is freed.
abbrev pub FreedRight : Socks5Ctx → List Call → Option Socks5Ctx → Type 0
FreedRight c cs none = frees cs ≡ owned c
FreedRight c cs (some d) = (frees cs ≡ []) × (owned d ≡ owned c)
