-- ===== src/Socks5/Tests.antt =====
-- A proxy that agrees, and contexts that are not set.
use vcmp.Prelude.{
  ℕ, ◌≡◌, refl, some, none, List, [], ◌∷◌, ◌++◌, false, true, done, fault, Bytes, arith, pos, zero,
  suc, be_bytes, load_front, le_bytes, ntohs,
}
use vcmp.Libevent.{Input}
use vcmp.Socks5.State.{
  null, wild, to, Socks5Ctx, Fresh, Callbacks, Env, connected, ended, Call, eventcb, readcb,
  bufferevent_write, evbuffer_drain, free_hostname, free_ctx,
}
use vcmp.Socks5.Cases.{arrives, happens}
use vcmp.Socks5.Runs.{Reaches}
use vcmp.Socks5.Order.{InOrder, Reaches-InOrder}
use vcmp.Socks5.{
  read_cb, event_cb, at_ident, at_request, socks5_send_req, send_hostname, send_buf,
  socks5_ctx_free, socks5_ctx_new_hostname, stage_connected,
}
use vcmp.Socks5.Session.{name_request, read_cb-name_request}
use vcmp.Socks5.Unset.{greeted, read_cb_unset_address, read_cb_long_name}
use vcmp.Randdata.{codes}

abbrev env : Env
env = record { malloc = λ n. true; write = λ b. pos 0 }

abbrev all_callbacks : Callbacks
all_callbacks = record { readcb = true; writecb = true; eventcb = true }

abbrev zero_fresh : Fresh
zero_fresh = record { hostname = null; ipv4_addr = null; stage = 0 }

abbrev wild_fresh : Fresh
wild_fresh = record { hostname = wild; ipv4_addr = wild; stage = 77 }

abbrev ident : Input
ident = record { length = 2; extent = 5 ∷ 0 ∷ [] }

abbrev answer : Input
answer = record { length = 10; extent = 5 ∷ 0 ∷ 0 ∷ 1 ∷ 0 ∷ 0 ∷ 0 ∷ 0 ∷ 0 ∷ 0 ∷ [] }

request_run : name_request (codes "a.b") 80 ≡ 5 ∷ 1 ∷ 0 ∷ 3 ∷ 3 ∷ b'a' ∷ b'.' ∷ b'b' ∷ 0 ∷ 80 ∷ []
unfolding be_bytes
request_run = refl

read_cb-name_request_example :
    (c0 c1 c2 c3 : Socks5Ctx) × (socks5_ctx_new_hostname
        (some zero_fresh)
        true
        (codes "a.b")
        80
        all_callbacks
      ≡ some c0)
    × (event_cb env c0 connected
        ≡ done (record { calls = bufferevent_write (5 ∷ 1 ∷ 0 ∷ []) ∷ []; ctx = some c1 }))
    × (read_cb env c1 ident
        ≡ done (record {
          calls = bufferevent_write (name_request (codes "a.b") 80) ∷ evbuffer_drain 2 ∷ [];
          ctx = some c2;
        }))
    × (read_cb env c2 answer
        ≡ done (record { calls = evbuffer_drain 10 ∷ eventcb connected ∷ []; ctx = some c3 }))
    × (c3.stage ≡ stage_connected)
read_cb-name_request_example =
    read_cb-name_request env (codes "a.b") 80 all_callbacks (omega arith) (omega arith) zero_fresh
      ident answer [] (1 ∷ 0 ∷ 0 ∷ 0 ∷ 0 ∷ 0 ∷ 0 ∷ []) refl refl refl refl refl refl

read_cb_unset_address_example :
    (c : Socks5Ctx) × (socks5_ctx_new_hostname (some wild_fresh) true (codes "a.b") 80 all_callbacks
      ≡ some c)
    × (read_cb env (greeted c) ident ≡ fault)
read_cb_unset_address_example =
    read_cb_unset_address env wild_fresh (codes "a.b") 80 all_callbacks ident [] refl refl refl

abbrev as_many : ℕ → Bytes
as_many zero = []
as_many (suc n) = b'a' ∷ as_many n

read_cb_long_name_example :
    (c : Socks5Ctx) × (socks5_ctx_new_hostname (some zero_fresh) true (as_many 257) 80 all_callbacks
      ≡ some c)
    × (read_cb env (greeted c) ident ≡ fault)
read_cb_long_name_example =
    read_cb_long_name env zero_fresh (as_many 257) 80 all_callbacks ident [] refl (omega arith) refl
      refl

-- A name, in memory that was zero.
abbrev named : ℕ → Socks5Ctx
named st = record {
  hostname = to (record { len = 3; hostname = b'a' ∷ b'.' ∷ b'b' ∷ 0 ∷ [] });
  ipv4_addr = null;
  dst_port = 80;
  callbacks = all_callbacks;
  stage = st;
}

-- The proxy agrees, some data is passed on, and the connection ends.
abbrev asked : List Call
asked =
    bufferevent_write (5 ∷ 1 ∷ 0 ∷ [])
    ∷ bufferevent_write (5 ∷ 1 ∷ 0 ∷ 3 ∷ 3 ∷ b'a' ∷ b'.' ∷ b'b' ∷ 0 ∷ 80 ∷ [])
    ∷ evbuffer_drain 2
    ∷ []

abbrev passed : List Call
passed = asked ++ (evbuffer_drain 10 ∷ eventcb connected ∷ readcb ∷ [])

abbrev session_calls : List Call
session_calls = passed ++ (eventcb ended ∷ free_hostname ∷ free_ctx ∷ [])

asks : Reaches (named 0) asked (some (named 3))
unfolding read_cb event_cb at_ident at_request socks5_send_req send_hostname send_buf load_front
    le_bytes ntohs
asks =
    Reaches.after env (arrives ident) (record { calls = asked_by; ctx = some (named 3) })
      (Reaches.after env (happens connected)
        (record { calls = bufferevent_write (5 ∷ 1 ∷ 0 ∷ []) ∷ []; ctx = some (named 1) })
        Reaches.starts refl)
      refl
  where
    asked_by : List Call
    asked_by =
        bufferevent_write (5 ∷ 1 ∷ 0 ∷ 3 ∷ 3 ∷ b'a' ∷ b'.' ∷ b'b' ∷ 0 ∷ 80 ∷ [])
        ∷ evbuffer_drain 2
        ∷ []

passes : Reaches (named 0) passed (some (named 4))
unfolding read_cb at_request
passes =
    Reaches.after {cs = asked ++ (evbuffer_drain 10 ∷ eventcb connected ∷ [])} env (arrives answer)
      (record { calls = readcb ∷ []; ctx = some (named 4) })
      (Reaches.after {cs = asked} env (arrives answer)
        (record { calls = evbuffer_drain 10 ∷ eventcb connected ∷ []; ctx = some (named 4) }) asks
        refl)
      refl

session : Reaches (named 0) session_calls none
unfolding event_cb socks5_ctx_free
session =
    Reaches.after {cs = passed} env (happens ended)
      (record { calls = eventcb ended ∷ free_hostname ∷ free_ctx ∷ []; ctx = none }) passes refl

Reaches-InOrder_example : InOrder false session_calls none
Reaches-InOrder_example = Reaches-InOrder refl (λ h. ground arith) session
