-- ===== src/Socks5.antt =====
-- The client of a SOCKS5 proxy (vcmp/src/socks5.c and vcmp/include/vcmp/socks5.h). A callback gives the
-- calls that it makes, in order, and the context as it leaves it, or none where it was freed.
pub mod State
pub mod Request
pub mod Contexts
pub mod Sends
pub mod Cases
pub mod Runs
pub mod Order
pub mod Session
pub mod Unset
mod Tests
unfoldable pub use Request.*
unfoldable pub use Contexts.*
use vcmp.Prelude.{
  ℕ, ◌+◌, ◌%◌, ◌^◌, Option, none, some, List, [], ◌∷◌, ◌++◌, Bool, true, false, not, ◌||◌, Outcome,
  done, fault, ◌>>=◌, Bytes, ◌==◌, if◌then◌else◌, length, take, is_zero, load, load_front, le_bytes,
  ntohs, u8, u16, int_as_size,
}
use vcmp.Libevent.{Input, Sockaddr}
use vcmp.Socks5.State.{
  Ptr, null, wild, to, Hostname, Socks5Ctx, Fresh, Callbacks, Env, Event, failed, connected, ended,
  other, Call, eventcb, readcb, writecb, bufferevent_write, evbuffer_drain, bufferevent_free,
  free_hostname, free_ipv4, free_ctx, Step,
}

abbrev pub stage_ident : ℕ
stage_ident = 1

abbrev pub stage_request : ℕ
stage_request = 3

abbrev pub stage_connected : ℕ
stage_connected = 4

-- The block that is freed, if the pointer is not null.
abbrev pub free_ptr : {A : Type 0} → Ptr A → Call → Outcome (List Call)
free_ptr null c = done []
free_ptr wild c = fault
free_ptr (to a) c = done (c ∷ [])

unfoldable pub socks5_ctx_free : Socks5Ctx → Outcome (List Call)
socks5_ctx_free ctx = do
  h ← free_ptr ctx.hostname free_hostname
  i ← free_ptr ctx.ipv4_addr free_ipv4
  done (h ++ (i ++ (free_ctx ∷ [])))

module _ (env : Env) where
  -- `eventcb(bev, BEV_EVENT_ERROR, ...)`, `bufferevent_free` and `socks5_ctx_free` after the calls so far.
  unfoldable pub give_up : Socks5Ctx → List Call → Outcome Step
  give_up ctx cs = do
    freed ← socks5_ctx_free ctx
    done (record {
      calls =
          cs
          ++ ((if ctx.callbacks.eventcb then eventcb failed ∷ [] else [])
              ++ (bufferevent_free ∷ freed));
      ctx = none;
    })

  unfoldable pub at_ident : Socks5Ctx → Input → Outcome Step
  at_ident ctx input = do
    ver ← load input.extent 0
    method ← load input.extent 1
    if not (ver == socks5_version)
        then give_up ctx []
        else if not (method == method_none)
        then give_up ctx []
        else (do
          (sent, cs) ← socks5_send_req env ctx
          if not sent
              then give_up ctx cs
              else done (record {
                calls = cs ++ (evbuffer_drain (int_as_size input.length) ∷ []);
                ctx = some (record ctx { stage = stage_request });
              }))

  -- The third byte is read only if the first one is right.
  unfoldable pub at_request : Socks5Ctx → Input → Outcome Step
  at_request ctx input = do
    ver ← load input.extent 0
    if not (ver == socks5_version) then give_up ctx [] else (do
      rsv ← load input.extent 2
      reply ← load input.extent 1
      if not (rsv == socks5_reserved)
          then give_up ctx []
          else if not (reply == reply_succeeded)
          then give_up ctx []
          else done (record {
            calls =
                evbuffer_drain (int_as_size input.length)
                ∷ (if ctx.callbacks.eventcb then eventcb connected ∷ [] else []);
            ctx = some (record ctx { stage = stage_connected });
          }))

  unfoldable pub read_cb : Socks5Ctx → Input → Outcome Step
  read_cb ctx input =
      if ctx.stage == stage_ident
      then at_ident ctx input
      else if ctx.stage == stage_request
      then at_request ctx input
      else done (record {
        calls =
            if ctx.stage == stage_connected
            then (if ctx.callbacks.readcb then readcb ∷ [] else [])
            else [];
        ctx = some ctx;
      })

  unfoldable pub write_cb : Socks5Ctx → List Call
  write_cb ctx =
      if ctx.stage == stage_connected
      then (if ctx.callbacks.writecb then writecb ∷ [] else [])
      else []

  unfoldable pub event_cb : Socks5Ctx → Event → Outcome Step
  event_cb ctx connected =
      let ident = socks5_version ∷ 1 ∷ method_none ∷ [] in
      if not (is_zero (env.write ident))
      then give_up ctx (bufferevent_write ident ∷ [])
      else done (record {
        calls = bufferevent_write ident ∷ [];
        ctx = some (record ctx { stage = stage_ident });
      })
  event_cb ctx failed = do
    freed ← socks5_ctx_free ctx
    done (record {
      calls = (if ctx.callbacks.eventcb then eventcb failed ∷ [] else []) ++ freed;
      ctx = none;
    })
  event_cb ctx ended = do
    freed ← socks5_ctx_free ctx
    done (record {
      calls = (if ctx.callbacks.eventcb then eventcb ended ∷ [] else []) ++ freed;
      ctx = none;
    })
  event_cb ctx other = done (record { calls = []; ctx = some ctx })
