-- ===== src/Socks5/Session.antt =====
-- A connection through a proxy that agrees, and what goes wrong without one.
use vcmp.Prelude.{
  ℕ, ◌+◌, ◌^◌, ◌≤◌, ◌<◌, ◌≡◌, refl, ap, ◌∙◌, some, [], ◌∷◌, ◌++◌, true, done, Bytes, arith,
  if◌then◌else◌, is_zero, length, take, load_front-append, take-length, be_bytes, u8, u16,
  int_as_size,
}
use vcmp.Libevent.{Input}
use vcmp.Socks5.State.{
  null, to, Socks5Ctx, Fresh, Callbacks, Env, connected, eventcb, bufferevent_write, evbuffer_drain,
}
use vcmp.Frame.Order.{le_bytes-ntohs}
use vcmp.Socks5.{
  port_bytes, send_buf, send_hostname, socks5_send_req, at_ident, at_request, read_cb, event_cb,
  socks5_ctx_new_hostname, stage_ident, stage_request, stage_connected,
}

-- The request of RFC 1928 for a name and a port.
abbrev pub name_request : Bytes → ℕ → Bytes
name_request name port = 5 ∷ 1 ∷ 0 ∷ 3 ∷ length name ∷ (name ++ be_bytes 2 port)

module _ (env : Env) (name : Bytes) (port : ℕ) (callbacks : Callbacks) (short : length name ≤ 255)
    (port_fits : port < 2 ^ 16) where
  -- What `socks5_ctx_new_hostname` makes in memory that is zero.
  abbrev ctx_at : ℕ → Socks5Ctx
  ctx_at st = record {
    hostname = to (record { len = length name; hostname = take 255 name ++ (0 ∷ []) });
    ipv4_addr = null;
    dst_port = port;
    callbacks = callbacks;
    stage = st;
  }

  named :
      env.malloc (length name + 7) ≡ true
      → send_hostname env (ctx_at stage_ident) ≡ done (send_buf env (name_request name port))
  unfolding send_hostname
  named given = rw given (
      rw (take-length name 255 short) (rw (load_front-append name (0 ∷ [])) (rw (bytes, len) refl)))
    where
      whole : u16 port ≡ port
      whole = omega arith

      bytes : port_bytes port ≡ be_bytes 2 port
      bytes = le_bytes-ntohs (u16 port) (omega arith) ∙ ap (be_bytes 2) whole

      len : u8 (length name) ≡ length name
      len = omega arith

  sent_lem :
      env.malloc (length name + 7) ≡ true
      → is_zero (env.write (name_request name port)) ≡ true
      → socks5_send_req env (ctx_at stage_ident)
        ≡ done (true, bufferevent_write (name_request name port) ∷ [])
  unfolding socks5_send_req send_buf
  sent_lem given sent = named given ∙ rw sent refl

  -- A proxy that asks for no authentication is sent the request.
  ident_lem :
      (input : Input) (rest : Bytes)
      → input.extent ≡ 5 ∷ 0 ∷ rest
      → env.malloc (length name + 7) ≡ true
      → is_zero (env.write (name_request name port)) ≡ true
      → read_cb env (ctx_at stage_ident) input
        ≡ done (record {
          calls =
              bufferevent_write (name_request name port)
              ∷ evbuffer_drain (int_as_size input.length)
              ∷ [];
          ctx = some (ctx_at stage_request);
        })
  unfolding read_cb at_ident
  ident_lem input rest packet given sent = rw packet (rw (sent_lem given sent) refl)

  request_lem :
      (input : Input) (rest : Bytes)
      → input.extent ≡ 5 ∷ 0 ∷ 0 ∷ rest
      → read_cb env (ctx_at stage_request) input
        ≡ done (record {
          calls =
              evbuffer_drain (int_as_size input.length)
              ∷ (if callbacks.eventcb then eventcb connected ∷ [] else []);
          ctx = some (ctx_at stage_connected);
        })
  unfolding read_cb at_request
  request_lem input rest packet = rw packet refl

  event_lem :
      (st : ℕ)
      → is_zero (env.write (5 ∷ 1 ∷ 0 ∷ [])) ≡ true
      → event_cb env (ctx_at st) connected
        ≡ done (record {
          calls = bufferevent_write (5 ∷ 1 ∷ 0 ∷ []) ∷ [];
          ctx = some (ctx_at stage_ident);
        })
  unfolding event_cb
  event_lem st sent = rw sent refl

  made_lem :
      (fresh : Fresh)
      → fresh.ipv4_addr ≡ null
      → socks5_ctx_new_hostname (some fresh) true name port callbacks ≡ some (ctx_at fresh.stage)
  unfolding socks5_ctx_new_hostname
  made_lem fresh e = rw e refl

  -- For a name of at most 255 characters and a port of 16 bits, in memory where the address is null: once
  -- connected, the client greets the proxy; if it answers with version 5 and no authentication, it is sent
  -- the request of RFC 1928 with the name, its length and the port in network order; if it answers that
  -- with version 5 and success, the application is told that it is connected; if memory is given and
  -- the writes are made.
  pub read_cb-name_request :
      (fresh : Fresh) (ident answer : Input) (ident_rest answer_rest : Bytes)
      → fresh.ipv4_addr ≡ null
      → ident.extent ≡ 5 ∷ 0 ∷ ident_rest
      → answer.extent ≡ 5 ∷ 0 ∷ 0 ∷ answer_rest
      → env.malloc (length name + 7) ≡ true
      → is_zero (env.write (5 ∷ 1 ∷ 0 ∷ [])) ≡ true
      → is_zero (env.write (name_request name port)) ≡ true
      → (c0 c1 c2 c3 : Socks5Ctx) × (socks5_ctx_new_hostname (some fresh) true name port callbacks
          ≡ some c0)
        × (event_cb env c0 connected
            ≡ done (record { calls = bufferevent_write (5 ∷ 1 ∷ 0 ∷ []) ∷ []; ctx = some c1 }))
        × (read_cb env c1 ident
            ≡ done (record {
              calls =
                  bufferevent_write (name_request name port)
                  ∷ evbuffer_drain (int_as_size ident.length)
                  ∷ [];
              ctx = some c2;
            }))
        × (read_cb env c2 answer
            ≡ done (record {
              calls =
                  evbuffer_drain (int_as_size answer.length)
                  ∷ (if callbacks.eventcb then eventcb connected ∷ [] else []);
              ctx = some c3;
            }))
        × (c3.stage ≡ stage_connected)
  read_cb-name_request fresh ident answer ident_rest answer_rest e at_ident at_answer given greeted
        sent =
      (
        ctx_at fresh.stage,
        ctx_at stage_ident,
        ctx_at stage_request,
        ctx_at stage_connected,
        made_lem fresh e,
        event_lem fresh.stage greeted,
        ident_lem ident ident_rest at_ident given sent,
        request_lem answer answer_rest at_answer,
        refl,
      )
