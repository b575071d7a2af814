-- ===== src/Socks5/Unset.antt =====
-- Contexts that make the client read outside of their objects.
use vcmp.Prelude.{
  ℕ, ◌+◌, ◌≤◌, ◌<◌, ◌≡◌, refl, ap, ◌∙◌, some, [], ◌∷◌, ◌++◌, true, fault, Bytes, arith, zero, suc,
  if◌then◌else◌, length, length-append, take, load_front_overrun,
}
use vcmp.Libevent.{Input}
use vcmp.Socks5.State.{null, wild, to, Hostname, Socks5Ctx, Fresh, Callbacks, Env}
use vcmp.Socks5.{
  send_hostname, send_ipv4, socks5_send_req, at_ident, read_cb, socks5_ctx_new_hostname,
  stage_ident, is_set,
}

length-take : (n : ℕ) (xs : Bytes) → length (take n xs) ≤ n
length-take zero xs = omega arith
length-take (suc n) [] = omega arith
length-take (suc n) (x ∷ xs) = omega (arith, length-take n xs)

module _ (env : Env) (c : Socks5Ctx) where
  send_ipv4_wild : c.ipv4_addr ≡ wild → env.malloc 10 ≡ true → send_ipv4 env c ≡ fault
  unfolding send_ipv4
  send_ipv4_wild e given = rw (given, e) refl

  send_req_wild : c.ipv4_addr ≡ wild → env.malloc 10 ≡ true → socks5_send_req env c ≡ fault
  unfolding socks5_send_req
  send_req_wild e given =
      ap
        (λ p.
          if is_set p
          then send_ipv4 env c
          else if is_set c.hostname
          then send_hostname env c
          else fault)
        e
      ∙ send_ipv4_wild e given

  send_hostname_long :
      (h : Hostname)
      → c.hostname ≡ to h
      → length h.hostname < h.len
      → env.malloc (h.len + 7) ≡ true
      → send_hostname env c ≡ fault
  unfolding send_hostname
  send_hostname_long h e long given =
      rw e (rw given (rw (load_front_overrun h.len h.hostname long) refl))

  send_req_long :
      (h : Hostname)
      → c.ipv4_addr ≡ null
      → c.hostname ≡ to h
      → length h.hostname < h.len
      → env.malloc (h.len + 7) ≡ true
      → socks5_send_req env c ≡ fault
  unfolding socks5_send_req
  send_req_long h n e long given =
      ap
        (λ p.
          if is_set p
          then send_ipv4 env c
          else if is_set c.hostname
          then send_hostname env c
          else fault)
        n
      ∙ ap (λ p. if is_set p then send_hostname env c else fault) e
      ∙ send_hostname_long h e long given

-- The context as it is when the proxy answers the greeting.
abbrev pub greeted : Socks5Ctx → Socks5Ctx
greeted c = record c { stage = stage_ident }

at_ident_fault :
    (env : Env) (c : Socks5Ctx) (input : Input) (rest : Bytes)
    → input.extent ≡ 5 ∷ 0 ∷ rest
    → socks5_send_req env (greeted c) ≡ fault
    → read_cb env (greeted c) input ≡ fault
unfolding read_cb at_ident
at_ident_fault env c input rest packet faulted = rw packet (rw faulted refl)

-- A context for a name does not set its address: where the memory was not null, the address is taken from
-- there when the proxy has agreed to no authentication, and the request reads outside of any object, if
-- memory for it is given.
pub read_cb_unset_address :
    (env : Env) (fresh : Fresh) (name : Bytes) (port : ℕ) (callbacks : Callbacks) (input : Input)
    (rest : Bytes)
    → fresh.ipv4_addr ≡ wild
    → input.extent ≡ 5 ∷ 0 ∷ rest
    → env.malloc 10 ≡ true
    → (c : Socks5Ctx) × (socks5_ctx_new_hostname (some fresh) true name port callbacks ≡ some c)
      × (read_cb env (greeted c) input ≡ fault)
unfolding socks5_ctx_new_hostname
read_cb_unset_address env fresh name port callbacks input rest e packet given =
    (c, refl, at_ident_fault env c input rest packet (send_req_wild env (greeted c) e given))
  where
    c : Socks5Ctx
    c = record {
      hostname = to (record { len = length name; hostname = take 255 name ++ (0 ∷ []) });
      ipv4_addr = fresh.ipv4_addr;
      dst_port = port;
      callbacks = callbacks;
      stage = fresh.stage;
    }

-- A name of more than 256 characters is cut, but its whole length is kept, and as many bytes are copied
-- into the request, past the end of the name, if memory for it is given.
pub read_cb_long_name :
    (env : Env) (fresh : Fresh) (name : Bytes) (port : ℕ) (callbacks : Callbacks) (input : Input)
    (rest : Bytes)
    → fresh.ipv4_addr ≡ null
    → 256 < length name
    → input.extent ≡ 5 ∷ 0 ∷ rest
    → env.malloc (length name + 7) ≡ true
    → (c : Socks5Ctx) × (socks5_ctx_new_hostname (some fresh) true name port callbacks ≡ some c)
      × (read_cb env (greeted c) input ≡ fault)
unfolding socks5_ctx_new_hostname
read_cb_long_name env fresh name port callbacks input rest e long packet given = (
  c,
  refl,
  at_ident_fault env c input rest packet (send_req_long env (greeted c) h e refl cut given),
)
  where
    h : Hostname
    h = record { len = length name; hostname = take 255 name ++ (0 ∷ []) }

    cut : length h.hostname < h.len
    cut = omega (arith, length-append (take 255 name) (0 ∷ []), length-take 255 name)

    c : Socks5Ctx
    c = record {
      hostname = to h;
      ipv4_addr = fresh.ipv4_addr;
      dst_port = port;
      callbacks = callbacks;
      stage = fresh.stage;
    }
