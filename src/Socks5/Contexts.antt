-- ===== src/Socks5/Contexts.antt =====
-- New contexts, and the start of a connection (the constructors and socks5_client_init of
-- vcmp/src/socks5.c).
use vcmp.Prelude.{
  ℕ, Option, none, some, [], ◌∷◌, ◌++◌, Bool, true, false, not, Bytes, if◌then◌else◌, length, take,
  ntohs, u16,
}
use vcmp.Libevent.{Sockaddr}
use vcmp.Socks5.State.{to, Socks5Ctx, Fresh, Callbacks}

-- `snprintf` writes up to 255 characters and a zero, and returns the length of the whole name. The fields
-- that the constructor does not set hold what was in the memory.
unfoldable pub socks5_ctx_new_hostname :
    Option Fresh → Bool → Bytes → ℕ → Callbacks → Option Socks5Ctx
socks5_ctx_new_hostname none hostname dst_hostname port callbacks = none
socks5_ctx_new_hostname (some fresh) hostname dst_hostname port callbacks =
    if not hostname
    then none
    else some (record {
      hostname =
          to (record { len = length dst_hostname; hostname = take 255 dst_hostname ++ (0 ∷ []) });
      ipv4_addr = fresh.ipv4_addr;
      dst_port = port;
      callbacks = callbacks;
      stage = fresh.stage;
    })

-- `addr` is what `evutil_inet_pton` makes of the address.
unfoldable pub socks5_ctx_new_ipv4 :
    Option Fresh → Bool → Option Bytes → ℕ → Callbacks → Option Socks5Ctx
socks5_ctx_new_ipv4 none ipv4 addr port callbacks = none
socks5_ctx_new_ipv4 (some fresh) ipv4 addr port callbacks = if not ipv4 then none else elim addr [
  | none ↦ none
  | some a ↦ some (record {
    hostname = fresh.hostname;
    ipv4_addr = to a;
    dst_port = port;
    callbacks = callbacks;
    stage = fresh.stage;
  })
]

-- The result, whether the bufferevent is open, and the address it connects to.
unfoldable pub socks5_client_init :
    (Bytes → Option ℕ) → Bool → (Sockaddr → Bool) → Bytes → ℕ → ℕ × Bool × Option Sockaddr
socks5_client_init inet_pton bev connect proxy_ip proxy_port = elim (inet_pton proxy_ip) [
  | none ↦ (1, false, none)
  | some addr ↦
      (let sin : Sockaddr = record { port = ntohs (u16 proxy_port); addr = addr } in
        if not bev
        then (1, false, none)
        else if not (connect sin)
        then (1, false, some sin)
        else (0, true, some sin))
]
