-- ===== src/Socks5/Request.antt =====
-- The requests that the client sends (socks5_send_req of vcmp/src/socks5.c).
use vcmp.Prelude.{
  ℕ, ◌+◌, List, [], ◌∷◌, ◌++◌, Bool, true, false, not, Outcome, done, fault, ◌>>=◌, Bytes,
  if◌then◌else◌, is_zero, load_front, le_bytes, ntohs, u8, u16,
}
use vcmp.Socks5.State.{Ptr, null, wild, to, Socks5Ctx, Env, Call, bufferevent_write}

abbrev pub socks5_version : ℕ
socks5_version = 5

abbrev pub socks5_reserved : ℕ
socks5_reserved = 0

abbrev pub atyp_ipv4 : ℕ
atyp_ipv4 = 1

abbrev pub atyp_domainname : ℕ
atyp_domainname = 3

abbrev pub cmd_connect : ℕ
cmd_connect = 1

abbrev pub reply_succeeded : ℕ
reply_succeeded = 0

abbrev pub method_none : ℕ
method_none = 0

abbrev pub is_set : {A : Type 0} → Ptr A → Bool
is_set null = false
is_set wild = true
is_set (to a) = true

abbrev pub deref : {A : Type 0} → Ptr A → Outcome A
deref null = fault
deref wild = fault
deref (to a) = done a

-- `htons(ctx->dst_port)` as it is copied.
abbrev pub port_bytes : ℕ → Bytes
port_bytes port = le_bytes 2 (ntohs (u16 port))

module _ (env : Env) where
  -- The result, and what is written.
  unfoldable pub send_buf : Bytes → Bool × List Call
  send_buf buf = (is_zero (env.write buf), bufferevent_write buf ∷ [])

  unfoldable pub send_ipv4 : Socks5Ctx → Outcome (Bool × List Call)
  send_ipv4 ctx = if not (env.malloc 10) then done (false, []) else (do
    addr ← deref ctx.ipv4_addr
    a ← load_front 4 addr
    done (
        send_buf (
          socks5_version
          ∷ cmd_connect
          ∷ socks5_reserved
          ∷ atyp_ipv4
          ∷ (a ++ port_bytes ctx.dst_port))))

  unfoldable pub send_hostname : Socks5Ctx → Outcome (Bool × List Call)
  send_hostname ctx = do
    h ← deref ctx.hostname
    if not (env.malloc (h.len + 7)) then done (false, []) else (do
      name ← load_front h.len h.hostname
      done (
          send_buf (
            socks5_version
            ∷ cmd_connect
            ∷ socks5_reserved
            ∷ atyp_domainname
            ∷ u8 h.len
            ∷ (name ++ port_bytes ctx.dst_port))))

  -- With neither pointer set the first bytes are written through a null pointer.
  unfoldable pub socks5_send_req : Socks5Ctx → Outcome (Bool × List Call)
  socks5_send_req ctx =
      if is_set ctx.ipv4_addr
      then send_ipv4 ctx
      else if is_set ctx.hostname
      then send_hostname ctx
      else fault
