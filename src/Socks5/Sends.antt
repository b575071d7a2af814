-- ===== src/Socks5/Sends.antt =====
-- What the requests of the client call: they only send.
use vcmp.Prelude.{
  ◌+◌, ◌≡◌, refl, List, [], ◌∷◌, ◌++◌, Bool, true, false, not, >>=-Holds, if-Holds, Holds,
  load_front,
}
use vcmp.Socks5.State.{
  Socks5Ctx, Env, Call, eventcb, readcb, writecb, bufferevent_write, evbuffer_drain,
  bufferevent_free, free_hostname, free_ipv4, free_ctx,
}
use vcmp.Socks5.{is_set, deref, send_buf, send_ipv4, send_hostname, socks5_send_req}

abbrev pub only_sends : List Call → Bool
only_sends [] = true
only_sends (bufferevent_write b ∷ cs) = only_sends cs
only_sends (evbuffer_drain n ∷ cs) = only_sends cs
only_sends (eventcb e ∷ cs) = false
only_sends (readcb ∷ cs) = false
only_sends (writecb ∷ cs) = false
only_sends (bufferevent_free ∷ cs) = false
only_sends (free_hostname ∷ cs) = false
only_sends (free_ipv4 ∷ cs) = false
only_sends (free_ctx ∷ cs) = false

pub only_sends-append :
    (cs ds : List Call) → only_sends cs ≡ true → only_sends ds ≡ true → only_sends (cs ++ ds) ≡ true
only_sends-append [] ds h k = k
only_sends-append (bufferevent_write b ∷ cs) ds h k = only_sends-append cs ds h k
only_sends-append (evbuffer_drain n ∷ cs) ds h k = only_sends-append cs ds h k
only_sends-append (eventcb e ∷ cs) ds h k = cc
only_sends-append (readcb ∷ cs) ds h k = cc
only_sends-append (writecb ∷ cs) ds h k = cc
only_sends-append (bufferevent_free ∷ cs) ds h k = cc
only_sends-append (free_hostname ∷ cs) ds h k = cc
only_sends-append (free_ipv4 ∷ cs) ds h k = cc
only_sends-append (free_ctx ∷ cs) ds h k = cc

-- The second part of a result.
abbrev pub OnlySends : Bool × List Call → Type 0
OnlySends r = only_sends r.1 ≡ true

module _ (env : Env) (c : Socks5Ctx) where
  send_ipv4-OnlySends : Holds OnlySends (send_ipv4 env c)
  unfolding send_ipv4 send_buf
  send_ipv4-OnlySends =
      if-Holds OnlySends (not (env.malloc 10)) _ _ (λ _. refl)
        λ _.
          >>=-Holds OnlySends (deref c.ipv4_addr) _
            λ addr _. >>=-Holds OnlySends (load_front 4 addr) _ λ a _. refl

  send_hostname-OnlySends : Holds OnlySends (send_hostname env c)
  unfolding send_hostname send_buf
  send_hostname-OnlySends = >>=-Holds OnlySends (deref c.hostname) _ λ h _.
      if-Holds OnlySends (not (env.malloc (h.len + 7))) _ _ (λ _. refl)
        λ _. >>=-Holds OnlySends (load_front h.len h.hostname) _ λ name _. refl

  pub socks5_send_req-OnlySends : Holds OnlySends (socks5_send_req env c)
  unfolding socks5_send_req
  socks5_send_req-OnlySends =
      if-Holds OnlySends (is_set c.ipv4_addr) _ _ (λ _. send_ipv4-OnlySends)
        λ _. if-Holds OnlySends (is_set c.hostname) _ _ (λ _. send_hostname-OnlySends) λ _. tt
