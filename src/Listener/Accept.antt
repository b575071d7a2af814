-- ===== src/Listener/Accept.antt =====
-- New connections and the start of the listener (the end of vcmp/src/listener.c).
use vcmp.Prelude.{
  ℕ, Option, none, some, List, [], ◌∷◌, Bool, true, false, not, Bytes, u16, ntohs, if◌then◌else◌,
}
use vcmp.Libevent.{Sockaddr, BaseCall, event_base_loopexit}
use vcmp.Listener.State.{Peer, no_stage}
use vcmp.Rsa.Openssl.{Evp}
use vcmp.Rsa.{rsa_generate}

-- What the callback leaves behind: a bufferevent that is open, with the peer of its callbacks.
pub record Accepted (K : Type 0) : Type 0 where
  pub bev_open : Bool
  pub peer : Option (Peer K)

abbrev pub zero_bytes : Bytes
zero_bytes = 0 ∷ 0 ∷ 0 ∷ 0 ∷ 0 ∷ 0 ∷ 0 ∷ 0 ∷ 0 ∷ 0 ∷ 0 ∷ 0 ∷ []

-- `bev` and `peer` tell whether the two allocations succeed.
unfoldable pub accept_conn_cb : {K : Type 0} → Bool → Bool → Accepted K
accept_conn_cb bev peer =
    if not bev
    then record { bev_open = false; peer = none }
    else if not peer
    then record { bev_open = true; peer = none }
    else record {
      bev_open = true;
      peer = some (record { pubkey = none; stage = no_stage; authenticity = zero_bytes });
    }

-- The callbacks that do nothing with the peer: it is kept even when its connection has ended.
unfoldable pub write_cb : {K : Type 0} → Peer K → Peer K
write_cb peer = peer

unfoldable pub event_cb : {K : Type 0} → Peer K → Peer K
event_cb peer = peer

unfoldable pub accept_error_cb : List BaseCall
accept_error_cb = event_base_loopexit ∷ []

-- The result, the static `keypair`, and the address that is bound.
pub record Started (K : Type 0) : Type 0 where
  pub result : ℕ
  pub keypair : Option K
  pub bound : Option Sockaddr

module _ {K C : Type 0} (evp : Evp K C) (inet_pton : Bytes → Option ℕ)
    (bind : Sockaddr → Bool) where
  bind_listener : K → ℕ → ℕ → Started K
  bind_listener keypair port addr =
      let sin : Sockaddr = record { port = ntohs (u16 port); addr = addr } in
      if not (bind sin)
      then record { result = 1; keypair = some keypair; bound = none }
      else record { result = 0; keypair = some keypair; bound = some sin }

  unfoldable pub vcmp_listener_init : Bytes → ℕ → Started K
  unfolding bind_listener
  vcmp_listener_init ip port = elim (rsa_generate evp).0 [
    | none ↦ record { result = 1; keypair = none; bound = none }
    | some keypair ↦ elim (inet_pton ip) [
      | none ↦ record { result = 1; keypair = some keypair; bound = none }
      | some addr ↦ bind_listener keypair port addr
    ]
  ]
