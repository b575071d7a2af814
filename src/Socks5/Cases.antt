-- ===== src/Socks5/Cases.antt =====
-- What a callback of the SOCKS5 client does: it gives up, ends, moves on, connects, passes on, or nothing.
use vcmp.Prelude.{
  ℕ, ◌≡◌, ◌≢◌, refl, none, some, List, [], ◌∷◌, ◌++◌, Bool, true, false, not, Outcome, done,
  >>=-Holds, if-Holds, Holds, ◌==◌, if◌then◌else◌, arith, is_zero, load, int_as_size, ==_iff,
  Holds-done,
}
use vcmp.Libevent.{Input}
use vcmp.Socks5.State.{
  Ptr, null, wild, to, Socks5Ctx, Env, Event, failed, connected, ended, other, Call, eventcb,
  readcb, writecb, evbuffer_drain, bufferevent_free, free_hostname, free_ipv4, free_ctx, Step,
}
use vcmp.Socks5.Sends.{only_sends, only_sends-append, OnlySends, socks5_send_req-OnlySends}
use vcmp.Socks5.{
  is_set, free_ptr, socks5_ctx_free, socks5_send_req, give_up, at_ident, at_request, read_cb,
  write_cb, event_cb, stage_ident, stage_request, stage_connected, socks5_version, method_none,
  socks5_reserved, reply_succeeded,
}

-- What a client is called for.
pub data Arrival : Type 0 where
  arrives : Input → Arrival
  written : Arrival
  happens : Event → Arrival

abbrev pub callback : Env → Socks5Ctx → Arrival → Outcome Step
callback env c (arrives input) = read_cb env c input
callback env c written = done (record { calls = write_cb env c; ctx = some c })
callback env c (happens e) = event_cb env c e

abbrev pub told : Socks5Ctx → Event → List Call
told c e = if c.callbacks.eventcb then eventcb e ∷ [] else []

-- The blocks of memory of a context, as they are freed.
abbrev pub owned : Socks5Ctx → List Call
owned c =
    (if is_set c.hostname then free_hostname ∷ [] else [])
    ++ ((if is_set c.ipv4_addr then free_ipv4 ∷ [] else []) ++ (free_ctx ∷ []))

pub data Acts (c : Socks5Ctx) (s : Step) : Type 0 where
  gave_up :
      (front : List Call)
      → only_sends front ≡ true
      → s ≡ record { calls = front ++ (told c failed ++ (bufferevent_free ∷ owned c)); ctx = none }
      → Acts c s
  ends :
      (e : Event)
      → e ≢ connected
      → s ≡ record { calls = told c e ++ owned c; ctx = none }
      → Acts c s
  moves :
      (front : List Call) (st : ℕ)
      → only_sends front ≡ true
      → st ≢ stage_connected
      → s ≡ record { calls = front; ctx = some (record c { stage = st }) }
      → Acts c s
  connects :
      (n : ℕ)
      → s ≡ record {
        calls = evbuffer_drain n ∷ told c connected;
        ctx = some (record c { stage = stage_connected });
      }
      → Acts c s
  reads : c.stage ≡ stage_connected → s ≡ record { calls = readcb ∷ []; ctx = some c } → Acts c s
  writes : c.stage ≡ stage_connected → s ≡ record { calls = writecb ∷ []; ctx = some c } → Acts c s
  rests : s ≡ record { calls = []; ctx = some c } → Acts c s

free_ptr_lem :
    {A : Type 0} (p : Ptr A) (c : Call)
    → Holds (λ l. l ≡ (if is_set p then c ∷ [] else [])) (free_ptr p c)
free_ptr_lem null c = refl
free_ptr_lem wild c = tt
free_ptr_lem (to a) c = refl

socks5_ctx_free-owned : (c : Socks5Ctx) → Holds (λ l. l ≡ owned c) (socks5_ctx_free c)
unfolding socks5_ctx_free
socks5_ctx_free-owned c =
    >>=-Holds (λ l. l ≡ owned c) (free_ptr c.hostname free_hostname) _
      λ h eh.
        >>=-Holds (λ l. l ≡ owned c) (free_ptr c.ipv4_addr free_ipv4) _
          λ i ei.
            rw
              (
                Holds-done _ (free_ptr c.hostname free_hostname)
                    (free_ptr_lem c.hostname free_hostname) eh,
                Holds-done _ (free_ptr c.ipv4_addr free_ipv4) (free_ptr_lem c.ipv4_addr free_ipv4)
                    ei,
              )
              refl

module _ (env : Env) (c : Socks5Ctx) where
  give_up-Acts : (cs : List Call) → only_sends cs ≡ true → Holds (Acts c) (give_up env c cs)
  unfolding give_up
  give_up-Acts cs h = >>=-Holds (Acts c) (socks5_ctx_free c) _ λ freed e.
      Acts.gave_up cs h (rw (Holds-done _ (socks5_ctx_free c) (socks5_ctx_free-owned c) e) refl)

  at_ident-Acts : (input : Input) → Holds (Acts c) (at_ident env c input)
  unfolding at_ident
  at_ident-Acts input = >>=-Holds (Acts c) (load input.extent 0) _ λ ver _.
      >>=-Holds (Acts c) (load input.extent 1) _ λ method _.
        if-Holds (Acts c) (not (ver == socks5_version)) _ _ (λ _. give_up-Acts [] refl)
          λ _.
            if-Holds (Acts c) (not (method == method_none)) _ _ (λ _. give_up-Acts [] refl)
              λ _. >>=-Holds (Acts c) (socks5_send_req env c) _ λ r e.
                asked r.0 r.1
                  (Holds-done OnlySends (socks5_send_req env c) (socks5_send_req-OnlySends env c) e)
    where
      asked :
          (sent : Bool) (cs : List Call)
          → only_sends cs ≡ true
          → Holds {A = Step} (Acts c) (
              if not sent
              then give_up env c cs
              else done (record {
                calls = cs ++ (evbuffer_drain (int_as_size input.length) ∷ []);
                ctx = some (record c { stage = stage_request });
              }))
      asked true cs h =
          Acts.moves _ stage_request (only_sends-append cs (_ ∷ []) h refl) (ground arith) refl
      asked false cs h = give_up-Acts cs h

  at_request-Acts : (input : Input) → Holds (Acts c) (at_request env c input)
  unfolding at_request
  at_request-Acts input = >>=-Holds (Acts c) (load input.extent 0) _ λ ver _.
      if-Holds (Acts c) (not (ver == socks5_version)) _ _ (λ _. give_up-Acts [] refl)
        λ _. >>=-Holds (Acts c) (load input.extent 2) _ λ rsv _.
          >>=-Holds (Acts c) (load input.extent 1) _ λ reply _.
            if-Holds (Acts c) (not (rsv == socks5_reserved)) _ _ (λ _. give_up-Acts [] refl)
              λ _.
                if-Holds (Acts c) (not (reply == reply_succeeded)) _ _ (λ _. give_up-Acts [] refl)
                  λ _. Acts.connects (int_as_size input.length) refl

  read_cb-Acts : (input : Input) → Holds (Acts c) (read_cb env c input)
  unfolding read_cb
  read_cb-Acts input =
      if-Holds (Acts c) (c.stage == stage_ident) _ _ (λ _. at_ident-Acts input)
        λ _.
          if-Holds (Acts c) (c.stage == stage_request) _ _ (λ _. at_request-Acts input)
            λ _. passes (c.stage == stage_connected) c.callbacks.readcb (λ h. (==_iff _ _).0 h)
    where
      passes :
          (at_connected there : Bool)
          → (at_connected ≡ true → c.stage ≡ stage_connected)
          → Acts c (record {
            calls = if at_connected then (if there then readcb ∷ [] else []) else [];
            ctx = some c;
          })
      passes true true h = Acts.reads (h refl) refl
      passes true false h = Acts.rests refl
      passes false there h = Acts.rests refl

  write_cb-Acts : Acts c (record { calls = write_cb env c; ctx = some c })
  unfolding write_cb
  write_cb-Acts = passes (c.stage == stage_connected) c.callbacks.writecb (λ h. (==_iff _ _).0 h)
    where
      passes :
          (at_connected there : Bool)
          → (at_connected ≡ true → c.stage ≡ stage_connected)
          → Acts c (record {
            calls = if at_connected then (if there then writecb ∷ [] else []) else [];
            ctx = some c;
          })
      passes true true h = Acts.writes (h refl) refl
      passes true false h = Acts.rests refl
      passes false there h = Acts.rests refl

  event_cb-Acts : (e : Event) → Holds (Acts c) (event_cb env c e)
  unfolding event_cb
  event_cb-Acts connected =
      if-Holds (Acts c) (not (is_zero (env.write (socks5_version ∷ 1 ∷ method_none ∷ [])))) _ _
        (λ _. give_up-Acts (_ ∷ []) refl) λ _. Acts.moves _ stage_ident refl (ground arith) refl
  event_cb-Acts failed = >>=-Holds (Acts c) (socks5_ctx_free c) _ λ freed e.
      Acts.ends failed (λ h. cc)
        (rw (Holds-done _ (socks5_ctx_free c) (socks5_ctx_free-owned c) e) refl)
  event_cb-Acts ended = >>=-Holds (Acts c) (socks5_ctx_free c) _ λ freed e.
      Acts.ends ended (λ h. cc)
        (rw (Holds-done _ (socks5_ctx_free c) (socks5_ctx_free-owned c) e) refl)
  event_cb-Acts other = Acts.rests refl

  pub callback-Acts : (a : Arrival) → Holds (Acts c) (callback env c a)
  callback-Acts (arrives input) = read_cb-Acts input
  callback-Acts written = write_cb-Acts
  callback-Acts (happens e) = event_cb-Acts e
