-- ===== src/Main.antt =====
-- The start of the program (vcmp/main.c).
pub mod TextFile
pub mod Start
mod Tests
use vcmp.Prelude.{
  ℕ, suc, ◌-◌, ◌%◌, ◌^◌, Option, none, some, List, [], ◌∷◌, ◌++◌, Bool, true, false, not, Outcome,
  done, fault, ◌>>=◌, Bytes, ℤ, pos, negsuc, ◌==◌, if◌then◌else◌,
}
use Prim.Native.String.{String}
use vcmp.Libevent.{Sockaddr}
use vcmp.Randdata.{codes}
use vcmp.Rsa.Openssl.{Evp}
use vcmp.Rsa.{rsa_generate}
use vcmp.Listener.Accept.{vcmp_listener_init}
use vcmp.Api.{vcmp_api_init}
use vcmp.Ini.{Text, Config}
use vcmp.Ini.Store.{ini_get_value}
use vcmp.Ini.Frees.{free_text, ini_free}
use vcmp.Ini.File.{Parsed, ini_parse}
use vcmp.Listener.Accept
use vcmp.WebSockets

-- A string literal.
abbrev pub literal : String → Bytes
literal s = codes s ++ (0 ∷ [])

abbrev pub config_path : Bytes
config_path = literal "resources/config.ini"

-- `(uint16_t)` of a `long`.
abbrev pub long_as_u16 : ℤ → ℕ
long_as_u16 (pos n) = n % 2 ^ 16
long_as_u16 (negsuc n) = 2 ^ 16 - 1 - n % 2 ^ 16

-- What the C library, libevent and OpenSSL answer. `strtol` gives its result, and whether it sets
-- `errno`. `event_base_new` tells whether there is a base.
pub record Env (K C : Type 0) : Type 0 where
  pub malloc : ℕ → Bool
  pub fopen : Bytes → Option Bytes
  pub fread : Bytes → Bool
  pub strtol : Bytes → ℤ × Bool
  pub event_base_new : Bool
  pub evp : Evp K C
  pub inet_pton : Bytes → Option ℕ
  pub listener_bind : Sockaddr → Bool
  pub api_bind : Sockaddr → Bool

-- A pointer variable: not yet written, or written.
pub data Local (A : Type 0) : Type 0 where
  unset : Local A
  written : Option A → Local A

-- `if (p)`, where `p` was written.
abbrev read_local : {A : Type 0} → Local A → Outcome (Option A)
read_local unset = fault
read_local (written p) = done p

-- The variables that are read behind `error`. The event base is one.
pub record Locals : Type 0 where
  pub base : Local (Unit {0})
  pub cfg : Option Config
  pub listener_port_str : Local Text
  pub api_port_str : Local Text

-- What is left at the end: the result, the blocks that were freed, whether the base was made, freed,
-- and dispatched before, and what the two parts have bound.
pub record Ended (K : Type 0) : Type 0 where
  pub status : ℕ
  pub freed : List ℕ
  pub base_freed : Bool
  pub dispatched : Bool
  pub listener : Option (Accept.Started K)
  pub api : Option WebSockets.Started

abbrev pub is_set : {A : Type 0} → Option A → Bool
is_set none = false
is_set (some a) = true

module _ {K C : Type 0} (env : Env K C) where
  -- Behind `error`, with the blocks freed before.
  unfoldable pub at_error :
      Locals → List ℕ → Option (Accept.Started K) → Option WebSockets.Started → Outcome (Ended K)
  unfolding free_text ini_free
  at_error locals freed listener api = do
    base ← read_local locals.base
    listener_port_str ← read_local locals.listener_port_str
    api_port_str ← read_local locals.api_port_str
    done (record {
      status = 1;
      freed =
          freed
          ++ ((ini_free locals.cfg).0 ++ (free_text listener_port_str ++ free_text api_port_str));
      base_freed = is_set base;
      dispatched = false;
      listener = listener;
      api = api;
    })

  -- `strtol` of a string that may be the null pointer.
  abbrev convert : Option Text → Outcome (ℤ × Bool)
  convert none = fault
  convert (some text) = done (env.strtol text.bytes)

  -- `vcmp_listener_init`, which passes the address to `inet_pton` once it has a key pair.
  unfoldable pub listener_init : Option Text → ℕ → Outcome (Accept.Started K)
  listener_init (some ip) port =
      done (vcmp_listener_init env.evp env.inet_pton env.listener_bind ip.bytes port)
  listener_init none port = elim (rsa_generate env.evp).0 [
    | none ↦ done (vcmp_listener_init env.evp env.inet_pton env.listener_bind [] port)
    | some keypair ↦ fault
  ]

  unfoldable pub api_init : Option Text → ℕ → Outcome (ℕ × WebSockets.Started)
  api_init none port = fault
  api_init (some ip) port = done (vcmp_api_init env.inet_pton env.api_bind ip.bytes port)

  -- Behind `event_base_new`: the strings of the ports are freed, and their variables are null.
  unfoldable pub start_parts : Option Text → ℕ → Option Text → ℕ → List ℕ → Outcome (Ended K)
  unfolding listener_init api_init at_error
  start_parts listener_ip listener_port api_ip api_port freed = do
    let locals : Locals = record {
      base = written (if env.event_base_new then some tt else none);
      cfg = none;
      listener_port_str = written none;
      api_port_str = written none;
    }
    if not env.event_base_new then at_error locals freed none none else (do
      listener ← listener_init listener_ip listener_port
      if not (listener.result == 0) then at_error locals freed (some listener) none else (do
        (failed, api) ← api_init api_ip api_port
        if not (failed == 0)
            then at_error locals freed (some listener) (some api)
            else done (record {
              status = 0;
              freed = freed;
              base_freed = true;
              dispatched = true;
              listener = some listener;
              api = some api;
            })))

  -- With the values of the configuration, which is freed: up to the conversion of the ports.
  unfoldable pub with_values :
      Option Text → Option Text → Option Text → Option Text → List ℕ → Outcome (Ended K)
  unfolding start_parts
  with_values listener_ip listener_port_str api_ip api_port_str freed = do
    let locals : Locals = record {
      base = unset;
      cfg = none;
      listener_port_str = written listener_port_str;
      api_port_str = written api_port_str;
    }
    (listener_port, failed) ← convert listener_port_str
    if failed then at_error locals freed none none else (do
      (api_port, failed') ← convert api_port_str
      if failed'
          then at_error locals freed none none
          else start_parts listener_ip (long_as_u16 listener_port) api_ip (long_as_u16 api_port)
              (freed ++ (free_text listener_port_str ++ free_text api_port_str)))

  -- With the result of `ini_parse`.
  unfoldable pub with_config : Parsed → Outcome (Ended K)
  unfolding with_values
  with_config parsed = elim parsed.result [
    | none ↦
        at_error
          (record { base = unset; cfg = none; listener_port_str = unset; api_port_str = unset })
          parsed.freed none none
    | some cfg ↦ do
      let section = some (literal "listener")
      let section' = some (literal "wsapi")
      (listener_ip, n) ←
          ini_get_value env.malloc parsed.allocations (some cfg) section (some (literal "address"))
      (listener_port_str, n') ←
          ini_get_value env.malloc n (some cfg) section (some (literal "port"))
      (api_ip, n'') ← ini_get_value env.malloc n' (some cfg) section' (some (literal "address"))
      (api_port_str, n''') ←
          ini_get_value env.malloc n'' (some cfg) section' (some (literal "port"))
      with_values listener_ip listener_port_str api_ip api_port_str
          (parsed.freed ++ (ini_free (some cfg)).0)
  ]

  -- `none` is that the fuel of the parser has run out.
  unfoldable pub main : Option (Outcome (Ended K))
  unfolding with_config
  main = elim (ini_parse env.malloc env.fopen env.fread 0 (some config_path)) [
    | none ↦ none
    | some parsing ↦ some (parsing >>= with_config)
  ]
