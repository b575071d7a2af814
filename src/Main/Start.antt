-- ===== src/Main/Start.antt =====
-- What the program does with its configuration (vcmp/main.c).
use vcmp.Prelude.{ℕ, ◌≡◌, Option, some, List, true, Bytes}
use vcmp.Ini.{Text}
use vcmp.Ini.Lookup.{Assignment, first_value}
use vcmp.Randdata.{codes}
use vcmp.Main.{Env}

-- The addresses and the ports that a configuration gives to the two parts.
pub record Settings : Type 0 where
  pub listener_ip : Bytes
  pub listener_port : Bytes
  pub api_ip : Bytes
  pub api_port : Bytes

-- The lines give these settings.
pub record Gives (lines : List Assignment) (settings : Settings) : Type 0 where
  pub listener_ip :
      first_value lines (some (codes "listener")) (codes "address") ≡ some settings.listener_ip
  pub listener_port :
      first_value lines (some (codes "listener")) (codes "port") ≡ some settings.listener_port
  pub api_ip : first_value lines (some (codes "wsapi")) (codes "address") ≡ some settings.api_ip
  pub api_port : first_value lines (some (codes "wsapi")) (codes "port") ≡ some settings.api_port

module _ {K C : Type 0} (env : Env K C) (memory : (n : ℕ) → env.malloc n ≡ true) where
  abbrev text_at : ℕ → Bytes → Option Text
  text_at n bytes = some (record { block = n; bytes = bytes })
