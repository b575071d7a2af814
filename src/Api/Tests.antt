-- ===== src/Api/Tests.antt =====
-- Two clients, of which the first is the user.
use vcmp.Prelude.{◌≡◌, refl, none, some, [], ◌∷◌, true, done, ◌==◌, if◌then◌else◌}
use vcmp.Libevent.{Input}
use vcmp.Handshake.Tests.{Table}
use vcmp.Frame.{ws_parse_frame}
use vcmp.WebSockets.{accept_conn_cb}
use vcmp.WebSockets.Tests.{env, new_client, old_client}
use vcmp.Api.World.{World, set_at, Happens, connects}
use vcmp.Api.Addresses.{UserIsOpen}
use vcmp.Api.User.{Happens-UserIsOpen, unmasked_user}

-- Bufferevents 1 and 2 are open, and 1 is the user.
abbrev two_clients : World
two_clients = record {
  open_bevs = λ j. if j == 1 then some old_client else if j == 2 then some new_client else none;
  user = some 1;
}

two_clients-UserIsOpen : UserIsOpen two_clients
two_clients-UserIsOpen = (old_client, refl, refl)

Happens-UserIsOpen_example : UserIsOpen (record {
  open_bevs = set_at two_clients.open_bevs 3 (accept_conn_cb true true);
  user = some 1;
})
Happens-UserIsOpen_example =
    Happens-UserIsOpen {H = Table} {w = two_clients} two_clients-UserIsOpen (connects 3 refl) tt

abbrev unmasked : Input
unmasked = record { length = 2; extent = 129 ∷ 0 ∷ [] }

unmasked_run : ws_parse_frame (129 ∷ 0 ∷ []) 2 ≡ done none
unfolding ws_parse_frame
unmasked_run = refl

unmasked_user_example :
    (w' : World) × (w'' : World) × Happens Table two_clients w'
    × Happens Table w' w''
    × (w'.user ≡ some 1)
    × (w'.open_bevs 1 ≡ none)
    × (w''.user ≡ some 1)
    × (w''.open_bevs 1 ≡ accept_conn_cb true true)
unmasked_user_example =
    unmasked_user two_clients env 1 old_client unmasked refl refl refl unmasked_run
