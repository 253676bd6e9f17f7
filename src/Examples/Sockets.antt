-- ===== src/Examples/Sockets.antt =====
-- Concrete inputs to the laws of the hub.
use wilt_key.Prelude.{ℕ, ◌≡◌, ◌≢◌, ◌<◌, refl, true, false, none, some, [], arith}
use wilt_key.Prelude.GoMap.{lookup, insert, empty}
use wilt_key.Relay.{Client}
use wilt_key.Relay.Hub.{Hub, register, unregister, registers, unregisters, done, turn}
use wilt_key.Relay.Hub.Lifetimes.{
  Open, closed_once, Turns-Open, spared, and_then, other_goes, Spared-stays,
}

abbrev empty_hub : Hub
empty_hub = record { clients = empty; closed = []; accepted = 0 }

empty_hub-Open : Open empty_hub
unfolding closed_once lookup empty
empty_hub-Open = record {
  own = λ id c e. elim (none_left c e) [ ];
  open_channel = λ id c e. refl;
  one_user = λ i j c d e f g. elim (none_left c e) [ ];
  once = refl;
  earlier = λ id c e. elim (none_left c e) [ ];
  closed_earlier = λ n e. elim (none_closed e) [ ];
}
  where
    none_left : (c : Client) → none ≢ some c
    none_left c e = ground arith

    none_closed : false ≢ true
    none_closed e = ground arith

-- Ann comes, comes again, and her first socket ends late.
abbrev both : Hub
both = register (register empty_hub "ann") "ann"

Turns-Open_example : Open (unregister both (record { id = "ann"; conn = 0 }))
Turns-Open_example =
    Turns-Open empty_hub (unregister both (record { id = "ann"; conn = 0 }))
      (turn (turn (turn done (registers "ann")) (registers "ann"))
        (unregisters (record { id = "ann"; conn = 0 })))
      empty_hub-Open

abbrev second_socket : Client
second_socket = record { id = "ann"; conn = 1 }

sockets_differ : (m n : ℕ) → m < n → m ≢ n
sockets_differ m n l e = omega (arith, e)

Spared-stays_example :
    lookup (unregister both (record { id = "ann"; conn = 0 })).clients "ann" ≡ some second_socket
unfolding register lookup insert empty
Spared-stays_example =
    Spared-stays second_socket both (unregister both (record { id = "ann"; conn = 0 }))
      (and_then spared
        (other_goes (record { id = "ann"; conn = 0 }) (sockets_differ 0 1 (omega arith))))
      refl
