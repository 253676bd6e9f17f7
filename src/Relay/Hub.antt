-- ===== src/Relay/Hub.antt =====
-- The hub of wiltkey_server/websocket.go: which socket is registered for a user, and which send
-- channels were closed. ServeWS makes a client and hands it to `register`; readPump hands it to
-- `unregister` when its socket ends, and SendJSON when its channel is full, each perhaps again and
-- perhaps late.
pub mod Lifetimes
use wilt_key.Prelude.{
  ℕ, suc, String, Bool, true, false, Option, none, some, List, [], ◌∷◌, ◌==◌, eqb, if◌then◌else◌,
}
use wilt_key.Prelude.GoMap.{GoMap, lookup, insert, delete}
use wilt_key.Relay.{Client}

-- `accepted` counts the sockets so far, and is the number of the next; `closed` lists the sockets
-- whose send channel was closed, last first.
pub record Hub : Type 0 where
  pub clients : GoMap Client
  pub closed : List ℕ
  pub accepted : ℕ

-- The client that ServeWS makes for the next socket.
abbrev pub new_client : Hub → String → Client
new_client h id = record { id = id; conn = h.accepted }

unfoldable pub register : Hub → String → Hub
register h id = record h {
  clients = insert h.clients id (new_client h id);
  accepted = suc h.accepted;
}

-- cur == client
abbrev pub is_registered : Hub → Client → Bool
is_registered h c = elim (lookup h.clients c.id) [ none ↦ false | some cur ↦ eqb cur.conn c.conn ]

unfoldable pub unregister : Hub → Client → Hub
unregister h c =
    if is_registered h c
    then record h { clients = delete h.clients c.id; closed = c.conn ∷ h.closed }
    else h

-- The turns of Run. A client that is unregistered was made before.
pub data Turn : Hub → Hub → Type 0 where
  registers : {h : Hub} (id : String) → Turn h (register h id)
  unregisters : {h : Hub} (c : Client) → Turn h (unregister h c)

pub data Turns : Hub → Hub → Type 0 where
  done : {h : Hub} → Turns h h
  turn : {h k l : Hub} → Turns h k → Turn k l → Turns h l
