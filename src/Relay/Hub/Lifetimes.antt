-- ===== src/Relay/Hub/Lifetimes.antt =====
-- How long a client of the hub of wiltkey_server/websocket.go stays registered, and how often its
-- channel is closed.
use wilt_key.Prelude.{
  ℕ, ◌≡◌, ◌≢◌, ◌<◌, refl, String, Bool, true, false, not, ◌&&◌, Option, none, some, List, [], ◌∷◌,
  eq_iff, eqb, any, arith, if_split,
}
use wilt_key.Prelude.GoMap.{lookup, delete, lookup-insert, lookup-delete}
use wilt_key.Relay.{Client}
use wilt_key.Relay.Hub.{
  Hub, new_client, register, is_registered, unregister, Turn, Turns, registers, unregisters, done,
  turn,
}

-- The channel of the socket `n` was closed.
abbrev pub is_closed : ℕ → List ℕ → Bool
is_closed n = any (λ m. eqb m n)

unfoldable pub closed_once : List ℕ → Bool
closed_once [] = true
closed_once (n ∷ ns) = not (is_closed n ns) && closed_once ns

-- Registered sockets are open, each for one user; no channel was closed twice; and every socket has
-- an earlier number than the next.
pub record Open (h : Hub) : Type 0 where
  pub own : (id : String) (c : Client) → lookup h.clients id ≡ some c → c.id ≡ id
  pub open_channel :
      (id : String) (c : Client) → lookup h.clients id ≡ some c → is_closed c.conn h.closed ≡ false
  pub one_user :
      (i j : String) (c d : Client)
      → lookup h.clients i ≡ some c
      → lookup h.clients j ≡ some d
      → c.conn ≡ d.conn
      → i ≡ j
  pub once : closed_once h.closed ≡ true
  pub earlier : (id : String) (c : Client) → lookup h.clients id ≡ some c → c.conn < h.accepted
  pub closed_earlier : (n : ℕ) → is_closed n h.closed ≡ true → n < h.accepted

register-Open : (h : Hub) (id : String) → Open h → Open (register h id)
unfolding register
register-Open h id o = record {
  own = λ i c e.
      ground (arith, o.own i c, lookup-insert h.clients id i (new_client h id), eq_iff id i);
  open_channel = λ i c e. ground (
    arith,
    o.open_channel i c,
    lookup-insert h.clients id i (new_client h id),
    eq_iff id i,
    o.closed_earlier h.accepted,
  );
  one_user = λ i j c d e f g. ground (
    arith,
    o.one_user i j c d,
    o.earlier i c,
    o.earlier j d,
    lookup-insert h.clients id i (new_client h id),
    lookup-insert h.clients id j (new_client h id),
    eq_iff id i,
    eq_iff id j,
  );
  once = o.once;
  earlier = λ i c e.
      ground (arith, o.earlier i c, lookup-insert h.clients id i (new_client h id), eq_iff id i);
  closed_earlier = λ n e. ground (arith, o.closed_earlier n);
}

drop-Open :
    (h : Hub) (c cur : Client)
    → lookup h.clients c.id ≡ some cur
    → cur.conn ≡ c.conn
    → Open h
    → Open (record h { clients = delete h.clients c.id; closed = c.conn ∷ h.closed })
unfolding closed_once
drop-Open h c cur found same o = record {
  own = λ i d e. ground (arith, o.own i d, lookup-delete h.clients c.id i);
  open_channel = λ i d e. ground (
    arith,
    o.open_channel i d,
    o.one_user c.id i cur d found,
    lookup-delete h.clients c.id i,
    eq_iff c.id i,
  );
  one_user = λ i j d d' e f g.
      ground (
        arith,
        o.one_user i j d d',
        lookup-delete h.clients c.id i,
        lookup-delete h.clients c.id j,
      );
  once = ground (arith, o.once, o.open_channel c.id cur found);
  earlier = λ i d e. ground (arith, o.earlier i d, lookup-delete h.clients c.id i);
  closed_earlier = λ n e. ground (arith, o.closed_earlier n, o.earlier c.id cur found);
}

unregister-Open : (h : Hub) (c : Client) → Open h → Open (unregister h c)
unfolding unregister
unregister-Open h c o =
    if_split Open (is_registered h c) (λ held. by_client (lookup h.clients c.id) refl held) (λ _. o)
  where
    by_client :
        (found : Option Client)
        → lookup h.clients c.id ≡ found
        → (elim found [ none ↦ false | some cur ↦ eqb cur.conn c.conn ]) ≡ true
        → Open (record h { clients = delete h.clients c.id; closed = c.conn ∷ h.closed })
    by_client none e held = let clash : false ≢ true = λ f. ground arith in elim (clash held) [ ]
    by_client (some cur) e held = drop-Open h c cur e (ground arith) o

Turn-Open : (h k : Hub) → Turn h k → Open h → Open k
Turn-Open h _ (registers id) o = register-Open h id o
Turn-Open h _ (unregisters c) o = unregister-Open h c o

-- From an open hub, whatever sockets come and go, and however often and late each is unregistered:
-- no send channel is ever closed twice, and that of a registered client is open.
pub Turns-Open : (h k : Hub) → Turns h k → Open h → Open k
Turns-Open h _ done o = o
Turns-Open h l (turn {k = k} ts t) o = Turn-Open k l t (Turns-Open h k ts o)

-- A turn that is not the client's own end, and does not bring his user on another socket.
pub data Spares (c : Client) : Hub → Hub → Type 0 where
  other_comes : {h : Hub} (id : String) → id ≢ c.id → Spares c h (register h id)
  other_goes : {h : Hub} (d : Client) → d.conn ≢ c.conn → Spares c h (unregister h d)

pub data Spared (c : Client) : Hub → Hub → Type 0 where
  spared : {h : Hub} → Spared c h h
  and_then : {h k l : Hub} → Spared c h k → Spares c k l → Spared c h l

Spares-stays :
    (c : Client) (h k : Hub)
    → Spares c h k
    → lookup h.clients c.id ≡ some c
    → lookup k.clients c.id ≡ some c
unfolding register unregister
Spares-stays c h _ (other_comes id other) held =
    ground (arith, lookup-insert h.clients id c.id (new_client h id), eq_iff id c.id)
Spares-stays c h _ (other_goes d other) held =
    ground (arith, lookup-delete h.clients d.id c.id, eq_iff d.id c.id)

-- A client stays registered as long as neither he himself is unregistered nor his user comes with
-- another socket: in particular, an older socket of the same user that ends late does not evict him.
pub Spared-stays :
    (c : Client) (h k : Hub)
    → Spared c h k
    → lookup h.clients c.id ≡ some c
    → lookup k.clients c.id ≡ some c
Spared-stays c h _ spared held = held
Spared-stays c h l (and_then {k = k} ts t) held = Spares-stays c k l t (Spared-stays c h k ts held)
