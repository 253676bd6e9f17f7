-- ===== src/Relay/Flood.antt =====
-- readPump of wiltkey_server/websocket.go: the loop over the frames of a registered socket, with its
-- flood guard. The bucket of tokens is a float64 in the source, whose rounding is left out: it is
-- counted here in units of which a token has 10^7, so that 100 tokens a second are one unit a
-- nanosecond. The read limit, the deadlines and the pongs are the socket's.
pub mod Metering
pub mod Pacing
use wilt_key.Prelude.{
  ℕ, ◌+◌, ◌-◌, ◌*◌, ◌^◌, String, Bool, Option, none, some, List, [], ◌∷◌, ◌==◌, eqb, if◌then◌else◌,
}
use wilt_key.Prelude.Int.{ℤ, pos, ◌+ℤ◌, ◌-ℤ◌, ltb_ℤ}
use wilt_key.Prelude.GoMap.{lookup, delete}
use wilt_key.Relay.{Env, World, Client, WsMessage, error, send_json}
use wilt_key.Relay.Broadcast.{handle_broadcast_group_message}
use wilt_key.Relay.Dispatch.{handle_ws_message}

abbrev pub token : ℕ
token = 10 ^ 7

abbrev pub ws_bucket_capacity : ℕ
ws_bucket_capacity = 200 * token

-- The fields `tokens` and `lastRefill` of Client.
pub record Bucket : Type 0 where
  pub tokens : ℤ
  pub last_refill : ℕ

-- The bucket that ServeWS gives a client.
abbrev pub full_bucket : ℕ → Bucket
full_bucket now = record { tokens = pos ws_bucket_capacity; last_refill = now }

abbrev pub at_most : ℤ → ℤ → ℤ
at_most cap a = if ltb_ℤ cap a then cap else a

unfoldable pub refill : Bucket → ℕ → Bucket
refill b now = record {
  tokens = at_most (pos ws_bucket_capacity) (b.tokens +ℤ pos (now - b.last_refill));
  last_refill = now;
}

-- `none` where the client is over the limit.
unfoldable pub take : Bucket → ℕ → Option Bucket
unfolding refill
take b now =
    let b' = refill b now in
    if ltb_ℤ b'.tokens (pos token)
    then none
    else some (record b' { tokens = b'.tokens -ℤ pos token })

unfoldable pub charge : Bucket → ℕ → Bucket
charge b n = record b { tokens = b.tokens -ℤ pos (n * token) }

-- What ReadMessage and Unmarshal yield.
pub data Inbound : Type 0 where
  broken malformed : Inbound
  message : WsMessage → Inbound

-- A frame with what its handler meets, the time of its arrival among it.
pub record Arrival : Type 0 where
  pub env : Env
  pub inbound : Inbound

-- Of Hub.Run, the case of unregister.
unfoldable pub retire : World → Client → World
retire w c = elim (lookup w.clients c.id) [
  | none ↦ w
  | some cur ↦ if eqb cur.conn c.conn then record w { clients = delete w.clients c.id } else w
]

-- The tokens that the handler of a frame takes from the bucket.
unfoldable pub charged : Env → World → Client → WsMessage → ℕ
unfolding handle_broadcast_group_message
charged env w c msg =
    if msg.type == "BROADCAST_GROUP_MESSAGE"
    then (handle_broadcast_group_message env w c msg).0
    else 0

-- How the loop stands behind the frames: it was left at a broken socket or over the limit, or it
-- awaits the next one.
pub data Finish : Type 0 where
  ended cut_off awaiting : Finish

-- One turn of the loop: it is left, or it goes on with the bucket.
pub data Turn : Type 0 where
  stops : Finish → World → Turn
  goes_on : World → Bucket → Turn

unfoldable pub read_one : World → Client → Bucket → Env → Inbound → Turn
unfolding take charge charged retire send_json handle_ws_message
read_one w c b env broken = stops ended (retire w c)
read_one w c b env malformed = elim (take b env.now) [
  | none ↦ stops cut_off (retire (send_json w c (error "Rate limit exceeded — slow down")) c)
  | some b' ↦ goes_on (send_json w c (error "Invalid JSON format")) b'
]
read_one w c b env (message msg) = elim (take b env.now) [
  | none ↦ stops cut_off (retire (send_json w c (error "Rate limit exceeded — slow down")) c)
  | some b' ↦ goes_on (handle_ws_message env w c msg) (charge b' (charged env w c msg))
]

unfoldable pub read_pump : World → Client → Bucket → List Arrival → Finish × World
unfolding read_one
read_pump w c b [] = (awaiting, w)
read_pump w c b (a ∷ rest) = elim (read_one w c b a.env a.inbound) [
  | stops f w' ↦ (f, w')
  | goes_on w' b' ↦ read_pump w' c b' rest
]
