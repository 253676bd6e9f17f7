-- ===== src/Relay/Control.antt =====
-- Typing updates and nukes: handleTypingStatus, handleNukeRecipient and handleAckNuke of
-- wiltkey_server/handlers.go.
pub mod Nuking
use wilt_key.Prelude.{ℕ, ◌*◌, String, not, Option, none, some, ◌==◌, if◌then◌else◌}
use wilt_key.Prelude.GoMap.{lookup}
use wilt_key.Time.{day}
use wilt_key.Redis.{RedisClient}
use wilt_key.Redis.Queue
use wilt_key.Redis.Blocks
use wilt_key.Redis.Limits
use wilt_key.Relay.{
  Env, World, Client, WsMessage, Frame, Op, send_json, add_to_queue, unblock_queue, error, status,
  new_message, peer_typing_status,
}

-- Sends to the user's connection if there is one.
unfoldable pub send_if_online : World → String → Frame → World
unfolding send_json
send_if_online w user_id frame = elim (lookup w.clients user_id) [
  | none ↦ w
  | some target ↦ send_json w target frame
]

unfoldable pub handle_typing_status : World → Client → WsMessage → World
unfolding send_if_online
handle_typing_status w c msg =
    if msg.recipient_id == ""
    then w
    else send_if_online w msg.recipient_id (peer_typing_status c.id msg.status)

abbrev pub nuke_limit_per_hour : ℕ
nuke_limit_per_hour = 10

-- Locks the queue, queues the payload (a failure is only logged), and sends it at once to a
-- recipient who is online.
unfoldable pub nuke : Env → World → Client → WsMessage → World
unfolding send_if_online
nuke env w c msg =
    let locked = Blocks.block_queue w.redis env.now msg.recipient_id in
    let queued : RedisClient =
      if env.fails add_to_queue msg.recipient_id
      then locked
      else Queue.add_message_to_queue locked env.now msg.recipient_id c.id msg.nuke_envelope "nuke"
          (7 * day) in
    send_if_online (record w { redis = queued }) msg.recipient_id
      (new_message c.id msg.nuke_envelope "nuke" "")

unfoldable pub handle_nuke_recipient : Env → World → Client → WsMessage → World
unfolding nuke send_json
handle_nuke_recipient env w c msg =
    if msg.recipient_id == ""
    then w
    else if env.fails Op.allow_nuke c.id
    then send_json w c (error "Nuke rate check failed")
    else (let (allowed, redis') = Limits.allow_nuke w.redis env.now c.id nuke_limit_per_hour in
        let w' = record w { redis = redis' } in
        if not allowed
        then send_json w' c (error "Nuke rate limit exceeded")
        else if env.fails Op.block_queue msg.recipient_id
        then send_json w' c (error "Failed to apply nuke lock")
        else nuke env w' c msg)

unfoldable pub handle_ack_nuke : Env → World → Client → World
unfolding send_json
handle_ack_nuke env w c =
    if env.fails unblock_queue c.id
    then send_json w c (error "Failed to unblock queue")
    else send_json (record w { redis = Blocks.unblock_queue w.redis c.id }) c
        (status "Queue unblocked successfully")
