-- ===== src/Relay/Control/Nuking.antt =====
-- What a nuke does to the messages of others: handleNukeRecipient, handleAckNuke and
-- handleSendMessage of wiltkey_server/handlers.go.
use wilt_key.Prelude.{ℕ, ◌+◌, ◌≡◌, ◌≤◌, true, false, ◌==◌, eq_refl, arith}
use wilt_key.Prelude.GoMap.{lookup-insert_self}
use wilt_key.Redis.{RedisClient}
use wilt_key.Redis.Queue
use wilt_key.Redis.Blocks
use wilt_key.Redis.Blocks.{nuke_block_ttl}
use wilt_key.Redis.Blocks.Laws.{blocked-unblock}
use wilt_key.Redis.Limits
use wilt_key.Relay.{Env, World, Client, WsMessage, Op, send_json, error}
use wilt_key.Relay.Send.{handle_send_message}
use wilt_key.Relay.Control.{
  send_if_online, nuke, handle_nuke_recipient, handle_ack_nuke, nuke_limit_per_hour,
}

-- To a locked recipient nothing is sent: the sender is told, and all else is as before.
pub send_to_locked :
    (env : Env) (w : World) (c : Client) (msg : WsMessage)
    → (msg.recipient_id == "") ≡ false
    → env.fails Op.queue_blocked msg.recipient_id ≡ false
    → Blocks.is_queue_blocked w.redis env.now msg.recipient_id ≡ true
    → handle_send_message env w c msg
      ≡ send_json w c (error "Recipient queue is locked due to active Nuke command")
unfolding handle_send_message
send_to_locked env w c msg named works locked = ground arith

-- A nuke of a named recipient that passes its rate limit locks his queue for the time of the lock,
-- where neither the check of the limit nor the lock itself fails.
pub nuke_locks :
    (env : Env) (w : World) (c : Client) (msg : WsMessage) (later : ℕ)
    → (msg.recipient_id == "") ≡ false
    → env.fails Op.allow_nuke c.id ≡ false
    → (Limits.allow_nuke w.redis env.now c.id nuke_limit_per_hour).0 ≡ true
    → env.fails Op.block_queue msg.recipient_id ≡ false
    → later ≤ env.now + nuke_block_ttl
    → Blocks.is_queue_blocked (handle_nuke_recipient env w c msg).redis later msg.recipient_id
      ≡ true
unfolding handle_nuke_recipient nuke send_if_online send_json Queue.add_message_to_queue
    Blocks.block_queue Blocks.is_queue_blocked
nuke_locks env w c msg later named works allowed locks soon =
    let passed : RedisClient = (Limits.allow_nuke w.redis env.now c.id nuke_limit_per_hour).1 in
    ground
      (arith, lookup-insert_self passed.memory_blocks msg.recipient_id (env.now + nuke_block_ttl))

-- The recipient's acknowledgement unlocks it.
pub ack_unlocks :
    (env : Env) (w : World) (c : Client) (later : ℕ)
    → env.fails Op.unblock_queue c.id ≡ false
    → Blocks.is_queue_blocked (handle_ack_nuke env w c).redis later c.id ≡ false
unfolding handle_ack_nuke send_json
ack_unlocks env w c later works =
    ground (arith, blocked-unblock w.redis later c.id c.id, eq_refl c.id)
