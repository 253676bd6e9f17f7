-- ===== src/Relay/Broadcast.antt =====
-- handleBroadcastGroupMessage and broadcastLargeFile of wiltkey_server/handlers.go.
pub mod Recipients
use wilt_key.Prelude.{
  ℕ, suc, ◌-◌, ◌+◌, String, Bool, true, false, not, ◌||◌, Option, none, some, List, [], ◌∷◌, ◌==◌,
  ltb, leb, eqb, length, if◌then◌else◌,
}
use wilt_key.Prelude.Text.{len}
use wilt_key.Redis.Blocks
use wilt_key.Db.Messages.{contains}
use wilt_key.Storage.{upload_url}
use wilt_key.Relay.{
  Env, World, Client, WsMessage, Op, send_json, remove_stored, queue_blocked, store_message, upload,
  large_payload_threshold, max_broadcast_recipients, error,
}
use wilt_key.Relay.Premium.{hold_ttl_for_recipient, sender_gates}
use wilt_key.Relay.Send.{route_small_message, point_and_notify, put_object}

-- The recipients in order, without empty ids, the sender and repetitions.
unfoldable pub distinct_recipients : String → List String → List String → List String
distinct_recipients self seen [] = []
distinct_recipients self seen (r ∷ rs) = elim (r == "" || (r == self || contains r seen)) [
  | true ↦ distinct_recipients self seen rs
  | false ↦ r ∷ distinct_recipients self (r ∷ seen) rs
]

-- One turn of the loop over small messages: whatever fails is skipped.
unfoldable pub fan_out_one : Env → World → Client → WsMessage → String → World
unfolding hold_ttl_for_recipient route_small_message
fan_out_one env w c msg rid =
    if env.fails queue_blocked rid
    then w
    else if Blocks.is_queue_blocked w.redis env.now rid
    then w
    else (let (hold_ttl, w') = hold_ttl_for_recipient env w rid in
        (route_small_message env w' c rid msg.envelope msg.content_type hold_ttl).1)

unfoldable pub fan_out : Env → World → Client → WsMessage → List String → World
unfolding fan_out_one
fan_out env w c msg [] = w
fan_out env w c msg (rid ∷ rids) = fan_out env (fan_out_one env w c msg rid) c msg rids

-- One turn of the loop over pointers: whether one was stored.
unfoldable pub point_one : Env → World → Client → WsMessage → String → String → Bool × World
unfolding hold_ttl_for_recipient point_and_notify
point_one env w c msg url rid =
    if env.fails queue_blocked rid
    then (false, w)
    else if Blocks.is_queue_blocked w.redis env.now rid
    then (false, w)
    else (let (hold_ttl, w') = hold_ttl_for_recipient env w rid in
        if env.fails store_message rid
        then (false, w')
        else (true, point_and_notify env w' c msg rid url hold_ttl))

-- The number of pointers stored, and the state.
unfoldable pub point_all : Env → World → Client → WsMessage → String → List String → ℕ × World
unfolding point_one
point_all env w c msg url [] = (0, w)
point_all env w c msg url (rid ∷ rids) =
    let (stored, w') = point_one env w c msg url rid in
    let (delivered, w'') = point_all env w' c msg url rids in
    (if stored then suc delivered else delivered, w'')

unfoldable pub broadcast_large_file : Env → World → Client → WsMessage → List String → World
unfolding send_json put_object point_all remove_stored
broadcast_large_file env w c msg recipients =
    if not env.has_pg
    then send_json w c (error "Postgres and storage must be configured to process large payloads")
    else (let key = env.uuid w.draws in
        if env.fails upload key
        then send_json (record w { draws = suc w.draws }) c
            (error "Failed to upload large file to storage")
        else (let (delivered, w') =
              point_all env (put_object env w msg.envelope) c msg (upload_url env.storage key)
                recipients in
            if eqb delivered 0 then remove_stored env w' key else w'))

unfoldable pub deliver_to_group : Env → World → Client → WsMessage → List String → World
unfolding sender_gates broadcast_large_file fan_out send_json
deliver_to_group env w c msg recipients =
    let (refusal, w') = sender_gates env w c (len msg.envelope) in
    elim refusal [
      | some e ↦ send_json w' c (error e)
      | none ↦
          if leb large_payload_threshold (len msg.envelope)
          then broadcast_large_file env w' c msg recipients
          else fan_out env w' c msg recipients
    ]

-- The tokens that the frame costs beyond its first, and the state.
unfoldable pub handle_broadcast_group_message : Env → World → Client → WsMessage → ℕ × World
unfolding distinct_recipients deliver_to_group send_json
handle_broadcast_group_message env w c msg =
    let recipients = distinct_recipients c.id [] msg.recipients in
    if eqb (length recipients) 0
    then (0, send_json w c (error "No recipients"))
    else if ltb max_broadcast_recipients (length recipients)
    then (0, send_json w c (error "Too many recipients"))
    else (length recipients - 1, deliver_to_group env w c msg recipients)
