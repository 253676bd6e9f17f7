-- ===== src/Relay/Send.antt =====
-- handleSendMessage and routeSmallMessage of wiltkey_server/handlers.go.
use wilt_key.Prelude.{ℕ, suc, ◌+◌, String, not, ◌&&◌, Option, none, some, ◌==◌, leb, if◌then◌else◌}
use wilt_key.Prelude.Text.{len}
use wilt_key.Prelude.GoMap.{lookup, insert}
use wilt_key.Time.{unix}
use wilt_key.Redis.Queue
use wilt_key.Redis.Blocks
use wilt_key.Db.Messages
use wilt_key.Storage.{upload_url}
use wilt_key.Relay.{
  Env, World, Client, WsMessage, Frame, send_json, start_wake, notify, remove_stored, queue_blocked,
  add_to_queue, store_message, remove_message, upload, large_payload_threshold, error, new_message,
  file_offer,
}
use wilt_key.Relay.Premium.{hold_ttl_for_recipient, sender_gates}

-- Under memory pressure: stored in Postgres, and dropped again once it is sent.
unfoldable pub park_inline : Env → World → Client → String → String → String → ℕ → World
unfolding send_json start_wake
park_inline env w c recipient_id envelope content_type hold_ttl =
    let id = env.uuid w.draws in
    let db' =
      Messages.store_message w.db env.now id recipient_id c.id (some envelope) none content_type
        hold_ttl in
    let w' = record w { db = db'; draws = suc w.draws } in
    elim (lookup w.clients recipient_id) [
      | some target ↦
          let sent = send_json w' target (new_message c.id envelope content_type "") in
          if env.fails remove_message id
          then sent
          else record sent { db = Messages.delete_message db' id }
      | none ↦ start_wake w' recipient_id c.id content_type
    ]

-- The text is that of the error returned.
unfoldable pub route_small_message :
    Env → World → Client → String → String → String → ℕ → Option String × World
unfolding park_inline send_json start_wake
route_small_message env w c recipient_id envelope content_type hold_ttl =
    if env.has_pg && env.high_ram
    then (if env.fails store_message recipient_id
        then (some "postgres inline store", w)
        else (none, park_inline env w c recipient_id envelope content_type hold_ttl))
    else elim (lookup w.clients recipient_id) [
      | some target ↦ (none, send_json w target (new_message c.id envelope content_type ""))
      | none ↦ if env.fails add_to_queue recipient_id then (some "redis queue", w) else (
        none,
        start_wake
            (record w {
              redis =
                  Queue.add_message_to_queue w.redis env.now recipient_id c.id envelope content_type
                    hold_ttl;
            })
            recipient_id c.id content_type,
      )
    ]

-- What the recipient of a stored file is sent: the offer, or the whole envelope where that could
-- not be read.
unfoldable pub file_frame : Env → Client → WsMessage → String → ℕ → Option String → Frame
file_frame env c msg message_id hold_ttl none =
    new_message c.id msg.envelope msg.content_type message_id
file_frame env c msg message_id hold_ttl (some offer_meta) =
    file_offer c.id msg.content_type message_id offer_meta (len msg.envelope)
      (unix (env.now + hold_ttl))

abbrev pub or_blank : Option String → String
or_blank none = ""
or_blank (some s) = s

-- Stores the row that points to the object at `url`, and tells the recipient.
unfoldable pub point_and_notify : Env → World → Client → WsMessage → String → String → ℕ → World
unfolding notify file_frame
point_and_notify env w c msg recipient_id url hold_ttl =
    let id = env.uuid w.draws in
    let meta = env.offer_meta msg.envelope in
    notify
      (record w {
        db =
            Messages.store_message_sized w.db env.now id recipient_id c.id none (some url)
              msg.content_type hold_ttl (len msg.envelope) (or_blank meta);
        draws = suc w.draws;
      })
      recipient_id c.id msg.content_type (file_frame env c msg id hold_ttl meta)

-- The object is stored under a fresh key.
unfoldable pub put_object : Env → World → String → World
put_object env w body = record w {
  bucket = insert w.bucket (env.uuid w.draws) body;
  draws = suc w.draws;
}

unfoldable pub send_large : Env → World → Client → WsMessage → ℕ → World
unfolding send_json put_object point_and_notify remove_stored
send_large env w c msg hold_ttl =
    if not env.has_pg
    then send_json w c (error "Postgres and storage must be configured to process large payloads")
    else (let key = env.uuid w.draws in
        if env.fails upload key
        then send_json (record w { draws = suc w.draws }) c
            (error "Failed to upload large file to storage")
        else (let w' = put_object env w msg.envelope in
            if env.fails store_message msg.recipient_id
            then send_json (remove_stored env w' key) c
                (error "Failed to store message metadata in database")
            else point_and_notify env w' c msg msg.recipient_id (upload_url env.storage key)
                hold_ttl))

-- Past the gates.
unfoldable pub route_message : Env → World → Client → WsMessage → World
unfolding hold_ttl_for_recipient send_large route_small_message send_json
route_message env w c msg =
    let (hold_ttl, w') = hold_ttl_for_recipient env w msg.recipient_id in
    if leb large_payload_threshold (len msg.envelope)
    then send_large env w' c msg hold_ttl
    else (let (failure, w'') =
          route_small_message env w' c msg.recipient_id msg.envelope msg.content_type hold_ttl in
        elim failure [ none ↦ w'' | some e ↦ send_json w'' c (error "Failed to route message") ])

unfoldable pub handle_send_message : Env → World → Client → WsMessage → World
unfolding sender_gates route_message send_json
handle_send_message env w c msg =
    if msg.recipient_id == ""
    then send_json w c (error "Missing recipient_id")
    else if env.fails queue_blocked msg.recipient_id
    then send_json w c (error "Database error checking queue status")
    else if Blocks.is_queue_blocked w.redis env.now msg.recipient_id
    then send_json w c (error "Recipient queue is locked due to active Nuke command")
    else (let (refusal, w') = sender_gates env w c (len msg.envelope) in
        elim refusal [ some e ↦ send_json w' c (error e) | none ↦ route_message env w' c msg ])
