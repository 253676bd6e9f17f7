-- ===== src/Relay/Http/Queue.antt =====
-- handlePostQueue of wiltkey_server/main.go: a message that is posted without a connection, against
-- a proof of work or a voucher.
use wilt_key.Prelude.{
  suc, String, not, ◌&&◌, ◌||◌, Option, none, some, ◌==◌, ltb, leb, if◌then◌else◌,
}
use wilt_key.Prelude.Text.{len}
use wilt_key.Prelude.GoMap.{lookup}
use wilt_key.Redis.Queue
use wilt_key.Redis.Blocks
use wilt_key.Db.Messages
use wilt_key.Storage.{upload_url}
use wilt_key.Crypto.{Primitives, Voucher}
use wilt_key.Relay.{
  Env, World, start_wake, notify, send_json, remove_stored, queue_blocked, upload, store_message,
  remove_message, add_to_queue, free_max_payload, plus_max_payload, large_payload_threshold,
  new_message,
}
use wilt_key.Relay.Premium.{check_premium_subscription, holds, hold_ttl_for_recipient}
use wilt_key.Relay.Send.{put_object}
use wilt_key.Relay.Http.Protection.{PostMessageRequest, check_spam_protection}
use wilt_key.Relay.Http.{Reply, reply}

abbrev pub sender_of : Option Voucher → String
sender_of none = "offline_queue_router"
sender_of (some v) = v.sender_key_hash

-- The size limits; a payload of 5 MB or more needs a voucher whose sender has a subscription.
unfoldable pub check_size : Env → World → PostMessageRequest → Option Reply × World
unfolding check_premium_subscription
check_size env w req =
    if ltb plus_max_payload (len req.envelope)
    then (some (reply 413 "Payload exceeds the 50MB maximum"), w)
    else if leb free_max_payload (len req.envelope)
    then (elim req.voucher [
      | none ↦ (
        some (
            reply 403 "Payload >= 5MB requires sender identity via voucher for subscription check"),
        w,
      )
      | some v ↦
          let (has_sub, w') = check_premium_subscription env w v.sender_key_hash in
          (
            if holds has_sub
                then none
                else some (reply 403 "Payload >= 5MB requires an active premium subscription"),
            w',
          )
    ])
    else (none, w)

unfoldable pub post_large : Env → World → PostMessageRequest → Reply × World
unfolding put_object hold_ttl_for_recipient notify remove_stored
post_large env w req =
    let key = env.uuid w.draws in
    let sender_id = sender_of req.voucher in
    if not env.has_pg
    then (reply 500 "Postgres and storage must be configured to process large payloads", w)
    else if env.fails upload key
    then (reply 500 "Failed to upload large file to storage", record w { draws = suc w.draws })
    else (let (hold_ttl, w') =
          hold_ttl_for_recipient env (put_object env w req.envelope) req.recipient_id in
        if env.fails store_message req.recipient_id
        then (reply 500 "Failed to store message metadata in database", remove_stored env w' key)
        else (let id = env.uuid w'.draws in
            (
              reply 202 id,
              notify
                  (record w' {
                    db =
                        Messages.store_message w'.db env.now id req.recipient_id sender_id none
                          (some (upload_url env.storage key)) "file" hold_ttl;
                    draws = suc w'.draws;
                  })
                  req.recipient_id sender_id "file" (new_message sender_id req.envelope "file" id),
            )))

-- Under memory pressure: stored in Postgres, and dropped again once it is sent.
unfoldable pub post_parked : Env → World → PostMessageRequest → Reply × World
unfolding hold_ttl_for_recipient send_json start_wake
post_parked env w req =
    let sender_id = sender_of req.voucher in
    let (hold_ttl, w') = hold_ttl_for_recipient env w req.recipient_id in
    if env.fails store_message req.recipient_id
    then (reply 500 "Failed to store message in database", w')
    else (let id = env.uuid w'.draws in
        let db' =
          Messages.store_message w'.db env.now id req.recipient_id sender_id (some req.envelope)
            none "text" hold_ttl in
        let stored = record w' { db = db'; draws = suc w'.draws } in
        (
          reply 202 "",
          elim (lookup w.clients req.recipient_id) [
            | none ↦ start_wake stored req.recipient_id sender_id "text"
            | some target ↦
                let sent = send_json stored target (new_message sender_id req.envelope "text" "") in
                if env.fails remove_message id
                then sent
                else record sent { db = Messages.delete_message db' id }
          ],
        ))

unfoldable pub post_queued : Env → World → PostMessageRequest → Reply × World
unfolding hold_ttl_for_recipient send_json start_wake
post_queued env w req =
    let sender_id = sender_of req.voucher in
    elim (lookup w.clients req.recipient_id) [
      | some target ↦ (reply 202 "", send_json w target (new_message sender_id req.envelope "" ""))
      | none ↦
          let (hold_ttl, w') = hold_ttl_for_recipient env w req.recipient_id in
          if env.fails add_to_queue req.recipient_id
          then (reply 500 "Failed to store message offline", w')
          else (
            reply 202 "",
            start_wake
                (record w' {
                  redis =
                      Queue.add_message_to_queue w'.redis env.now req.recipient_id sender_id
                        req.envelope "" hold_ttl;
                })
                req.recipient_id sender_id "",
          )
    ]

-- Behind the spam protection.
unfoldable pub post_message : Env → World → PostMessageRequest → Reply × World
unfolding check_size post_large post_parked post_queued
post_message env w req =
    if env.fails queue_blocked req.recipient_id
    then (reply 500 "Database error", w)
    else if Blocks.is_queue_blocked w.redis env.now req.recipient_id
    then (reply 423 "Recipient queue is locked due to active Nuke command", w)
    else (let (refusal, w') = check_size env w req in
        elim refusal [
          | some r ↦ (r, w')
          | none ↦
              if leb large_payload_threshold (len req.envelope)
              then post_large env w' req
              else if env.has_pg && env.high_ram
              then post_parked env w' req
              else post_queued env w' req
        ])

-- `none` is a body that does not decode.
unfoldable pub handle_post_queue :
    Env → Primitives → World → String → String → String → Option PostMessageRequest → Reply × World
unfolding check_spam_protection post_message
handle_post_queue env p w method ip protection none = (
  if not (method == "POST")
      then reply 405 "Method not allowed"
      else reply 400 "Invalid request body",
  w,
)
handle_post_queue env p w method ip protection (some req) =
    if not (method == "POST")
    then (reply 405 "Method not allowed", w)
    else if req.recipient_id == "" || req.envelope == ""
    then (reply 400 "Missing recipient_id or envelope", w)
    else (let (refusal, w') = check_spam_protection env p w ip protection req in
        elim refusal [ some r ↦ (r, w') | none ↦ post_message env w' req ])
