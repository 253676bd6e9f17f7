-- ===== src/Relay/Files.antt =====
-- Stored files and the offline queue: handleRequestFile, handleFileReceived of
-- wiltkey_server/handlers.go; deliverOfflineQueue, fileOfferFrom, resendPendingFileOffers of
-- websocket.go; and the gate of handleFileDownload of main.go.
pub mod Access
use wilt_key.Prelude.{
  ℕ, suc, ◌+◌, String, Bool, true, false, not, ◌||◌, Option, none, some, List, [], ◌∷◌, ◌==◌, ltb,
  if◌then◌else◌,
}
use wilt_key.Prelude.GoMap.{lookup}
use wilt_key.Time.{unix}
use wilt_key.Redis.Queue
use wilt_key.Redis.Queue.{Queued}
use wilt_key.Redis.Tokens
use wilt_key.Db.{PgMessage}
use wilt_key.Db.Messages
use wilt_key.Db.Messages.{first}
use wilt_key.Storage.{storage_key_from_url}
use wilt_key.Relay.{
  Env, World, Client, WsMessage, Frame, Op, send_json, remove_stored, store_token, get_file,
  query_message, remove_message, count_bucket, fetch_queue, get_pending, remove_inline, random,
  error, new_message, file_offer, file_token, file_error,
}
use wilt_key.Relay.Send.{or_blank}

unfoldable pub file_offer_from : PgMessage → Frame
file_offer_from msg =
    file_offer msg.sender_id msg.content_type msg.id msg.offer_meta msg.size_bytes
      (unix msg.expires_at)

-- `uuid` supplies the random token too.
unfoldable pub issue_token : Env → World → Client → WsMessage → PgMessage → World
unfolding send_json
issue_token env w c msg found =
    let token = env.uuid w.draws in
    let w' = record w { draws = suc w.draws } in
    if env.fails random c.id || env.fails store_token token
    then send_json w' c (file_error msg.message_id "Could not issue a download token")
    else send_json
        (record w' { redis = Tokens.store_file_token w.redis env.now token found.id c.id }) c
        (file_token found.id token found.size_bytes (unix found.expires_at))

unfoldable pub handle_request_file : Env → World → Client → WsMessage → World
unfolding issue_token send_json
handle_request_file env w c msg =
    if msg.message_id == ""
    then send_json w c (file_error "" "Missing message_id")
    else if not env.has_pg
    then send_json w c (file_error msg.message_id "File storage is not configured")
    else if env.fails get_file msg.message_id
    then send_json w c (file_error msg.message_id "Could not look up that file")
    else elim (Messages.get_file_message w.db env.now msg.message_id c.id) [
      | none ↦ send_json w c (file_error msg.message_id "File is no longer available")
      | some found ↦ issue_token env w c msg found
    ]

-- Deletes the object once no row points to it. A failed count leaves it.
unfoldable pub reclaim : Env → World → String → World
unfolding remove_stored
reclaim env w url =
    let key = storage_key_from_url url in
    if key == ""
    then w
    else if env.fails count_bucket url
    then w
    else if ltb 0 (Messages.count_messages_by_bucket w.db url)
    then w
    else remove_stored env w key

unfoldable pub drop_row : Env → World → String → World
drop_row env w id =
    if env.fails remove_message id then w else record w { db = Messages.delete_message w.db id }

-- A row with no bucket URL fails to scan and is left.
unfoldable pub acknowledge : Env → World → Client → PgMessage → Option String → World
unfolding reclaim drop_row send_json
acknowledge env w c found none = w
acknowledge env w c found (some url) =
    if not (found.recipient_id == c.id)
    then send_json w c (error "Unauthorized to acknowledge this file")
    else reclaim env (drop_row env w found.id) url

unfoldable pub handle_file_received : Env → World → Client → WsMessage → World
unfolding acknowledge
handle_file_received env w c msg =
    if msg.message_id == ""
    then w
    else if not env.has_pg
    then w
    else if env.fails query_message msg.message_id
    then w
    else elim (first (λ m. m.id == msg.message_id) w.db.messages) [
      | none ↦ w
      | some found ↦ acknowledge env w c found found.bucket_url
    ]

unfoldable pub send_queued : World → Client → List Queued → World
unfolding send_json
send_queued w c [] = w
send_queued w c (m ∷ ms) =
    send_queued (send_json w c (new_message m.sender_id m.envelope m.content_type "")) c ms

unfoldable pub deliver_redis : Env → World → Client → World
unfolding send_queued
deliver_redis env w c =
    if env.fails fetch_queue c.id
    then w
    else (let (messages, redis') = Queue.fetch_and_clear_queue w.redis env.now c.id in
        send_queued (record w { redis = redis' }) c messages)

-- What is sent for one pending row.
abbrev pub send_row : World → Client → PgMessage → World
send_row w c m = elim m.bucket_url [
  | some url ↦ send_json w c (file_offer_from m)
  | none ↦ elim m.envelope [
    | none ↦ w
    | some envelope ↦ send_json w c (new_message m.sender_id envelope m.content_type "")
  ]
]

unfoldable pub send_pending : World → Client → List PgMessage → World
unfolding send_json file_offer_from
send_pending w c [] = w
send_pending w c (m ∷ ms) = send_pending (send_row w c m) c ms

unfoldable pub deliver_postgres : Env → World → Client → World
unfolding send_pending
deliver_postgres env w c =
    if not env.has_pg || env.fails get_pending c.id
    then w
    else elim (Messages.get_pending_messages w.db env.now c.id) [
      | [] ↦ w
      | m ∷ ms ↦
          let w' = send_pending w c (m ∷ ms) in
          if env.fails remove_inline c.id
          then w'
          else record w' { db = Messages.delete_inline_messages w'.db c.id }
    ]

unfoldable pub deliver_offline_queue : Env → World → Client → World
unfolding deliver_redis deliver_postgres
deliver_offline_queue env w c = deliver_postgres env (deliver_redis env w c) c

-- What is sent for one row by a reconciliation: nothing for an inline message.
abbrev pub offer_row : World → Client → PgMessage → World
offer_row w c m = elim m.bucket_url [ none ↦ w | some url ↦ send_json w c (file_offer_from m) ]

unfoldable pub send_offers : World → Client → List PgMessage → World
unfolding send_json file_offer_from
send_offers w c [] = w
send_offers w c (m ∷ ms) = send_offers (offer_row w c m) c ms

unfoldable pub resend_pending_file_offers : Env → World → Client → World
unfolding send_offers
resend_pending_file_offers env w c =
    if not env.has_pg || env.fails get_pending c.id
    then w
    else send_offers w c (Messages.get_pending_messages w.db env.now c.id)

-- handleFileDownload down to the object: the status of the reply, and the body of a 200.
pub data Download : Type 0 where
  refused : ℕ → Download
  served : String → ℕ → Download
