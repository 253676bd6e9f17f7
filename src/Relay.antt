-- ===== src/Relay.antt =====
-- The state of the relay and what its handlers share: main.go, websocket.go and handlers.go of
-- wiltkey_server. A handler takes the environment of its call and the state, and returns the new
-- state; the frames that it sends and the wake-ups that it starts are appended to the state.
pub mod Premium
pub mod Send
pub mod Broadcast
pub mod Files
pub mod Control
pub mod Cleanup
pub mod Dispatch
pub mod Stories
pub mod Hub
pub mod Challenge
pub mod Http
pub mod Push
pub mod Auth
pub mod Flood
use wilt_key.Prelude.{
  ℕ, suc, ◌+◌, ◌*◌, String, Bool, Option, none, some, List, [], ◌∷◌, ◌++◌, if◌then◌else◌,
}
use wilt_key.Prelude.GoMap.{GoMap, lookup, insert, delete}
use wilt_key.Time.{second, hour}
use wilt_key.Redis.{RedisClient}
use wilt_key.Db.{Db, PgStory, PgStoryReaction}
use wilt_key.Storage.{StorageClient}

abbrev pub free_max_payload : ℕ
free_max_payload = 5 * 1024 * 1024

abbrev pub plus_max_payload : ℕ
plus_max_payload = 50 * 1024 * 1024

abbrev pub large_payload_threshold : ℕ
large_payload_threshold = 500 * 1024

abbrev pub large_upload_cooldown : ℕ
large_upload_cooldown = 15 * second

abbrev pub max_broadcast_recipients : ℕ
max_broadcast_recipients = 256

abbrev pub free_hold_ttl : ℕ
free_hold_ttl = 24 * hour

abbrev pub plus_hold_ttl : ℕ
plus_hold_ttl = 72 * hour

-- A registered connection: the user's id, and which of his sockets it is.
pub record Client : Type 0 where
  pub id : String
  pub conn : ℕ

-- The frames that the relay sends, by their `type`, with the fields that it sets.
pub data Frame : Type 0 where
  error : String → Frame
  status : String → Frame
  new_message : String → String → String → String → Frame
  file_offer : String → String → String → String → ℕ → ℕ → Frame
  file_token : String → String → ℕ → ℕ → Frame
  file_error : String → String → Frame
  peer_typing_status : String → String → Frame
  post_story_ok : String → ℕ → ℕ → ℕ → Frame
  post_story_error : String → ℕ → ℕ → Frame
  stories_feed : List PgStory → Frame
  stories_error : String → Frame
  story_react_ok : Frame
  story_react_error : String → Frame
  story_reactions : String → List PgStoryReaction → Frame
  story_reactions_error : String → Frame
  delete_story_ok : String → Frame
  delete_story_error : String → Frame
  auth_ok : String → String → ℕ → List String → Frame

-- The fields of a WSMessage that the handlers read.
pub record WsMessage : Type 0 where
  pub type : String
  pub recipient_id : String
  pub envelope : String
  pub content_type : String
  pub status : String
  pub recipients : List String
  pub nuke_envelope : String
  pub message_id : String
  pub story_type : String
  pub ciphertext_b64 : String
  pub media_meta : String
  pub story_id : String
  pub contacts : List String
  pub emoji : String

-- A sendWakePush that was started: recipient, sender and content type.
pub record Wake : Type 0 where
  pub recipient_id : String
  pub sender_id : String
  pub content_type : String

-- The calls of Redis, Postgres and the object store that may return an error.
pub data Op : Type 0 where
  queue_blocked allow_upload allow_nuke block_queue unblock_queue add_to_queue : Op
  store_token allow_action fetch_queue : Op
  get_entitlement store_message get_pending get_file query_message : Op
  remove_message remove_inline count_bucket prune_messages prune_stories : Op
  upload remove_object : Op
  consume_budget post_story get_feed get_story react get_reactions remove_story : Op
  check_ban check_rate count_failure set_ban : Op
  store_challenge get_challenge nonce_unique use_voucher queue_count : Op
  get_push set_push delete_push : Op
  verify_token mint_token issuance_count check_cooldown count_strike set_cooldown touch_token : Op
  store_entitlement cache_entitlement get_cached store_nonce get_nonce delete_nonce : Op
  store_attestation get_attestation : Op
  allow_issuance random wipe_social get_token : Op

-- What a call finds outside the relay. `fails` says whether an operation on a key fails in this
-- call, `uuid` is the supply of fresh names, and `offer_meta` is buildOfferMeta, which parses JSON.
pub record Env : Type 0 where
  pub now : ℕ
  pub has_pg : Bool
  pub high_ram : Bool
  pub fails : Op → String → Bool
  pub storage : StorageClient
  pub uuid : ℕ → String
  pub offer_meta : String → Option String

pub record World : Type 0 where
  pub redis : RedisClient
  pub db : Db
  pub bucket : GoMap String
  pub clients : GoMap Client
  pub draws : ℕ
  pub sent : List (Client × Frame)
  pub wakes : List Wake

-- SendJSON. What becomes of the frame on a closed or full channel is the matter of Hub.
unfoldable pub send_json : World → Client → Frame → World
send_json w c f = record w { sent = w.sent ++ (c, f) ∷ [] }

-- go hub.sendWakePush(…)
unfoldable pub start_wake : World → String → String → String → World
start_wake w recipient_id sender_id content_type = record w {
  wakes =
      w.wakes
      ++ record { recipient_id = recipient_id; sender_id = sender_id; content_type = content_type }
        ∷ [];
}

-- Sends a frame to the user's connection, or starts a wake-up where there is none.
unfoldable pub notify : World → String → String → String → Frame → World
unfolding send_json start_wake
notify w recipient_id sender_id content_type frame = elim (lookup w.clients recipient_id) [
  | some target ↦ send_json w target frame
  | none ↦ start_wake w recipient_id sender_id content_type
]

-- The state of `bucket` after storage.Delete, which leaves the object where it fails.
unfoldable pub remove_stored : Env → World → String → World
remove_stored env w key =
    if env.fails remove_object key then w else record w { bucket = delete w.bucket key }
