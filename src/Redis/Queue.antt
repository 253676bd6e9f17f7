-- ===== src/Redis/Queue.antt =====
-- The offline queue of wiltkey_server/redis.go: AddMessageToQueue, FetchAndClearQueue and the two
-- counters.
pub mod Laws
pub mod Delivery
use wilt_key.Prelude.{
  ℕ, ◌+◌, ◌-◌, String, Bool, true, false, Option, none, some, List, [], ◌∷◌, ◌++◌, map, ◌&&◌, ◌==◌,
  ltb, length, drop, keep, count, if◌then◌else◌,
}
use wilt_key.Prelude.GoMap.{value_or, lookup, insert, delete}
use wilt_key.Redis.{RedisClient, MemoryZ}

abbrev pub max_queue_len : ℕ
max_queue_len = 1000

-- r.memoryQueue[recipientID], nil where there is none
abbrev pub queue_of : RedisClient → String → List MemoryZ
queue_of r recipient_id = value_or [] (lookup r.memory_queue recipient_id)

-- item.expires.After(now)
abbrev pub is_active : ℕ → MemoryZ → Bool
is_active now item = ltb now item.expires

-- Drops the oldest entries above the limit.
unfoldable pub cap_queue : List MemoryZ → List MemoryZ
cap_queue pruned =
    if ltb max_queue_len (length pruned)
    then drop (length pruned - max_queue_len) pruned
    else pruned

unfoldable pub add_message_to_queue :
    RedisClient → ℕ → String → String → String → String → ℕ → RedisClient
add_message_to_queue r now recipient_id sender_id envelope content_type ttl = record r {
  memory_queue =
      insert r.memory_queue recipient_id
        (cap_queue (keep (is_active now) (queue_of r recipient_id ++ item ∷ [])));
}
  where
    item : MemoryZ
    item = record {
      sender_id = sender_id;
      envelope = envelope;
      content_type = content_type;
      expires = now + ttl;
    }

-- The entry as it is handed out, a map of three texts.
pub record Queued : Type 0 where
  pub sender_id : String
  pub envelope : String
  pub content_type : String

unfoldable pub to_queued : MemoryZ → Queued
to_queued item = record {
  sender_id = item.sender_id;
  envelope = item.envelope;
  content_type = item.content_type;
}

unfoldable pub fetch_and_clear_queue : RedisClient → ℕ → String → List Queued × RedisClient
fetch_and_clear_queue r now recipient_id = elim (lookup r.memory_queue recipient_id) [
  | none ↦ ([], r)
  | some q ↦ (
    map to_queued (keep (is_active now) q),
    record r { memory_queue = delete r.memory_queue recipient_id },
  )
]

unfoldable pub get_active_queue_count : RedisClient → ℕ → String → ℕ
get_active_queue_count r now recipient_id = elim (lookup r.memory_queue recipient_id) [
  | none ↦ 0
  | some q ↦ count (is_active now) q
]

unfoldable pub notifiable_content_types : String → Bool
notifiable_content_types ct =
    if ct == "text"
    then true
    else if ct == "image"
    then true
    else if ct == "voice"
    then true
    else if ct == "group_message"
    then true
    else if ct == "emergency_chat"
    then true
    else false

unfoldable pub is_notifiable : String → Bool
unfolding notifiable_content_types
is_notifiable ct = if ct == "" then true else notifiable_content_types ct

unfoldable pub get_notifiable_queue_count : RedisClient → ℕ → String → ℕ
get_notifiable_queue_count r now recipient_id = elim (lookup r.memory_queue recipient_id) [
  | none ↦ 0
  | some q ↦ count (λ item. is_active now item && is_notifiable item.content_type) q
]
