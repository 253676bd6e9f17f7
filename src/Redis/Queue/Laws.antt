-- ===== src/Redis/Queue/Laws.antt =====
-- The bound and the order of the offline queue of wiltkey_server/redis.go.
use wilt_key.Prelude.{
  ℕ, ◌+◌, ◌-◌, ◌≤◌, ◌≡◌, refl, String, List, [], ◌∷◌, ◌++◌, map, arith, length, keep, ◌==◌, eq_iff,
  if◌then◌else◌, length-drop,
}
use wilt_key.Prelude.GoMap.{lookup-insert, lookup-delete}
use wilt_key.Redis.{RedisClient, MemoryZ}
use wilt_key.Redis.Queue.{
  max_queue_len, queue_of, is_active, cap_queue, add_message_to_queue, fetch_and_clear_queue,
  to_queued,
}

pub length-cap_queue : (q : List MemoryZ) → length (cap_queue q) ≤ max_queue_len
unfolding cap_queue
length-cap_queue q = ground (arith, length-drop (length q - max_queue_len) q)

pub cap_queue_small : (q : List MemoryZ) → length q ≤ max_queue_len → cap_queue q ≡ q
unfolding cap_queue
cap_queue_small q h = ground arith

-- What has expired by `now` has expired by `later`.
pub keep_later :
    (now later : ℕ) (q : List MemoryZ)
    → now ≤ later
    → keep (is_active later) (keep (is_active now) q) ≡ keep (is_active later) q
keep_later now later [] h = refl
keep_later now later (x ∷ q) h = ground (arith, keep_later now later q h)

pub queue_of-add :
    (r : RedisClient) (now : ℕ) (k : String) (m : MemoryZ) (ttl : ℕ) (j : String)
    → queue_of (add_message_to_queue r now k m.sender_id m.envelope m.content_type ttl) j ≡ (
        if k == j
        then cap_queue
            (keep (is_active now) (queue_of r k ++ record m { expires = now + ttl } ∷ []))
        else queue_of r j)
unfolding add_message_to_queue
queue_of-add r now k m ttl j = rw lookup-insert (ground arith)

pub queue_of-fetch :
    (r : RedisClient) (now : ℕ) (k j : String)
    → queue_of (fetch_and_clear_queue r now k).1 j ≡ (if k == j then [] else queue_of r j)
unfolding fetch_and_clear_queue
queue_of-fetch r now k j = ground (arith, lookup-delete r.memory_queue k j, eq_iff k j)

pub fetch-queue_of :
    (r : RedisClient) (now : ℕ) (k : String)
    → (fetch_and_clear_queue r now k).0 ≡ map to_queued (keep (is_active now) (queue_of r k))
unfolding fetch_and_clear_queue
fetch-queue_of r now k = ground arith
