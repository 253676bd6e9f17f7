-- ===== src/Redis/Queue/Delivery.antt =====
-- Histories of the offline queue of wiltkey_server/redis.go, against a mailbox with no limit.
use wilt_key.Prelude.{
  ℕ, suc, ◌+◌, ◌-◌, ◌≤◌, ◌≡◌, ◌∙◌, refl, ap, String, List, [], ◌∷◌, ◌++◌, map, arith, length, keep,
  take, ◌==◌, eq_iff, eq_refl, ltb, if◌then◌else◌, length-append, keep-append, length-keep-le,
  length-drop, take-append-drop, All, ◌⊎◌, inl, inr, Bool-cases,
}
use wilt_key.Redis.{RedisClient, MemoryZ}
use wilt_key.Redis.Queue.{
  max_queue_len, queue_of, is_active, cap_queue, add_message_to_queue, fetch_and_clear_queue,
  to_queued,
}
use wilt_key.Redis.Queue.Laws.{
  length-cap_queue, cap_queue_small, keep_later, queue_of-add, queue_of-fetch, fetch-queue_of,
}

-- A call: an entry added for a recipient, or a queue handed out. The entry's own `expires` is not
-- read.
pub data Call : Type 0 where
  add : ℕ → String → MemoryZ → ℕ → Call
  fetch : ℕ → String → Call

unfoldable pub step : RedisClient → Call → RedisClient
step r (add now k m ttl) = add_message_to_queue r now k m.sender_id m.envelope m.content_type ttl
step r (fetch now k) = (fetch_and_clear_queue r now k).1

unfoldable pub run : RedisClient → List Call → RedisClient
unfolding step
run r [] = r
run r (c ∷ cs) = run (step r c) cs

abbrev pub time_of : Call → ℕ
time_of (add now k m ttl) = now
time_of (fetch now k) = now

-- The reference: what was added for `k` since it was last handed out, with no limit and no expiry.
unfoldable pub mailbox : String → List MemoryZ → List Call → List MemoryZ
mailbox k box [] = box
mailbox k box (add now j m ttl ∷ cs) =
    mailbox k (if j == k then box ++ record m { expires = now + ttl } ∷ [] else box) cs
mailbox k box (fetch now j ∷ cs) = mailbox k (if j == k then [] else box) cs

step-bounded :
    (r : RedisClient) (c : Call) (k : String)
    → length (queue_of r k) ≤ max_queue_len
    → length (queue_of (step r c) k) ≤ max_queue_len
unfolding step
step-bounded r (add now j m ttl) k h = rw (queue_of-add r now j m ttl k) (
    ground (
      arith,
      length-cap_queue
          (keep (is_active now) (queue_of r j ++ record m { expires = now + ttl } ∷ [])),
    ))
step-bounded r (fetch now j) k h = rw (queue_of-fetch r now j k) (ground arith)

-- A queue of at most 1000 entries has at most 1000 after any calls.
pub run-bounded :
    (r : RedisClient) (cs : List Call) (k : String)
    → length (queue_of r k) ≤ max_queue_len
    → length (queue_of (run r cs) k) ≤ max_queue_len
unfolding run
run-bounded r [] k h = h
run-bounded r (c ∷ cs) k h = run-bounded (step r c) cs k (step-bounded r c k h)

abbrev Agree : ℕ → List MemoryZ → List MemoryZ → Type 0
Agree t q box = keep (is_active t) q ≡ keep (is_active t) box

push-Agree :
    (t now : ℕ) (q box : List MemoryZ) (m : MemoryZ)
    → now ≤ t
    → length q + 1 ≤ max_queue_len
    → Agree t q box
    → Agree t (cap_queue (keep (is_active now) (q ++ m ∷ []))) (box ++ m ∷ [])
push-Agree t now q box m h room e =
    let small =
      cap_queue_small (keep (is_active now) (q ++ m ∷ []))
        (omega (arith, length-keep-le (is_active now) (q ++ m ∷ []), length-append q (m ∷ []))) in
    rw (
      small,
      keep_later now t (q ++ m ∷ []) h,
      keep-append (is_active t) q (m ∷ []),
      keep-append (is_active t) box (m ∷ []),
      e,
    )

length-push-le :
    (now : ℕ) (q : List MemoryZ) (m : MemoryZ)
    → length q + 1 ≤ max_queue_len
    → length (cap_queue (keep (is_active now) (q ++ m ∷ []))) ≤ length q + 1
length-push-le now q m h =
    let fits : length (keep (is_active now) (q ++ m ∷ [])) ≤ length q + 1 =
      (omega (arith, length-keep-le (is_active now) (q ++ m ∷ []), length-append q (m ∷ []))) in
    rw (cap_queue_small (keep (is_active now) (q ++ m ∷ [])) (omega arith)) fits

room_after :
    (r : RedisClient) (c : Call) (k : String) (n : ℕ)
    → length (queue_of r k) + suc n ≤ max_queue_len
    → length (queue_of (step r c) k) + n ≤ max_queue_len
unfolding step
room_after r (add now j m ttl) k n h =
    let item = record m { expires = now + ttl } in
    rw (queue_of-add r now j m ttl k)
      (ground (arith, eq_iff j k, length-push-le now (queue_of r j) item))
room_after r (fetch now j) k n h = rw (queue_of-fetch r now j k) (ground arith)

-- Up to 1000 calls, what is handed out is what the unlimited mailbox holds that has not expired.
run-Agree :
    (t : ℕ) (k : String) (r : RedisClient) (box : List MemoryZ) (cs : List Call)
    → All (λ c. time_of c ≤ t) cs
    → length (queue_of r k) + length cs ≤ max_queue_len
    → Agree t (queue_of r k) box
    → Agree t (queue_of (run r cs) k) (mailbox k box cs)
unfolding run mailbox
run-Agree t k r box [] h room e = e
run-Agree t k r box (add now j m ttl ∷ cs) h room e =
    run-Agree t k (step r (add now j m ttl)) _ cs h.1
      (room_after r (add now j m ttl) k (length cs) room)
      (rw (queue_of-add r now j m ttl k) (
        ground (
          arith,
          eq_iff j k,
          push-Agree t now (queue_of r j) box (record m { expires = now + ttl }),
        )))
run-Agree t k r box (fetch now j ∷ cs) h room e =
    run-Agree t k (step r (fetch now j)) _ cs h.1 (room_after r (fetch now j) k (length cs) room)
      (rw (queue_of-fetch r now j k) (ground arith))

-- From an empty queue, and over at most 1000 calls none of which is later than `t`, handing out the
-- queue of `k` at `t` returns every entry added since the last hand-out that has not expired, in
-- the order of arrival and nothing else; and the queue is then empty.
pub fetch-mailbox :
    (r : RedisClient) (k : String) (cs : List Call) (t : ℕ)
    → queue_of r k ≡ []
    → length cs ≤ max_queue_len
    → All (λ c. time_of c ≤ t) cs
    → ((fetch_and_clear_queue (run r cs) t k).0
        ≡ map to_queued (keep (is_active t) (mailbox k [] cs)))
      × (queue_of (fetch_and_clear_queue (run r cs) t k).1 k ≡ [])
fetch-mailbox r k cs t fresh room past = (
  fetch-queue_of (run r cs) t k
      ∙ ap (map to_queued)
          (run-Agree t k r [] cs past (rw fresh (omega arith)) (ap (keep (is_active t)) fresh)),
  rw (queue_of-fetch (run r cs) t k k, eq_refl k),
)

cap_queue-split :
    (q : List MemoryZ)
    → (dropped : List MemoryZ) × (dropped ++ cap_queue q ≡ q)
      × ((dropped ≡ []) ⊎ (length (cap_queue q) ≡ max_queue_len))
unfolding cap_queue
cap_queue-split q = elim (Bool-cases (ltb max_queue_len (length q))) [
  | inl over ↦ (
    take (length q - max_queue_len) q,
    rw over (take-append-drop (length q - max_queue_len) q),
    inr (rw over (ground (arith, length-drop (length q - max_queue_len) q))),
  )
  | inr fits ↦ ([], rw fits, inl refl)
]

-- Adding an entry drops what has expired and then, above the limit, the oldest: what is left is
-- the end of the live queue, whole unless it is exactly the limit.
pub add-newest :
    (r : RedisClient) (now : ℕ) (k : String) (m : MemoryZ) (ttl : ℕ)
    → let live = keep (is_active now) (queue_of r k ++ record m { expires = now + ttl } ∷ []) in
      let q = queue_of (step r (add now k m ttl)) k in
      (dropped : List MemoryZ) × (dropped ++ q ≡ live)
      × ((dropped ≡ []) ⊎ (length q ≡ max_queue_len))
unfolding step
add-newest r now k m ttl =
    rw (queue_of-add r now k m ttl k, eq_refl k)
      (cap_queue-split
        (keep (is_active now) (queue_of r k ++ record m { expires = now + ttl } ∷ [])))
