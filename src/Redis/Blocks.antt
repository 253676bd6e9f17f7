-- ===== src/Redis/Blocks.antt =====
-- The nuke lock and the cooldown gates of wiltkey_server/redis.go. In memory they share one map,
-- `memoryBlocks`, with the expiry times of tokens, entitlements and integrity nonces.
pub mod Laws
use wilt_key.Prelude.{ℕ, ◌+◌, ◌*◌, String, Bool, true, false, none, some, ltb, if◌then◌else◌}
use wilt_key.Prelude.Text.{concat}
use wilt_key.Prelude.GoMap.{lookup, insert, delete}
use wilt_key.Time.{hour}
use wilt_key.Redis.{RedisClient}

abbrev pub nuke_block_ttl : ℕ
nuke_block_ttl = 24 * hour

unfoldable pub block_queue : RedisClient → ℕ → String → RedisClient
block_queue r now user_id = record r {
  memory_blocks = insert r.memory_blocks user_id (now + nuke_block_ttl);
}

unfoldable pub unblock_queue : RedisClient → String → RedisClient
unblock_queue r user_id = record r { memory_blocks = delete r.memory_blocks user_id }

-- The test of a stored expiry: `!exists || expiry.Before(now)` refuses.
unfoldable pub is_queue_blocked : RedisClient → ℕ → String → Bool
is_queue_blocked r now user_id = elim (lookup r.memory_blocks user_id) [
  | none ↦ false
  | some expiry ↦ if ltb expiry now then false else true
]

-- Each returns whether the call is allowed, with the new client.
unfoldable pub allow_action : RedisClient → ℕ → String → ℕ → Bool × RedisClient
allow_action r now key cooldown = elim (lookup r.memory_blocks key) [
  | none ↦ (true, record r { memory_blocks = insert r.memory_blocks key (now + cooldown) })
  | some exp ↦
      if ltb now exp
      then (false, r)
      else (true, record r { memory_blocks = insert r.memory_blocks key (now + cooldown) })
]

unfoldable pub allow_large_upload : RedisClient → ℕ → String → ℕ → Bool × RedisClient
allow_large_upload r now sender_id cooldown =
    elim (lookup r.memory_blocks (concat "largeup:" sender_id)) [
      | none ↦ (
        true,
        record r {
          memory_blocks = insert r.memory_blocks (concat "largeup:" sender_id) (now + cooldown);
        },
      )
      | some exp ↦ if ltb now exp then (false, r) else (
        true,
        record r {
          memory_blocks = insert r.memory_blocks (concat "largeup:" sender_id) (now + cooldown);
        },
      )
    ]
