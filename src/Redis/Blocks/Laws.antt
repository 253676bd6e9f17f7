-- ===== src/Redis/Blocks/Laws.antt =====
-- The nuke lock and the cooldowns of wiltkey_server/redis.go over time.
use wilt_key.Prelude.{
  ℕ, ◌+◌, ◌≡◌, ◌≢◌, ◌∙◌, refl, String, true, false, some, List, [], ◌∷◌, arith, All, ◌==◌, eq_iff,
  eq_refl, leb, if◌then◌else◌,
}
use wilt_key.Prelude.Text.{concat}
use wilt_key.Prelude.GoMap.{lookup, lookup-insert, lookup-delete}
use wilt_key.Redis.{RedisClient}
use wilt_key.Redis.Blocks.{
  nuke_block_ttl, block_queue, unblock_queue, is_queue_blocked, allow_action, allow_large_upload,
}

-- A lock holds for the locked queue through its 24 hours and no longer, and changes no other
-- queue's state.
pub blocked-block :
    (r : RedisClient) (now later : ℕ) (user_id other : String)
    → is_queue_blocked (block_queue r now user_id) later other ≡ (
        if user_id == other
        then leb later (now + nuke_block_ttl)
        else is_queue_blocked r later other)
unfolding is_queue_blocked block_queue
blocked-block r now later user_id other =
    ground (arith, lookup-insert r.memory_blocks user_id other (now + nuke_block_ttl))

pub blocked-unblock :
    (r : RedisClient) (later : ℕ) (user_id other : String)
    → is_queue_blocked (unblock_queue r user_id) later other
      ≡ (if user_id == other then false else is_queue_blocked r later other)
unfolding is_queue_blocked unblock_queue
blocked-unblock r later user_id other = ground (arith, lookup-delete r.memory_blocks user_id other)

-- A call of a cooldown gate: time, key, length of the cooldown.
pub record Gate : Type 0 where
  pub at : ℕ
  pub key : String
  pub cooldown : ℕ

unfoldable pub run : RedisClient → List Gate → RedisClient
run r [] = r
run r (g ∷ gs) = run (allow_action r g.at g.key g.cooldown).1 gs

allow_action-other :
    (r : RedisClient) (g : Gate) (key : String)
    → g.key ≢ key
    → lookup (allow_action r g.at g.key g.cooldown).1.memory_blocks key ≡ lookup r.memory_blocks key
unfolding allow_action
allow_action-other r g key h =
    ground (arith, eq_iff g.key key, lookup-insert r.memory_blocks g.key key (g.at + g.cooldown))

run-other :
    (r : RedisClient) (gs : List Gate) (key : String)
    → All (λ g. g.key ≢ key) gs
    → lookup (run r gs).memory_blocks key ≡ lookup r.memory_blocks key
unfolding run
run-other r [] key h = refl
run-other r (g ∷ gs) key h =
    run-other (allow_action r g.at g.key g.cooldown).1 gs key h.1 ∙ allow_action-other r g key h.0

allow_action-sets :
    (r : RedisClient) (now : ℕ) (key : String) (cooldown : ℕ)
    → (allow_action r now key cooldown).0 ≡ true
    → lookup (allow_action r now key cooldown).1.memory_blocks key ≡ some (now + cooldown)
unfolding allow_action
allow_action-sets r now key cooldown h =
    ground (arith, eq_refl key, lookup-insert r.memory_blocks key key (now + cooldown))

allowed_at :
    (r : RedisClient) (later : ℕ) (key : String) (next until : ℕ)
    → lookup r.memory_blocks key ≡ some until
    → (allow_action r later key next).0 ≡ leb until later
unfolding allow_action
allowed_at r later key next until e = ground arith

-- After an allowed call of the cooldown gate, and any calls of it with other keys, the next call with
-- the key is allowed exactly when the cooldown is over.
pub cooldown_exact :
    (r : RedisClient) (now : ℕ) (key : String) (cooldown : ℕ) (gs : List Gate) (later next : ℕ)
    → (allow_action r now key cooldown).0 ≡ true
    → All (λ g. g.key ≢ key) gs
    → (allow_action (run (allow_action r now key cooldown).1 gs) later key next).0
      ≡ leb (now + cooldown) later
cooldown_exact r now key cooldown gs later next h others =
    allowed_at _ later key next (now + cooldown)
      (run-other _ gs key others ∙ allow_action-sets r now key cooldown h)

pub allow_large_upload-action :
    (r : RedisClient) (now : ℕ) (sender_id : String) (cooldown : ℕ)
    → allow_large_upload r now sender_id cooldown
      ≡ allow_action r now (concat "largeup:" sender_id) cooldown
unfolding allow_large_upload allow_action
allow_large_upload-action r now sender_id cooldown = refl
