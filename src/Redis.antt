-- ===== src/Redis.antt =====
-- RedisClient of wiltkey_server/redis.go in its in-memory mode, which the relay runs when no Redis
-- server answers at start. A method takes the client and the time of the call, and returns the new
-- client; the mutex makes each one a single step.
pub mod Queue
pub mod Blocks
pub mod Once
pub mod Limits
pub mod Tokens
pub mod Server
use wilt_key.Prelude.{ℕ, String, List}
use wilt_key.Prelude.GoMap.{GoMap, empty}

pub record MemoryZ : Type 0 where
  pub sender_id : String
  pub envelope : String
  pub content_type : String
  pub expires : ℕ

pub record PowChallenge : Type 0 where
  pub difficulty : ℕ
  pub expires : ℕ

pub record IpFail : Type 0 where
  pub count : ℕ
  pub expires : ℕ

pub record MemoryPairing : Type 0 where
  pub payload : String
  pub expires : ℕ

pub record RedisClient : Type 0 where
  pub memory_queue : GoMap (List MemoryZ)
  pub memory_blocks : GoMap ℕ
  pub memory_pow : GoMap PowChallenge
  pub memory_nonces : GoMap ℕ
  pub memory_bans : GoMap ℕ
  pub memory_fails : GoMap IpFail
  pub memory_rate : GoMap ℕ
  pub memory_pairings : GoMap MemoryPairing
  pub memory_tunnels : GoMap String
  pub memory_tunnel_bytes : GoMap ℕ
  pub memory_nukes : GoMap IpFail
  pub memory_push_tokens : GoMap String
  pub memory_entitlements : GoMap String
  pub memory_issuance : GoMap ℕ
  pub memory_ch_strikes : GoMap ℕ
  pub memory_ch_cooldown : GoMap ℕ

-- NewRedisClient after a failed ping.
abbrev pub new_redis_client : RedisClient
new_redis_client = record {
  memory_queue = empty;
  memory_blocks = empty;
  memory_pow = empty;
  memory_nonces = empty;
  memory_bans = empty;
  memory_fails = empty;
  memory_rate = empty;
  memory_pairings = empty;
  memory_tunnels = empty;
  memory_tunnel_bytes = empty;
  memory_nukes = empty;
  memory_push_tokens = empty;
  memory_entitlements = empty;
  memory_issuance = empty;
  memory_ch_strikes = empty;
  memory_ch_cooldown = empty;
}

-- FlushAll resets every map but the one of the nukes.
unfoldable pub flush_all : RedisClient → RedisClient
flush_all r = record new_redis_client { memory_nukes = r.memory_nukes }
