-- ===== src/Redis/Once.antt =====
-- What may be used once in wiltkey_server/redis.go: proof-of-work challenges, nonces and vouchers.
pub mod Laws
use wilt_key.Prelude.{
  ℕ, ◌+◌, ◌-◌, ◌*◌, String, Bool, true, false, Option, none, some, ltb, leb, if◌then◌else◌,
}
use wilt_key.Prelude.Text.{concat}
use wilt_key.Prelude.GoMap.{lookup, insert, delete}
use wilt_key.Time.{minute, second}
use wilt_key.Redis.{RedisClient, PowChallenge}

unfoldable pub store_pow_challenge : RedisClient → ℕ → String → ℕ → RedisClient
store_pow_challenge r now challenge difficulty = record r {
  memory_pow =
      insert r.memory_pow challenge
        (record { difficulty = difficulty; expires = now + 5 * minute });
}

-- GetPoWChallengeDifficulty: `none` is the error "challenge expired or invalid".
unfoldable pub get_pow_challenge_difficulty : RedisClient → ℕ → String → Option ℕ × RedisClient
get_pow_challenge_difficulty r now challenge = elim (lookup r.memory_pow challenge) [
  | none ↦ (none, r)
  | some val ↦
      if ltb val.expires now
      then (none, r)
      else (some val.difficulty, record r { memory_pow = delete r.memory_pow challenge })
]

unfoldable pub is_nonce_unique : RedisClient → ℕ → String → Bool × RedisClient
is_nonce_unique r now nonce = elim (lookup r.memory_nonces nonce) [
  | none ↦ (true, record r { memory_nonces = insert r.memory_nonces nonce (now + 10 * minute) })
  | some expiry ↦
      if ltb now expiry
      then (false, r)
      else (true, record r { memory_nonces = insert r.memory_nonces nonce (now + 10 * minute) })
]

-- ttl = time.Until(time.Unix(expiryUnix, 0)), and nothing is marked where that is not positive.
unfoldable pub consume_voucher : RedisClient → ℕ → String → ℕ → Bool × RedisClient
consume_voucher r now sig expiry_unix =
    if leb (expiry_unix * second) now
    then (false, r)
    else elim (lookup r.memory_nonces (concat "voucher:" sig)) [
      | none ↦ (true, spent)
      | some exp ↦ if ltb now exp then (false, r) else (true, spent)
    ]
  where
    spent : RedisClient
    spent = record r {
      memory_nonces =
          insert r.memory_nonces (concat "voucher:" sig) (now + (expiry_unix * second - now));
    }
