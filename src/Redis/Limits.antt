-- ===== src/Redis/Limits.antt =====
-- The counters of wiltkey_server/redis.go: bans and failures, request rates, nukes, token issuance,
-- and the strikes and cooldown of the human challenge.
pub mod Rates
use wilt_key.Prelude.{
  ℕ, suc, ◌+◌, ◌-◌, ◌*◌, String, Bool, true, false, none, some, not, ◌==◌, ltb, leb, if◌then◌else◌,
}
use wilt_key.Prelude.Text.{concat, len, slice_from, has_suffix}
use wilt_key.Prelude.GoMap.{GoMap, value_or, lookup, insert, retain, size}
use wilt_key.Time.{hour}
use wilt_key.Redis.{RedisClient, IpFail}

-- m[k] with the zero value where there is none
abbrev pub counter : GoMap ℕ → String → ℕ
counter m k = value_or 0 (lookup m k)

unfoldable pub check_ip_ban : RedisClient → ℕ → String → Bool
check_ip_ban r now ip = elim (lookup r.memory_bans ip) [
  | none ↦ false
  | some expiry ↦ if ltb expiry now then false else true
]

unfoldable pub ban_ip : RedisClient → ℕ → String → ℕ → RedisClient
ban_ip r now ip duration = record r { memory_bans = insert r.memory_bans ip (now + duration) }

unfoldable pub increment_ip_failure : RedisClient → ℕ → String → ℕ × RedisClient
increment_ip_failure r now ip = elim (lookup r.memory_fails ip) [
  | none ↦ (1, first)
  | some val ↦ if ltb val.expires now then (1, first) else (
    val.count + 1,
    record r {
      memory_fails =
          insert r.memory_fails ip (record { count = val.count + 1; expires = val.expires });
    },
  )
]
  where
    first : RedisClient
    first = record r {
      memory_fails = insert r.memory_fails ip (record { count = 1; expires = now + 1 * hour });
    }

abbrev pub rate_key : String → String → String
rate_key ip stamp = concat "rate:" (concat ip (concat ":" stamp))

-- A key of another minute, by its last twelve bytes.
abbrev pub is_current : String → String → ℕ → Bool
is_current stamp k n = if ltb 12 (len k) then slice_from k (len k - 12) == stamp else true

-- `stamp` is the current minute, time.Now().Format("200601021504").
unfoldable pub check_ip_rate_limit : RedisClient → String → String → ℕ → Bool × RedisClient
check_ip_rate_limit r stamp ip limit =
    let count = counter r.memory_rate (rate_key ip stamp) + 1 in
    (
      leb count limit,
      record r {
        memory_rate = retain (is_current stamp) (insert r.memory_rate (rate_key ip stamp) count);
      },
    )

unfoldable pub allow_nuke : RedisClient → ℕ → String → ℕ → Bool × RedisClient
allow_nuke r now sender_id limit = elim (lookup r.memory_nukes sender_id) [
  | none ↦ (true, first)
  | some v ↦
      if ltb v.expires now then (true, first) else if leb limit v.count then (false, r) else (
        true,
        record r {
          memory_nukes =
              insert r.memory_nukes sender_id (record { count = v.count + 1; expires = v.expires });
        },
      )
]
  where
    first : RedisClient
    first = record r {
      memory_nukes = insert r.memory_nukes sender_id (record { count = 1; expires = now + hour });
    }

abbrev pub issuance_key : String → String → String
issuance_key ip stamp = concat "issuance:" (concat ip (concat ":" stamp))

-- The day-keyed and hour-keyed maps are trimmed above 4096 entries.
unfoldable pub trim_stale : String → GoMap ℕ → GoMap ℕ
trim_stale stamp m =
    if ltb 4096 (size m) then retain (λ k n. has_suffix k (concat ":" stamp)) m else m

-- `stamp` is the current day.
unfoldable pub allow_issuance : RedisClient → String → String → ℕ → Bool × RedisClient
allow_issuance r stamp ip max_per_day =
    let key = issuance_key ip stamp in
    let m = trim_stale stamp (insert r.memory_issuance key (counter r.memory_issuance key + 1)) in
    (leb (counter m key) max_per_day, record r { memory_issuance = m })

unfoldable pub issuance_count_today : RedisClient → String → String → ℕ
issuance_count_today r stamp ip = counter r.memory_issuance (issuance_key ip stamp)

abbrev pub strike_key : String → String → String
strike_key ip stamp = concat "chstrike:" (concat ip (concat ":" stamp))

-- `stamp` is the current hour.
unfoldable pub register_challenge_strike : RedisClient → String → String → ℕ × RedisClient
register_challenge_strike r stamp ip =
    let key = strike_key ip stamp in
    let m =
      trim_stale stamp (insert r.memory_ch_strikes key (counter r.memory_ch_strikes key + 1)) in
    (counter m key, record r { memory_ch_strikes = m })

abbrev pub is_pending : ℕ → String → ℕ → Bool
is_pending now k until = not (ltb until now)

unfoldable pub check_challenge_cooldown : RedisClient → ℕ → String → Bool × RedisClient
check_challenge_cooldown r now ip =
    let m = retain (is_pending now) r.memory_ch_cooldown in
    (
      elim (lookup m ip) [ none ↦ false | some until ↦ ltb now until ],
      record r { memory_ch_cooldown = m },
    )

unfoldable pub set_challenge_cooldown : RedisClient → ℕ → String → ℕ → RedisClient
set_challenge_cooldown r now ip duration =
    let m =
      if ltb 4096 (size r.memory_ch_cooldown)
      then retain (is_pending now) r.memory_ch_cooldown
      else r.memory_ch_cooldown in
    record r { memory_ch_cooldown = insert m ip (now + duration) }
