-- ===== src/Redis/Server/Counters.antt =====
-- The counters of wiltkey_server/redis.go over a Redis server: INCR and EXPIRE in one transaction.
use wilt_key.Prelude.{ℕ, ◌*◌, String, Bool, Option, none, some, leb}
use wilt_key.Prelude.Text.{concat}
use wilt_key.Time.{second, hour}
use wilt_key.Redis.Limits.{rate_key, issuance_key, strike_key}
use wilt_key.Redis.Server.{Commands}

-- INCR, and EXPIRE whether or not the key has a time to live.
unfoldable pub incr_refreshed : {S : Type 0} → Commands S → S → ℕ → String → ℕ → ℕ × S
incr_refreshed c s now key ttl = let (n, s') = c.incr_by s now key 1 in (n, c.expire s' now key ttl)

-- INCR, and EXPIRE NX.
unfoldable pub incr_fixed : {S : Type 0} → Commands S → S → ℕ → String → ℕ → ℕ × S
incr_fixed c s now key ttl = let (n, s') = c.incr_by s now key 1 in (n, c.expire_nx s' now key ttl)

unfoldable pub allow_nuke : {S : Type 0} → Commands S → S → ℕ → String → ℕ → Bool × S
unfolding incr_refreshed
allow_nuke c s now sender_id limit =
    let (n, s') = incr_refreshed c s now (concat "nukerate:" sender_id) hour in (leb n limit, s')

unfoldable pub increment_ip_failure : {S : Type 0} → Commands S → S → ℕ → String → ℕ × S
unfolding incr_refreshed
increment_ip_failure c s now ip = incr_refreshed c s now (concat "fail:" ip) (1 * hour)

unfoldable pub check_ip_rate_limit :
    {S : Type 0} → Commands S → S → ℕ → String → String → ℕ → Bool × S
unfolding incr_refreshed
check_ip_rate_limit c s now stamp ip limit =
    let (n, s') = incr_refreshed c s now (rate_key ip stamp) (60 * second) in (leb n limit, s')

unfoldable pub allow_issuance : {S : Type 0} → Commands S → S → ℕ → String → String → ℕ → Bool × S
unfolding incr_fixed
allow_issuance c s now stamp ip max_per_day =
    let (n, s') = incr_fixed c s now (issuance_key ip stamp) (48 * hour) in (leb n max_per_day, s')

-- Get(…).Int64(): `none` is an error, also that of a missing key.
unfoldable pub issuance_count_today : {S : Type 0} → Commands S → S → ℕ → String → String → Option ℕ
issuance_count_today c s now stamp ip = elim (c.get s now (issuance_key ip stamp)) [
  | none ↦ none
  | some v ↦ c.atoi v
]

unfoldable pub register_challenge_strike :
    {S : Type 0} → Commands S → S → ℕ → String → String → ℕ × S
unfolding incr_fixed
register_challenge_strike c s now stamp ip = incr_fixed c s now (strike_key ip stamp) (2 * hour)
