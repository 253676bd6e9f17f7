-- ===== src/Relay/Challenge/Strikes.antt =====
-- What the human challenge of wiltkey_server/puzzle.go costs an address.
use wilt_key.Prelude.{
  ℕ, ◌+◌, ◌*◌, ◌≡◌, ◌≤◌, ◌<◌, refl, String, true, false, ◌&&◌, List, ◌==◌, arith, if◌then◌else◌,
}
use wilt_key.Prelude.GoMap.{lookup-insert_self, lookup-retain}
use wilt_key.Time.{minute, Calendar}
use wilt_key.Redis.{RedisClient}
use wilt_key.Redis.Limits.{
  counter, strike_key, register_challenge_strike, set_challenge_cooldown, check_challenge_cooldown,
}
use wilt_key.Redis.Limits.Rates.{trim_stale-current}
use wilt_key.Crypto.{Primitives, puzzle_strips, puzzle_answer_from_seed}
use wilt_key.Relay.{Env, World, Op}
use wilt_key.Relay.Challenge.{
  off, adaptive, Solution, solution, answers, puzzle_required_for_client,
  register_challenge_strike_for_rejection, run_puzzle_challenge,
}

-- The strikes of an address in the hour `stamp`.
unfoldable pub strike_count : RedisClient → String → String → ℕ
strike_count r stamp ip = counter r.memory_ch_strikes (strike_key ip stamp)

-- A strike adds one to the count of the hour.
strike-count :
    (r : RedisClient) (stamp ip : String)
    → ((register_challenge_strike r stamp ip).0 ≡ strike_count r stamp ip + 1)
      × (strike_count (register_challenge_strike r stamp ip).1 stamp ip
          ≡ strike_count r stamp ip + 1)
unfolding register_challenge_strike strike_count
strike-count r stamp ip = (
  rw (trim_stale-current, lookup-insert_self) refl,
  rw (trim_stale-current, lookup-insert_self) refl,
)

cooldown_runs :
    (r : RedisClient) (now later : ℕ) (ip : String) (duration : ℕ)
    → later < now + duration
    → (check_challenge_cooldown (set_challenge_cooldown r now ip duration) later ip).0 ≡ true
unfolding check_challenge_cooldown set_challenge_cooldown
cooldown_runs r now later ip duration soon =
    rw (check_challenge_cooldown, set_challenge_cooldown, lookup-retain, lookup-insert_self)
      (ground arith)

-- An attempt at the challenge passes exactly with the id that was sent and the rotation that is
-- expected; every other solution adds one strike to the address in this hour, where the strikes can
-- be counted, and a solution that passes adds none.
pub attempt_strikes :
    (env : Env) (p : Primitives) (cal : Calendar) (w : World) (ip seed challenge_id : String)
    (sol : Solution)
    → env.fails Op.count_strike ip ≡ false
    → let right =
        sol.challenge_id == challenge_id
        && answers sol.puzzle_answer (puzzle_answer_from_seed p seed puzzle_strips) in
      let (passed, w') = run_puzzle_challenge env p cal w ip seed challenge_id (solution sol) in
      (passed ≡ right)
      × (strike_count w'.redis (cal.hour_stamp env.now) ip ≡ (
          if right
          then strike_count w.redis (cal.hour_stamp env.now) ip
          else strike_count w.redis (cal.hour_stamp env.now) ip + 1))
unfolding run_puzzle_challenge register_challenge_strike_for_rejection set_challenge_cooldown
    strike_count
attempt_strikes env p cal w ip seed challenge_id sol counts =
    ground (arith, strike-count w.redis (cal.hour_stamp env.now) ip)

-- A strike that is at least the third of the hour closes the challenge to the address for thirty
-- minutes, where Redis does not fail.
pub third_strike_cools :
    (env : Env) (cal : Calendar) (w : World) (ip : String) (later : ℕ)
    → 2 ≤ strike_count w.redis (cal.hour_stamp env.now) ip
    → env.fails Op.count_strike ip ≡ false
    → env.fails Op.set_cooldown ip ≡ false
    → later < env.now + 30 * minute
    → (check_challenge_cooldown
        (register_challenge_strike_for_rejection env cal w ip).redis
        later
        ip).0
      ≡ true
unfolding register_challenge_strike_for_rejection
third_strike_cools env cal w ip later two counts cools soon =
    let stamp = cal.hour_stamp env.now in
    let struck = (register_challenge_strike w.redis stamp ip).1 in
    ground (
      arith,
      strike-count w.redis stamp ip,
      cooldown_runs struck env.now later ip (30 * minute) soon,
    )

-- The mode "off" asks a client for the challenge exactly where the mode "adaptive" does.
pub off_as_adaptive :
    (env : Env) (cal : Calendar) (w : World) (client_caps : List String) (ip : String)
    → puzzle_required_for_client env cal w off client_caps ip
      ≡ puzzle_required_for_client env cal w adaptive client_caps ip
unfolding puzzle_required_for_client
off_as_adaptive env cal w client_caps ip = refl
