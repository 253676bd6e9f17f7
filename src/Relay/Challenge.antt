-- ===== src/Relay/Challenge.antt =====
-- The human challenge of wiltkey_server/puzzle.go: when it is asked for, and what one attempt at it
-- does. The frame sent and the frame read back are arguments.
pub mod Strikes
pub mod Always
use wilt_key.Prelude.{
  ℕ, ◌*◌, String, Bool, true, false, not, Option, none, some, List, [], ◌∷◌, ◌==◌, leb, eqb, any,
  if◌then◌else◌,
}
use wilt_key.Time.{minute, Calendar}
use wilt_key.Redis.Limits
use wilt_key.Redis.Server.{Commands}
use wilt_key.Redis.Server.Counters
use wilt_key.Crypto.{Primitives, puzzle_strips, puzzle_answer_from_seed}
use wilt_key.Relay.{Env, World, Op, issuance_count, count_strike, set_cooldown}

-- WK_CHALLENGE_MODE
pub data ChallengeMode : Type 0 where
  off adaptive always : ChallengeMode

unfoldable pub client_advertises_challenge : List String → Bool
client_advertises_challenge client_caps = any (λ c. c == "human_challenge") client_caps

abbrev pub is_always : ChallengeMode → Bool
is_always off = false
is_always adaptive = false
is_always always = true

-- A count that fails requires the challenge.
unfoldable pub puzzle_required_for_client :
    Env → Calendar → World → ChallengeMode → List String → String → Bool
unfolding client_advertises_challenge
puzzle_required_for_client env cal w mode client_caps ip =
    if not (client_advertises_challenge client_caps)
    then false
    else if is_always mode
    then true
    else if env.fails issuance_count ip
    then true
    else leb 1 (Limits.issuance_count_today w.redis (cal.day_stamp env.now) ip)

unfoldable pub challenge_upgrade_required : ChallengeMode → List String → Bool
unfolding client_advertises_challenge
challenge_upgrade_required off client_caps = false
challenge_upgrade_required adaptive client_caps = not (client_advertises_challenge client_caps)
challenge_upgrade_required always client_caps = not (client_advertises_challenge client_caps)

abbrev pub strikes_allowed : ℕ
strikes_allowed = 3

unfoldable pub register_challenge_strike_for_rejection : Env → Calendar → World → String → World
register_challenge_strike_for_rejection env cal w ip =
    if env.fails count_strike ip
    then w
    else (let (strikes, redis') =
          Limits.register_challenge_strike w.redis (cal.hour_stamp env.now) ip in
        let w' = record w { redis = redis' } in
        if not (leb strikes_allowed strikes)
        then w'
        else if env.fails set_cooldown ip
        then w'
        else record w' { redis = Limits.set_challenge_cooldown redis' env.now ip (30 * minute) })

-- A frame of the type AUTH_CHALLENGE_SOLUTION: its challenge id and its answer, if it has one.
pub record Solution : Type 0 where
  pub challenge_id : String
  pub puzzle_answer : Option ℕ

-- What the socket yields behind the challenge: an error, a frame of another kind, or a solution.
pub data Attempt : Type 0 where
  unread stray : Attempt
  solution : Solution → Attempt

abbrev pub answers : Option ℕ → ℕ → Bool
answers none expected = false
answers (some a) expected = eqb a expected

-- Whether the challenge is passed, and the state.
unfoldable pub run_puzzle_challenge :
    Env → Primitives → Calendar → World → String → String → String → Attempt → Bool × World
unfolding register_challenge_strike_for_rejection
run_puzzle_challenge env p cal w ip seed challenge_id unread = (false, w)
run_puzzle_challenge env p cal w ip seed challenge_id stray = (false, w)
run_puzzle_challenge env p cal w ip seed challenge_id (solution sol) =
    if not (sol.challenge_id == challenge_id)
    then (false, register_challenge_strike_for_rejection env cal w ip)
    else if not (answers sol.puzzle_answer (puzzle_answer_from_seed p seed puzzle_strips))
    then (false, register_challenge_strike_for_rejection env cal w ip)
    else (true, w)

-- The same over a Redis server, where the count of a key that is missing is an error.
unfoldable pub puzzle_required_over_server :
    {S : Type 0} → Commands S → S → ℕ → String → ChallengeMode → List String → String → Bool
unfolding client_advertises_challenge
puzzle_required_over_server c s now stamp mode client_caps ip =
    if not (client_advertises_challenge client_caps)
    then false
    else if is_always mode
    then true
    else elim (Counters.issuance_count_today c s now stamp ip) [ none ↦ true | some n ↦ leb 1 n ]
