-- ===== src/Examples/Puzzles.antt =====
-- Concrete inputs to the laws of the human challenge.
use wilt_key.Prelude.{◌+◌, ◌≡◌, ◌&&◌, refl, true, some, [], ◌∷◌, ◌==◌, arith, if◌then◌else◌}
use wilt_key.Prelude.GoMap.{lookup, insert, empty}
use wilt_key.Time.{minute, Calendar}
use wilt_key.Redis.{new_redis_client}
use wilt_key.Redis.Limits.{check_challenge_cooldown, issuance_count_today}
use wilt_key.Crypto.{puzzle_strips, puzzle_answer_from_seed}
use wilt_key.Relay.{World}
use wilt_key.Relay.Challenge.{
  off, Solution, solution, answers, puzzle_required_for_client,
  register_challenge_strike_for_rejection, run_puzzle_challenge,
}
use wilt_key.Relay.Challenge.Strikes.{strike_count, attempt_strikes, third_strike_cools}
use wilt_key.Examples.{noon, env, world, hashes}

abbrev pub calendar : Calendar
calendar = record {
  minute_stamp = λ t. "202611261612";
  hour_stamp = λ t. "2026112616";
  day_stamp = λ t. "20261126";
}

abbrev guess : Solution
guess = record { challenge_id = "c1"; puzzle_answer = some 3 }

attempt_strikes_example :
    let right =
      "c1" == "c1" && answers (some 3) (puzzle_answer_from_seed hashes "seed" puzzle_strips) in
    let (passed, w') =
      run_puzzle_challenge env hashes calendar world "10.0.0.1" "seed" "c1" (solution guess) in
    (passed ≡ right)
    × (strike_count w'.redis "2026112616" "10.0.0.1" ≡ (
        if right
        then strike_count world.redis "2026112616" "10.0.0.1"
        else strike_count world.redis "2026112616" "10.0.0.1" + 1))
attempt_strikes_example =
    attempt_strikes env hashes calendar world "10.0.0.1" "seed" "c1" guess refl

abbrev two_strikes : World
two_strikes = record world {
  redis = record new_redis_client {
    memory_ch_strikes = insert empty "chstrike:10.0.0.1:2026112616" 2;
    memory_issuance = insert empty "issuance:10.0.0.1:20261126" 1;
  };
}

third_strike_cools_example :
    (check_challenge_cooldown
      (register_challenge_strike_for_rejection env calendar two_strikes "10.0.0.1").redis
      (noon + minute)
      "10.0.0.1").0
    ≡ true
unfolding strike_count lookup insert empty
third_strike_cools_example =
    third_strike_cools env calendar two_strikes "10.0.0.1" (noon + minute) (omega arith) refl refl
      (omega arith)

-- It is asked for at the second issuance of a day.
off_asks :
    puzzle_required_for_client env calendar two_strikes off ("human_challenge" ∷ []) "10.0.0.1"
    ≡ true
unfolding puzzle_required_for_client issuance_count_today lookup insert empty
off_asks = refl
