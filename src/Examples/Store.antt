-- ===== src/Examples/Store.antt =====
-- Concrete inputs to the laws of the queues, the single-use marks and the counters.
use wilt_key.Prelude.{
  ◌+◌, ◌-◌, ◌≤◌, ◌≡◌, ◌≢◌, leb, refl, min, String, false, List, [], ◌∷◌, ◌==◌, map, keep, count,
  length, arith,
}
use wilt_key.Prelude.Text.{ne_of_test}
use wilt_key.Prelude.GoMap.{lookup, empty}
use wilt_key.Redis.{RedisClient, new_redis_client}
use wilt_key.Redis.Queue.{queue_of, is_active, to_queued, fetch_and_clear_queue, max_queue_len}
use wilt_key.Redis.Queue.Delivery.{Call, add, fetch, run, mailbox, fetch-mailbox, run-bounded}
use wilt_key.Redis.Once.{consume_voucher, store_pow_challenge}
use wilt_key.Redis.Once.Laws.{
  voucher_single_use, nonce_single_use, challenge_single_use, nonce, voucher,
}
use wilt_key.Redis.Once.Laws as Once
use wilt_key.Redis.Limits.Rates.{admitted, rate_count, admitted-eq-min}
use wilt_key.Redis.Blocks.{allow_action}
use wilt_key.Redis.Blocks.Laws as Blocks
use wilt_key.Redis.Tokens.{store_entitlement}
use wilt_key.Examples.{noon, greeting}

abbrev calls : List Call
calls = add noon "ann" greeting 100 ∷ fetch noon "carl" ∷ []

fetch-mailbox_example :
    ((fetch_and_clear_queue (run new_redis_client calls) (noon + 1) "ann").0
      ≡ map to_queued (keep (is_active (noon + 1)) (mailbox "ann" [] calls)))
    × (queue_of (fetch_and_clear_queue (run new_redis_client calls) (noon + 1) "ann").1 "ann" ≡ [])
unfolding lookup empty
fetch-mailbox_example =
    fetch-mailbox new_redis_client "ann" calls (noon + 1) refl (omega arith)
      (omega arith, (omega arith, tt))

run-bounded_example : length (queue_of (run new_redis_client calls) "ann") ≤ max_queue_len
unfolding lookup empty
run-bounded_example = run-bounded new_redis_client calls "ann" (omega arith)

abbrev spent_voucher : RedisClient
spent_voucher = (consume_voucher new_redis_client noon "s1" 2000000).1

voucher_single_use_example :
    (consume_voucher (Once.run spent_voucher (nonce noon "7" ∷ [])) (noon + 5) "s1" 2000000).0
    ≡ false
unfolding consume_voucher lookup empty
voucher_single_use_example =
    voucher_single_use new_redis_client noon "s1" 2000000 (nonce noon "7" ∷ []) (noon + 5) refl
      (omega arith, tt)

abbrev challenged : RedisClient
challenged = store_pow_challenge new_redis_client noon "c1" 5

abbrev requests : List String
requests = "10.0.0.1" ∷ "10.0.0.2" ∷ "10.0.0.1" ∷ []

admitted-eq-min_example :
    admitted new_redis_client "202611261612" 10 "10.0.0.1" requests
    ≡ min
        (count (λ x. x == "10.0.0.1") requests)
        (10 - rate_count new_redis_client "202611261612" "10.0.0.1")
admitted-eq-min_example =
    admitted-eq-min new_redis_client "202611261612" 10 "10.0.0.1" requests refl

abbrev subscribed : RedisClient
subscribed = store_entitlement new_redis_client noon "ann" "h1" 10

-- Bob acts while Ann cools down.
abbrev bob_acts : List Blocks.Gate
bob_acts = record { at = noon + 5; key = "react:bob"; cooldown = 10 } ∷ []

another_key : ◌≢◌ {A = String} "react:bob" "react:ann"
another_key = ne_of_test "react:bob" "react:ann" refl

cooldown_exact_example :
    (allow_action
      (Blocks.run (allow_action new_redis_client noon "react:ann" 10).1 bob_acts)
      (noon + 10)
      "react:ann"
      10).0
    ≡ leb (noon + 10) (noon + 10)
unfolding allow_action lookup empty
cooldown_exact_example =
    Blocks.cooldown_exact new_redis_client noon "react:ann" 10 bob_acts (noon + 10) 10 refl
      (another_key, tt)
