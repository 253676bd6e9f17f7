-- ===== src/Examples/Modes.antt =====
-- Concrete inputs to the laws of the mode over a Redis server.
use wilt_key.Prelude.{
  ℕ, ◌+◌, ◌*◌, ◌^◌, ◌≡◌, ◌≢◌, inl, refl, String, true, false, Option, some, none, eqb, List, [],
  ◌∷◌, arith, count, min, ◌==◌,
}
use wilt_key.Prelude.GoMap.{empty, lookup, insert, delete, lookup-empty}
use wilt_key.Time.{second, hour}
use wilt_key.Redis.{new_redis_client}
use wilt_key.Redis.Blocks
use wilt_key.Redis.Limits
use wilt_key.Redis.Once
use wilt_key.Redis.Server.Gates
use wilt_key.Redis.Server.Modes
use wilt_key.Redis.Server.Modes.Agreement.{Agree, memory-server}
use wilt_key.Redis.Server.Issuance.{granted, granted-eq-min}
use wilt_key.Redis.Server.Single
use wilt_key.Redis.Server.Single.Spent.{spent_stays}
use wilt_key.Relay.Challenge.{adaptive, puzzle_required_over_server, client_advertises_challenge}
use wilt_key.Relay.Challenge.Always.{Request, requested, always_challenged}
use wilt_key.Examples.{noon}
use wilt_key.Examples.Servers.{Server, commands, commands-Laws, get, set_nx}

abbrev blank : Server
blank = empty

-- A nuke, a nonce that is used twice and a ban, with the questions about them.
abbrev lock_calls : List (ℕ × Modes.Call)
lock_calls =
    (noon, Modes.block "ann")
    ∷ (noon + second, Modes.is_blocked "ann")
    ∷ (noon + second, Modes.is_blocked "bob")
    ∷ (noon + second, Modes.is_fresh "n1")
    ∷ (noon + 2 * second, Modes.is_fresh "n1")
    ∷ (noon + 2 * second, Modes.ban "10.0.0.1" 3599)
    ∷ (noon + 3 * second, Modes.is_banned "10.0.0.1")
    ∷ (noon + 3 * second, Modes.unblock "ann")
    ∷ (noon + 4 * second, Modes.is_blocked "ann")
    ∷ []

blank-Agree : Agree commands new_redis_client blank
unfolding lookup empty
blank-Agree = record { blocks = λ u. refl; bans = λ ip. refl; nonces = λ n. refl }

absent : (b : ℕ) → ◌≢◌ {A = Option ℕ} none (some b)
absent b e = cc

other_instant : (a b : ℕ) → eqb a b ≡ false → ◌≢◌ {A = Option ℕ} (some a) (some b)
other_instant a b h e = let same : a ≡ b = cc in ground arith

lock_calls-AllUntied : Modes.AllUntied new_redis_client lock_calls
unfolding Modes.AllUntied Modes.Untied Modes.in_memory Blocks.block_queue Blocks.unblock_queue
    Once.is_nonce_unique Limits.ban_ip lookup insert delete empty
lock_calls-AllUntied = (
  refl,
  (
    other_instant _ _ refl,
    (
      absent _,
      (
        absent _,
        (other_instant _ _ refl, (refl, (other_instant _ _ refl, (refl, (absent _, refl))))),
      ),
    ),
  ),
)

memory-server_example :
    Modes.memory_answers new_redis_client lock_calls
    ≡ Modes.server_answers commands blank lock_calls
memory-server_example =
    memory-server commands commands-Laws new_redis_client blank lock_calls blank-Agree
      lock_calls-AllUntied

-- Five requests of the day, three of them from one address.
abbrev day_requests : List (ℕ × String)
day_requests =
    (noon, "10.0.0.1")
    ∷ (noon + second, "10.0.0.2")
    ∷ (noon + 2 * second, "10.0.0.1")
    ∷ (noon + 3 * second, "10.0.0.2")
    ∷ (noon + 4 * second, "10.0.0.1")
    ∷ []

granted-eq-min_example :
    granted commands blank "20261126" 2 "10.0.0.1" day_requests
    ≡ min (count (λ call. call.1 == "10.0.0.1") day_requests) 2
granted-eq-min_example =
    granted-eq-min commands commands-Laws blank "20261126" 2 "10.0.0.1" day_requests (noon + hour)
      (lookup-empty "issuance:10.0.0.1:20261126")
      (
        (omega arith, omega arith),
        (
          (omega arith, omega arith),
          (
            (omega arith, omega arith),
            ((omega arith, omega arith), ((omega arith, omega arith), tt)),
          ),
        ),
      )

abbrev earlier_requests : List Request
earlier_requests = record { at = noon; stamp = "20261126"; ip = "10.0.0.2"; max_per_day = 20 } ∷ []

always_challenged_example :
    puzzle_required_over_server commands
      (requested commands blank earlier_requests)
      (noon + second)
      "20261126"
      adaptive
      ("human_challenge" ∷ [])
      "10.0.0.1"
    ≡ client_advertises_challenge ("human_challenge" ∷ [])
always_challenged_example =
    always_challenged commands commands-Laws blank earlier_requests (noon + second) "20261126"
      adaptive ("human_challenge" ∷ []) "10.0.0.1" (lookup-empty "issuance:10.0.0.1:20261126")

abbrev later_calls : List (ℕ × Single.Call)
later_calls =
    (noon + second, Single.block "ann") ∷ (noon + 2 * second, Single.nonce "voucher:used:sig") ∷ []

abbrev voucher_end : ℕ
voucher_end = 2 * 10 ^ 9

accepted : (Gates.consume_voucher commands blank noon "sig" voucher_end).0 ≡ true
unfolding Gates.consume_voucher set_nx get lookup empty
accepted = refl

spent_stays_example :
    (Gates.consume_voucher commands
      (Single.run commands
        (Gates.consume_voucher commands blank noon "sig" voucher_end).1
        later_calls)
      (noon + hour)
      "sig"
      voucher_end).0
    ≡ false
spent_stays_example =
    spent_stays commands commands-Laws blank noon "sig" voucher_end later_calls (noon + hour)
      accepted (omega arith, (omega arith, tt)) (inl (omega arith))
