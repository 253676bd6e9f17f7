-- ===== src/Redis/Once/Laws.antt =====
-- Single use in wiltkey_server/redis.go: a challenge, a nonce or a voucher that was accepted is
-- refused while it could still be valid.
use wilt_key.Prelude.{
  ℕ, ◌+◌, ◌-◌, ◌*◌, ◌≤◌, ◌<◌, ◌≡◌, String, true, false, none, some, List, [], ◌∷◌, arith, All,
  eq_iff, eq_refl, leb, Bool-cases, inl, inr,
}
use wilt_key.Prelude.Text.{concat}
use wilt_key.Prelude.GoMap.{lookup, lookup-insert, lookup-delete}
use wilt_key.Time.{minute, second}
use wilt_key.Redis.{RedisClient}
use wilt_key.Redis.Once.{get_pow_challenge_difficulty, is_nonce_unique, consume_voucher}

-- The calls that write the set of used nonces.
pub data Call : Type 0 where
  nonce : ℕ → String → Call
  voucher : ℕ → String → ℕ → Call

abbrev pub time_of : Call → ℕ
time_of (nonce now n) = now
time_of (voucher now sig expiry) = now

unfoldable pub step : RedisClient → Call → RedisClient
step r (nonce now n) = (is_nonce_unique r now n).1
step r (voucher now sig expiry) = (consume_voucher r now sig expiry).1

unfoldable pub run : RedisClient → List Call → RedisClient
unfolding step
run r [] = r
run r (c ∷ cs) = run (step r c) cs

-- `key` is marked as used until `until`.
abbrev MarkedUntil : RedisClient → String → ℕ → Type 0
MarkedUntil r key until = lookup r.memory_nonces key ≡ some until

step-MarkedUntil :
    (r : RedisClient) (c : Call) (key : String) (until : ℕ)
    → time_of c < until
    → MarkedUntil r key until
    → MarkedUntil (step r c) key until
unfolding step is_nonce_unique consume_voucher
step-MarkedUntil r (nonce now n) key until h e =
    ground (arith, eq_iff n key, lookup-insert r.memory_nonces n key (now + 10 * minute))
step-MarkedUntil r (voucher now sig x) key until h e = ground (
  arith,
  eq_iff (concat "voucher:" sig) key,
  lookup-insert r.memory_nonces (concat "voucher:" sig) key (now + (x * second - now)),
)

run-MarkedUntil :
    (r : RedisClient) (cs : List Call) (key : String) (until t : ℕ)
    → t < until
    → All (λ c. time_of c ≤ t) cs
    → MarkedUntil r key until
    → MarkedUntil (run r cs) key until
unfolding run
run-MarkedUntil r [] key until t h past e = e
run-MarkedUntil r (c ∷ cs) key until t h past e =
    run-MarkedUntil (step r c) cs key until t h past.1
      (step-MarkedUntil r c key until (omega arith) e)

consume_voucher-marks :
    (r : RedisClient) (now : ℕ) (sig : String) (expiry : ℕ)
    → (consume_voucher r now sig expiry).0 ≡ true
    → MarkedUntil (consume_voucher r now sig expiry).1 (concat "voucher:" sig) (expiry * second)
unfolding consume_voucher
consume_voucher-marks r now sig expiry h = ground (
  arith,
  eq_refl (concat "voucher:" sig),
  lookup-insert r.memory_nonces (concat "voucher:" sig) (concat "voucher:" sig)
      (now + (expiry * second - now)),
)

refused_while_marked :
    (r : RedisClient) (now : ℕ) (sig : String) (expiry until : ℕ)
    → now < until
    → MarkedUntil r (concat "voucher:" sig) until
    → (consume_voucher r now sig expiry).0 ≡ false
unfolding consume_voucher
refused_while_marked r now sig expiry until h e = ground arith

-- A voucher that was accepted is refused ever after, whatever other nonces and vouchers are
-- presented meanwhile: until its expiry by the mark, and from then on by the expiry itself.
pub voucher_single_use :
    (r : RedisClient) (now : ℕ) (sig : String) (expiry : ℕ) (cs : List Call) (later : ℕ)
    → (consume_voucher r now sig expiry).0 ≡ true
    → All (λ c. time_of c ≤ later) cs
    → (consume_voucher (run (consume_voucher r now sig expiry).1 cs) later sig expiry).0 ≡ false
voucher_single_use r now sig expiry cs later h past =
    elim (Bool-cases (leb (expiry * second) later)) [
      | inl over ↦ unfold consume_voucher in rw over
      | inr open_still ↦ refused_while_marked _ later sig expiry (expiry * second) (ground arith) (
          run-MarkedUntil _ cs (concat "voucher:" sig) (expiry * second) later (ground arith) past
            (consume_voucher-marks r now sig expiry h))
    ]

is_nonce_unique-marks :
    (r : RedisClient) (now : ℕ) (n : String)
    → (is_nonce_unique r now n).0 ≡ true
    → MarkedUntil (is_nonce_unique r now n).1 n (now + 10 * minute)
unfolding is_nonce_unique
is_nonce_unique-marks r now n h =
    ground (arith, eq_refl n, lookup-insert r.memory_nonces n n (now + 10 * minute))

nonce_refused :
    (r : RedisClient) (now : ℕ) (n : String) (until : ℕ)
    → now < until
    → MarkedUntil r n until
    → (is_nonce_unique r now n).0 ≡ false
unfolding is_nonce_unique
nonce_refused r now n until h e = ground arith

-- A nonce that was accepted is refused for the next ten minutes, whatever is presented meanwhile.
pub nonce_single_use :
    (r : RedisClient) (now : ℕ) (n : String) (cs : List Call) (later : ℕ)
    → (is_nonce_unique r now n).0 ≡ true
    → later < now + 10 * minute
    → All (λ c. time_of c ≤ later) cs
    → (is_nonce_unique (run (is_nonce_unique r now n).1 cs) later n).0 ≡ false
nonce_single_use r now n cs later h soon past =
    nonce_refused _ later n (now + 10 * minute) soon
      (run-MarkedUntil _ cs n (now + 10 * minute) later soon past (is_nonce_unique-marks r now n h))

-- A challenge yields its difficulty once: a second request for it is refused, at any time.
pub challenge_single_use :
    (r : RedisClient) (now later : ℕ) (challenge : String) (difficulty : ℕ)
    → (get_pow_challenge_difficulty r now challenge).0 ≡ some difficulty
    → (get_pow_challenge_difficulty
        (get_pow_challenge_difficulty r now challenge).1
        later
        challenge).0
      ≡ none
unfolding get_pow_challenge_difficulty
challenge_single_use r now later challenge difficulty h =
    ground (arith, lookup-delete r.memory_pow challenge challenge, eq_refl challenge)
