-- ===== src/Redis/Server/Single.antt =====
-- The calls of wiltkey_server/redis.go that write keyed values over a Redis server.
pub mod Spent
use wilt_key.Prelude.{
  ℕ, ◌+◌, ◌-◌, ◌*◌, ◌≤◌, ◌<◌, ◌≡◌, ◌∙◌, ◌⊎◌, inl, inr, refl, String, Bool, true, false, Option,
  some, List, [], ◌∷◌, arith, All, ◌==◌, eq_iff, eq_refl, eqb, leb, Bool-cases, Option-cases,
  option_case, if_case, if_split, le→leb, ap,
}
use wilt_key.Prelude.Text.{concat, concat_apart, prefixes_differ, differ}
use wilt_key.Time.{second}
use wilt_key.Redis.Server.{Commands, Laws, entry, millisecond}
use wilt_key.Redis.Server.Gates
use wilt_key.Redis.Server.Values
use wilt_key.Redis.Server.Counters
use wilt_key.Redis.Server.Issuance.{incr_fixed-other}

-- The calls that write keyed values.
pub data Call : Type 0 where
  block unblock delete_push delete_pairing delete_nonce : String → Call
  store_pow : String → ℕ → Call
  take_pow nonce failure : String → Call
  nuke large action voucher ban cooldown : String → ℕ → Call
  push : String → String → Call
  file_token : String → String → String → Call
  pairing entitlement integrity : String → String → ℕ → Call
  tunnel : String → String → ℕ → Call
  tunnel_bytes : String → ℕ → Call
  delete_tunnel : String → String → Call
  rate issuance : String → String → ℕ → Call
  strike : String → String → Call

unfoldable pub step : {S : Type 0} → Commands S → S → ℕ → Call → S
step c s now (block u) = Gates.block_queue c s now u
step c s now (unblock u) = Gates.unblock_queue c s u
step c s now (delete_push u) = Values.delete_push_token c s u
step c s now (delete_pairing pin) = Values.delete_pairing c s pin
step c s now (delete_nonce k) = Values.delete_integrity_nonce c s k
step c s now (store_pow x n) = Gates.store_pow_challenge c s now x n
step c s now (take_pow x) = (Gates.get_pow_challenge_difficulty c s now x).1
step c s now (nonce n) = (Gates.is_nonce_unique c s now n).1
step c s now (nuke u limit) = (Counters.allow_nuke c s now u limit).1
step c s now (failure ip) = (Counters.increment_ip_failure c s now ip).1
step c s now (large u d) = (Gates.allow_large_upload c s now u d).1
step c s now (action k d) = (Gates.allow_action c s now k d).1
step c s now (voucher sig expiry) = (Gates.consume_voucher c s now sig expiry).1
step c s now (ban ip d) = Gates.ban_ip c s now ip d
step c s now (cooldown ip d) = Gates.set_challenge_cooldown c s now ip d
step c s now (push u token) = Values.set_push_token c s now u token
step c s now (file_token t m u) = Values.store_file_token c s now t m u
step c s now (pairing pin payload ttl) = Values.store_pairing c s now pin payload ttl
step c s now (entitlement u h ttl) = Values.store_entitlement c s now u h ttl
step c s now (integrity k n ttl) = Values.store_integrity_nonce c s now k n ttl
step c s now (tunnel a b ttl) = Values.create_tunnel c s now a b ttl
step c s now (tunnel_bytes t n) = (Values.increment_tunnel_bytes c s now t n).1
step c s now (delete_tunnel a b) = Values.delete_tunnel c s a b
step c s now (rate ip stamp limit) = (Counters.check_ip_rate_limit c s now stamp ip limit).1
step c s now (issuance ip stamp limit) = (Counters.allow_issuance c s now stamp ip limit).1
step c s now (strike ip stamp) = (Counters.register_challenge_strike c s now stamp ip).1

unfoldable pub run : {S : Type 0} → Commands S → S → List (ℕ × Call) → S
unfolding step
run c s [] = s
run c s ((now, call) ∷ calls) = run c (step c s now call) calls
