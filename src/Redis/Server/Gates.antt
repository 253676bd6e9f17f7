-- ===== src/Redis/Server/Gates.antt =====
-- The locks, gates and single-use marks of wiltkey_server/redis.go over a Redis server.
use wilt_key.Prelude.{ℕ, ◌-◌, ◌*◌, String, Bool, false, Option, none, some, leb, if◌then◌else◌}
use wilt_key.Prelude.Text.{concat}
use wilt_key.Time.{minute, second}
use wilt_key.Redis.Blocks.{nuke_block_ttl}
use wilt_key.Redis.Server.{Commands}

unfoldable pub block_queue : {S : Type 0} → Commands S → S → ℕ → String → S
block_queue c s now user_id = c.set s now (concat "block:" user_id) "1" nuke_block_ttl

unfoldable pub unblock_queue : {S : Type 0} → Commands S → S → String → S
unblock_queue c s user_id = c.del s (concat "block:" user_id)

unfoldable pub is_queue_blocked : {S : Type 0} → Commands S → S → ℕ → String → Bool
is_queue_blocked c s now user_id = c.exists s now (concat "block:" user_id)

unfoldable pub store_pow_challenge : {S : Type 0} → Commands S → S → ℕ → String → ℕ → S
store_pow_challenge c s now challenge difficulty =
    c.set s now (concat "pow:challenge:" challenge) (c.itoa difficulty) (5 * minute)

-- GET and DEL are two commands: `none` is an error, of a missing key or of a text that is no number.
unfoldable pub get_pow_challenge_difficulty :
    {S : Type 0} → Commands S → S → ℕ → String → Option ℕ × S
get_pow_challenge_difficulty c s now challenge =
    elim (c.get s now (concat "pow:challenge:" challenge)) [
      | none ↦ (none, s)
      | some v ↦ elim (c.atoi v) [
        | none ↦ (none, s)
        | some val ↦ (some val, c.del s (concat "pow:challenge:" challenge))
      ]
    ]

unfoldable pub is_nonce_unique : {S : Type 0} → Commands S → S → ℕ → String → Bool × S
is_nonce_unique c s now nonce = c.set_nx s now (concat "pow:nonce:" nonce) "1" (10 * minute)

unfoldable pub allow_large_upload : {S : Type 0} → Commands S → S → ℕ → String → ℕ → Bool × S
allow_large_upload c s now sender_id cooldown =
    c.set_nx s now (concat "largeup:" sender_id) (c.itoa 1) cooldown

unfoldable pub allow_action : {S : Type 0} → Commands S → S → ℕ → String → ℕ → Bool × S
allow_action c s now key cooldown = c.set_nx s now key (c.itoa 1) cooldown

unfoldable pub consume_voucher : {S : Type 0} → Commands S → S → ℕ → String → ℕ → Bool × S
consume_voucher c s now sig expiry_unix =
    if leb (expiry_unix * second) now
    then (false, s)
    else c.set_nx s now (concat "voucher:used:" sig) "1" (expiry_unix * second - now)

unfoldable pub check_ip_ban : {S : Type 0} → Commands S → S → ℕ → String → Bool
check_ip_ban c s now ip = c.exists s now (concat "ban:" ip)

unfoldable pub ban_ip : {S : Type 0} → Commands S → S → ℕ → String → ℕ → S
ban_ip c s now ip duration = c.set s now (concat "ban:" ip) "1" duration

unfoldable pub check_challenge_cooldown : {S : Type 0} → Commands S → S → ℕ → String → Bool
check_challenge_cooldown c s now ip = c.exists s now (concat "chcooldown:" ip)

unfoldable pub set_challenge_cooldown : {S : Type 0} → Commands S → S → ℕ → String → ℕ → S
set_challenge_cooldown c s now ip duration =
    c.set s now (concat "chcooldown:" ip) (c.itoa 1) duration
