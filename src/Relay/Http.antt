-- ===== src/Relay/Http.antt =====
-- The HTTP side of wiltkey_server/main.go and push.go: the middleware, the proof-of-work
-- challenge, and the checks of identity that its endpoints share. A handler takes the client's
-- address and the decoded request, and returns the reply beside the state. A timestamp is the
-- number of seconds since 1970; one before that is refused by the drift like any other old one.
pub mod Protection
pub mod Queue
pub mod Polling
pub mod Social
pub mod Guards
pub mod Posting
pub mod Entitlement
pub mod Integrity
use wilt_key.Prelude.{
  ℕ, suc, ◌+◌, ◌-◌, ◌*◌, String, Bool, true, false, not, ◌&&◌, ◌||◌, Option, none, some, List, [],
  ◌∷◌, ◌==◌, ltb, leb, eqb, if◌then◌else◌,
}
use wilt_key.Prelude.Text.{concat}
use wilt_key.Time.{minute, Calendar, unix}
use wilt_key.Redis.Once
use wilt_key.Redis.Limits
use wilt_key.Db.DeviceTokens
use wilt_key.Crypto.{
  Primitives, Result, ok, err, bytes, sha256_hex, hex_decode, generate_user_id, verify_signature,
}
use wilt_key.Relay.{
  Env, World, Op, check_ban, check_rate, count_failure, set_ban, random, store_challenge,
  verify_token,
}

-- The status code and the text of the body.
pub record Reply : Type 0 where
  pub code : ℕ
  pub body : String

abbrev pub reply : ℕ → String → Reply
reply code body = record { code = code; body = body }

unfoldable pub ban_for : Env → World → String → ℕ → World
ban_for env w ip duration =
    if env.fails set_ban ip
    then w
    else record w { redis = Limits.ban_ip w.redis env.now ip duration }

-- A failure to count bans nobody.
unfoldable pub register_ip_failure : Env → World → String → World
unfolding ban_for
register_ip_failure env w ip =
    if env.fails count_failure ip
    then w
    else (let (fails, redis') = Limits.increment_ip_failure w.redis env.now ip in
        let w' = record w { redis = redis' } in
        if eqb fails 1
        then ban_for env w' ip (5 * minute)
        else if leb 2 fails
        then ban_for env w' ip (30 * minute)
        else w')

unfoldable pub handle_validation_failure : Env → World → String → String → Reply × World
unfolding register_ip_failure
handle_validation_failure env w ip reason =
    (reply 400 (concat "Validation failed: " reason), register_ip_failure env w ip)

unfoldable pub rate_limit_middleware :
    Env → Calendar → World → String → (World → Reply × World) → Reply × World
rate_limit_middleware env cal w ip next =
    if env.fails check_ban ip
    then (reply 500 "Database error check ban", w)
    else if Limits.check_ip_ban w.redis env.now ip
    then (reply 403 "Banned", w)
    else if env.fails check_rate ip
    then (reply 500 "Database error check rate limit", w)
    else (let (allowed, redis') =
          Limits.check_ip_rate_limit w.redis (cal.minute_stamp env.now) ip 10 in
        let w' = record w { redis = redis' } in
        if allowed then next w' else (reply 429 "Rate limit exceeded", w'))

abbrev pub challenge_difficulty : ℕ
challenge_difficulty = 5

-- `uuid` supplies the random challenge too, which is the body of the reply.
unfoldable pub handle_get_challenge : Env → World → String → Reply × World
handle_get_challenge env w method =
    if not (method == "GET")
    then (reply 405 "Method not allowed", w)
    else (let challenge = env.uuid w.draws in
        let w' = record w { draws = suc w.draws } in
        if env.fails random ""
        then (reply 500 "Failed to generate challenge", w)
        else if env.fails store_challenge challenge
        then (reply 500 "Failed to store challenge", w')
        else (
          reply 200 challenge,
          record w' {
            redis = Once.store_pow_challenge w.redis env.now challenge challenge_difficulty;
          },
        ))

-- The identity that a request claims, with the text that its signature is to bind.
pub record Claim : Type 0 where
  pub id : String
  pub pubkey : String
  pub timestamp : ℕ
  pub sig : String
  pub signed : String

-- |a - b|
unfoldable pub drift : ℕ → ℕ → ℕ
drift a b = (a - b) + (b - a)

-- Whether the claim holds, or why not.
abbrev pub verified : Result Bool → Bool
verified (ok b) = b
verified (err e) = false

-- The checks behind that of missing fields: the timestamp within `max_drift` seconds, the id that
-- of the key, and the signature. A refusal is the reply beside the state.
unfoldable pub check_claim :
    Env
    → Primitives
    → World
    → String
    → ℕ
    → String
    → String
    → String
    → Claim
    → Option (Reply × World)
unfolding drift handle_validation_failure
check_claim env p w ip max_drift bad_hex bad_id bad_sig c =
    if ltb max_drift (drift (unix env.now) c.timestamp)
    then some (handle_validation_failure env w ip "timestamp drift too high")
    else elim (hex_decode c.pubkey) [
      | none ↦ some (reply 400 bad_hex, w)
      | some pub_bytes ↦
          if not (generate_user_id p pub_bytes == c.id)
          then some (handle_validation_failure env w ip bad_id)
          else if verified (verify_signature p c.pubkey c.sig (bytes c.signed))
          then none
          else some (handle_validation_failure env w ip bad_sig)
    ]

abbrev pub lacks_fields : Claim → Bool
lacks_fields c = c.id == "" || (c.pubkey == "" || (c.sig == "" || eqb c.timestamp 0))

unfoldable pub verify_push_identity :
    Env → Primitives → World → String → Claim → Option (Reply × World)
unfolding check_claim
verify_push_identity env p w ip c =
    if lacks_fields c
    then some (reply 400 "Missing fields", w)
    else check_claim env p w ip 30 "Invalid pubkey hex format" "identity public key mismatch"
        "invalid authentication signature" c

unfoldable pub verify_social_identity :
    Env → Primitives → World → String → Claim → Option (Reply × World)
unfolding check_claim
verify_social_identity env p w ip c =
    if lacks_fields c
    then some (reply 400 "Missing required authentication fields", w)
    else check_claim env p w ip 60 "Invalid pubkey hex" "identity public key mismatch"
        "invalid cryptographic signature" c

-- The refusal, if any; the database of device tokens is only read.
unfoldable pub verify_device_token_gate : Env → Primitives → World → String → String → Option Reply
verify_device_token_gate env p w user_id device_token =
    if not env.has_pg
    then some (reply 503 "token store unavailable")
    else if device_token == ""
    then some (reply 403 "device_token_required")
    else if env.fails verify_token user_id
    then some (reply 500 "token store error")
    else if (DeviceTokens.verify_device_token w.db env.now user_id
        (sha256_hex p (bytes device_token))).0
    then none
    else some (reply 403 "device_token_invalid")
