-- ===== src/Relay/Http/Protection.antt =====
-- The spam protection of handlePostQueue of wiltkey_server/main.go: a proof of work or a voucher.
use wilt_key.Prelude.{
  ℕ, String, Bool, true, false, not, ◌||◌, Option, none, some, ◌==◌, eqb, if◌then◌else◌,
}
use wilt_key.Redis.Once
use wilt_key.Crypto.{Primitives, Result, ok, err, Voucher, decimal, verify_pow, verify_voucher}
use wilt_key.Relay.{Env, World, get_challenge, nonce_unique, use_voucher}
use wilt_key.Relay.Http.{Reply, reply, handle_validation_failure}

pub record PostMessageRequest : Type 0 where
  pub recipient_id : String
  pub envelope : String
  pub challenge : String
  pub nonce : ℕ
  pub voucher : Option Voucher

-- The refusal of a request that counts against its address.
unfoldable pub punish : Env → World → String → String → Option Reply × World
unfolding handle_validation_failure
punish env w ip reason = let (r, w') = handle_validation_failure env w ip reason in (some r, w')

-- Behind a challenge that was found: the nonce is used up, then the hash is checked.
unfoldable pub check_found_pow :
    Env → Primitives → World → String → PostMessageRequest → ℕ → Option Reply × World
unfolding punish
check_found_pow env p w ip req difficulty =
    let (unique, redis') = Once.is_nonce_unique w.redis env.now (decimal req.nonce) in
    let w' = record w { redis = redis' } in
    if env.fails nonce_unique (decimal req.nonce)
    then punish env w ip "replay attack detected (used nonce)"
    else if not unique
    then punish env w' ip "replay attack detected (used nonce)"
    else if verify_pow p req.challenge req.nonce req.envelope difficulty
    then (none, w')
    else punish env w' ip "incorrect proof of work"

-- The proof of work: the challenge is used up first.
unfoldable pub check_pow :
    Env → Primitives → World → String → PostMessageRequest → Option Reply × World
unfolding punish check_found_pow
check_pow env p w ip req =
    if req.challenge == "" || eqb req.nonce 0
    then punish env w ip "missing pow fields"
    else if env.fails get_challenge req.challenge
    then punish env w ip "invalid/expired challenge"
    else (let (found, redis') = Once.get_pow_challenge_difficulty w.redis env.now req.challenge in
        let w' = record w { redis = redis' } in
        elim found [
          | none ↦ punish env w' ip "invalid/expired challenge"
          | some difficulty ↦ check_found_pow env p w' ip req difficulty
        ])

-- The only use of a voucher whose signature holds.
unfoldable pub use_valid_voucher : Env → World → String → Voucher → Option Reply × World
unfolding punish
use_valid_voucher env w ip v =
    if env.fails use_voucher v.signature
    then (some (reply 500 "Database error"), w)
    else (let (fresh, redis') = Once.consume_voucher w.redis env.now v.signature v.expiry in
        let w' = record w { redis = redis' } in
        if fresh then (none, w') else punish env w' ip "voucher already used or expired")

-- By the verdict of verifyVoucher.
unfoldable pub use_voucher_if : Env → World → String → Voucher → Result Bool → Option Reply × World
unfolding punish use_valid_voucher
use_voucher_if env w ip v (err e) = punish env w ip e
use_voucher_if env w ip v (ok false) = punish env w ip "invalid voucher"
use_voucher_if env w ip v (ok true) = use_valid_voucher env w ip v

unfoldable pub check_voucher :
    Env → Primitives → World → String → PostMessageRequest → Option Reply × World
unfolding punish use_voucher_if
check_voucher env p w ip req = elim req.voucher [
  | none ↦ punish env w ip "missing voucher structure"
  | some v ↦ use_voucher_if env w ip v (verify_voucher p env.now req.recipient_id v)
]

-- The header X-Wiltkey-Spam-Protection, "" where there is none.
unfoldable pub check_spam_protection :
    Env → Primitives → World → String → String → PostMessageRequest → Option Reply × World
unfolding check_pow check_voucher
check_spam_protection env p w ip protection req =
    if protection == "" || protection == "pow"
    then check_pow env p w ip req
    else if protection == "voucher"
    then check_voucher env p w ip req
    else (some (reply 400 "Unsupported spam protection mechanism"), w)
