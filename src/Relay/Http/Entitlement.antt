-- ===== src/Relay/Http/Entitlement.antt =====
-- handlePostEntitlement of wiltkey_server/main.go. The verdict on a purchase token is the matter of
-- Play.Billing, whose verifier is an argument.
pub mod Lapse
pub mod Paid
use wilt_key.Prelude.{
  ℕ, ◌+◌, ◌-◌, ◌*◌, String, Bool, not, ◌&&◌, Option, none, some, ◌==◌, ltb, if◌then◌else◌,
}
use wilt_key.Time.{day, unix}
use wilt_key.Redis.Tokens
use wilt_key.Db.Entitlements
use wilt_key.Crypto.{Primitives, bytes, sha256_hex}
use wilt_key.Play.{Google}
use wilt_key.Play.Billing.{PlayVerifier, Verdict, entitled, not_entitled, failed, verify}
use wilt_key.Relay.{Env, World, store_entitlement, cache_entitlement}
use wilt_key.Relay.Http.{Reply, reply, Claim, lacks_fields, check_claim}
use wilt_key.Relay.Http.Polling.{bound}

pub record EntitlementRequest : Type 0 where
  pub user_id : String
  pub pubkey : String
  pub signature : String
  pub timestamp : ℕ
  pub purchase_token : String
  pub subscription_hash : String

abbrev pub entitlement_claim : EntitlementRequest → Claim
entitlement_claim req = record {
  id = req.user_id;
  pubkey = req.pubkey;
  timestamp = req.timestamp;
  sig = req.signature;
  signed = bound req.user_id req.timestamp;
}

-- The reply: a refusal, or success with the Unix time in seconds at which the entitlement expires.
pub data EntitlementReply : Type 0 where
  refused : Reply → EntitlementReply
  success : ℕ → EntitlementReply

abbrev pub refuse : Reply × World → EntitlementReply × World
refuse (r, w) = (refused r, w)

-- The row, and the cached copy with the time that is left.
unfoldable pub grant : Env → World → String → String → ℕ → EntitlementReply × World
grant env w user_id hash expiry =
    if env.fails store_entitlement user_id
    then (refused (reply 500 "Database error storing entitlement"), w)
    else (let w' = record w { db = Entitlements.store_entitlement w.db user_id hash expiry } in
        (
          success (unix expiry),
          (if ltb env.now expiry && not (env.fails cache_entitlement user_id)
              then record w' {
                redis = Tokens.store_entitlement w.redis env.now user_id hash (expiry - env.now);
              }
              else w'),
        ))

unfoldable pub grant_verified :
    Env → Primitives → World → EntitlementRequest → Verdict → EntitlementReply × World
unfolding grant
grant_verified env p w req not_entitled =
    (refused (reply 402 "No active subscription for this purchase token"), w)
grant_verified env p w req (failed e) =
    (refused (reply 503 "Could not verify the purchase right now, please try again"), w)
grant_verified env p w req (entitled expiry) =
    grant env w req.user_id (sha256_hex p (bytes req.purchase_token)) expiry

-- Behind the checks of the claim.
unfoldable pub entitle :
    Env → Primitives → Google → PlayVerifier → World → EntitlementRequest → EntitlementReply × World
unfolding grant_verified grant verify
entitle env p google v w req =
    if req.purchase_token == "" && req.subscription_hash == ""
    then (refused (reply 400 "Missing subscription token or hash"), w)
    else if v.enabled
    then (if req.purchase_token == ""
        then (refused (reply 400 "A Play purchase token is required"), w)
        else grant_verified env p w req (verify google env.now v req.purchase_token).0)
    else grant env w req.user_id
        (if not (req.subscription_hash == "")
          then req.subscription_hash
          else sha256_hex p (bytes req.purchase_token))
        (env.now + 30 * day)

unfoldable pub handle_post_entitlement :
    Env
    → Primitives
    → Google
    → PlayVerifier
    → World
    → String
    → String
    → Option EntitlementRequest
    → EntitlementReply × World
unfolding entitle check_claim
handle_post_entitlement env p google v w method ip body =
    if not (method == "POST")
    then (refused (reply 405 "Method not allowed"), w)
    else if not env.has_pg
    then (refused (reply 500 "Postgres is not configured"), w)
    else elim body [
      | none ↦ (refused (reply 400 "Invalid request body"), w)
      | some req ↦
          if lacks_fields (entitlement_claim req)
          then (refused (reply 400 "Missing authentication fields"), w)
          else elim (check_claim env p w ip 30 "Invalid pubkey hex format"
              "identity public key mismatch" "invalid authentication signature"
              (entitlement_claim req)) [
                | some refusal ↦ refuse refusal
                | none ↦ entitle env p google v w req
              ]
    ]
