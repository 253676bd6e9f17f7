-- ===== src/Relay/Http/Social.antt =====
-- wiltkey_server/social_stories.go, and handleFileDownload of main.go.
use wilt_key.Prelude.{
  ℕ, ◌-◌, ◌*◌, ◌/◌, String, Bool, not, ◌||◌, Option, none, some, ◌==◌, if◌then◌else◌,
}
use wilt_key.Prelude.Text.{concat}
use wilt_key.Prelude.GoMap.{lookup}
use wilt_key.Time.{second, unix}
use wilt_key.Redis.Tokens
use wilt_key.Db.{PgMessage}
use wilt_key.Db.Messages
use wilt_key.Db.Social
use wilt_key.Storage.{storage_key_from_url}
use wilt_key.Crypto.{Primitives, decimal}
use wilt_key.Relay.{Env, World, consume_budget, wipe_social, get_token, get_file}
use wilt_key.Relay.Premium.{check_premium_subscription, holds}
use wilt_key.Relay.Cleanup.{remove_all}
use wilt_key.Relay.Files.{Download, refused, served}
use wilt_key.Relay.Http.{Reply, reply, Claim, check_claim, verify_social_identity}

-- The query of a budget request; `timestamp` is `none` where the text is no number.
pub record BudgetQuery : Type 0 where
  pub user_id : String
  pub pubkey : String
  pub timestamp_str : String
  pub timestamp : Option ℕ
  pub sig : String

unfoldable pub verify_query_identity :
    Env → Primitives → World → String → BudgetQuery → String → Option (Reply × World)
unfolding check_claim
verify_query_identity env p w ip q signed =
    if q.user_id == "" || (q.pubkey == "" || (q.timestamp_str == "" || q.sig == ""))
    then some (reply 400 "Missing authentication query parameters", w)
    else elim q.timestamp [
      | none ↦ some (reply 400 "Invalid timestamp", w)
      | some timestamp ↦
          check_claim env p w ip 60 "Invalid pubkey hex" "identity public key mismatch"
            "invalid cryptographic signature"
            (record {
              id = q.user_id;
              pubkey = q.pubkey;
              timestamp = timestamp;
              sig = q.sig;
              signed = signed;
            })
    ]

-- The JSON of a budget reply.
pub data Budget : Type 0 where
  refusal : Reply → Budget
  budget : ℕ → ℕ → Bool → ℕ → ℕ → Budget

unfoldable pub read_budget : Env → World → String → Budget × World
unfolding check_premium_subscription
read_budget env w user_id =
    if not env.has_pg
    then (refusal (reply 503 "PostgreSQL unavailable"), w)
    else (let (sub, w') = check_premium_subscription env w user_id in
        if env.fails consume_budget user_id
        then (refusal (reply 500 "Database error retrieving budget"), w')
        else (let (b, db') = Social.get_or_create_social_budget w'.db env.now user_id in
            (
              budget b.bytes_used (Social.max_budget (holds sub)) (holds sub) (unix b.week_start)
                  (7 * 24 * 3600 - (env.now - b.week_start) / second),
              record w' { db = db' },
            )))

unfoldable pub handle_get_social_budget :
    Env → Primitives → World → String → String → BudgetQuery → Budget × World
unfolding verify_query_identity read_budget
handle_get_social_budget env p w method ip q =
    if not (method == "GET")
    then (refusal (reply 405 "Method not allowed"), w)
    else elim (verify_query_identity env p w ip q
        (concat "WILTKEY_SOCIAL_BUDGET:" (concat q.user_id (concat ":" q.timestamp_str)))) [
          | some (r, w') ↦ (refusal r, w')
          | none ↦ read_budget env w q.user_id
        ]

-- The fields of a SocialRequest that a wipe reads.
pub record SocialRequest : Type 0 where
  pub id : String
  pub pubkey : String
  pub timestamp : ℕ
  pub sig : String

abbrev pub wipe_claim : SocialRequest → Claim
wipe_claim req = record {
  id = req.id;
  pubkey = req.pubkey;
  timestamp = req.timestamp;
  sig = req.sig;
  signed = concat "WILTKEY_SOCIAL_WIPE:" (concat req.id (concat ":" (decimal req.timestamp)));
}

unfoldable pub wipe : Env → World → String → Reply × World
unfolding remove_all
wipe env w user_id =
    if not env.has_pg
    then (reply 503 "PostgreSQL storage unavailable", w)
    else if env.fails wipe_social user_id
    then (reply 500 "Failed to wipe social data", w)
    else (let (urls, db') = Social.wipe_user_social_data w.db user_id in
        (
          reply 200 "All social data wiped successfully",
          remove_all env (record w { db = db' }) urls,
        ))

unfoldable pub handle_social_wipe :
    Env → Primitives → World → String → String → Option SocialRequest → Reply × World
unfolding verify_social_identity wipe
handle_social_wipe env p w method ip none =
    (if not (method == "POST") then reply 405 "Method not allowed" else reply 400 "Invalid JSON", w)
handle_social_wipe env p w method ip (some req) =
    if not (method == "POST")
    then (reply 405 "Method not allowed", w)
    else elim (verify_social_identity env p w ip (wipe_claim req)) [
      | some r ↦ r
      | none ↦ wipe env w req.id
    ]

-- What a row yields: the object, where it can be read.
unfoldable pub serve_object : Env → World → PgMessage → Option String → Download
serve_object env w found none = refused 404
serve_object env w found (some url) =
    if storage_key_from_url url == ""
    then refused 404
    else elim (lookup w.bucket (storage_key_from_url url)) [
      | none ↦ refused 500
      | some body ↦ served body found.size_bytes
    ]

-- A download changes nothing.
unfoldable pub handle_file_download : Env → World → String → String → Download
unfolding serve_object
handle_file_download env w method token =
    if not (method == "GET")
    then refused 405
    else if token == ""
    then refused 400
    else if not env.has_pg
    then refused 503
    else if env.fails get_token token
    then refused 500
    else (let (message_id, user_id) = Tokens.get_file_token w.redis env.now token in
        if message_id == "" || user_id == ""
        then refused 403
        else if env.fails get_file message_id
        then refused 500
        else elim (Messages.get_file_message w.db env.now message_id user_id) [
          | none ↦ refused 404
          | some found ↦ serve_object env w found found.bucket_url
        ])
