-- ===== src/Relay/Http/Guards.antt =====
-- What the HTTP guards of wiltkey_server/main.go and push.go let through.
use wilt_key.Prelude.{
  ℕ, suc, ◌+◌, ◌*◌, ◌≡◌, ◌≤◌, refl, String, true, false, ◌||◌, Option, none, some, List, ◌==◌,
  eq_iff, arith, zero,
}
use wilt_key.Prelude.GoMap.{lookup, lookup-insert_self}
use wilt_key.Time.{minute, Calendar, unix}
use wilt_key.Redis.Limits
use wilt_key.Redis.Tokens.{file_token_ttl, split_last_colon}
use wilt_key.Redis.Tokens.Laws.{get-store_file_token}
use wilt_key.Db.{PgMessage}
use wilt_key.Db.Messages.{get_file_message}
use wilt_key.Storage.{storage_key_from_url}
use wilt_key.Crypto.{Primitives, bytes, hex_decode, generate_user_id, verify_signature}
use wilt_key.Relay.{Env, World, Client, WsMessage, Op, send_json}
use wilt_key.Relay.Files.{served, issue_token, handle_request_file}
use wilt_key.Relay.Http.{
  Reply, reply, Claim, ban_for, register_ip_failure, rate_limit_middleware, drift, verified,
  check_claim,
}
use wilt_key.Relay.Http.Social.{serve_object, handle_file_download}

-- After a validation failure that could be counted and banned, the address is banned for at least the next five
-- minutes, whatever was recorded before.
pub failure_bans :
    (env : Env) (w : World) (ip : String) (later : ℕ)
    → env.fails Op.count_failure ip ≡ false
    → env.fails Op.set_ban ip ≡ false
    → later ≤ env.now + 5 * minute
    → Limits.check_ip_ban (register_ip_failure env w ip).redis later ip ≡ true
unfolding register_ip_failure ban_for Limits.check_ip_ban Limits.ban_ip Limits.increment_ip_failure
failure_bans env w ip later counts bans soon = ground (
  arith,
  lookup-insert_self w.redis.memory_bans ip (env.now + 5 * minute),
  lookup-insert_self w.redis.memory_bans ip (env.now + 30 * minute),
)

-- A banned address is answered 403: the endpoint does not run, and nothing changes.
pub banned_refused :
    (env : Env) (cal : Calendar) (w : World) (ip : String) (next : World → Reply × World)
    → env.fails Op.check_ban ip ≡ false
    → Limits.check_ip_ban w.redis env.now ip ≡ true
    → rate_limit_middleware env cal w ip next ≡ (reply 403 "Banned", w)
unfolding rate_limit_middleware
banned_refused env cal w ip next works banned = ground arith

-- What an accepted claim is known to be.
abbrev pub Accepted : Env → Primitives → ℕ → Claim → Type 0
Accepted env p max_drift c =
    (drift (unix env.now) c.timestamp ≤ max_drift)
    × (verified (verify_signature p c.pubkey c.sig (bytes c.signed)) ≡ true)
    × ((key : List ℕ) × (hex_decode c.pubkey ≡ some key) × (generate_user_id p key ≡ c.id))

Accepted-by_key :
    (env : Env) (p : Primitives) (w : World) (ip : String) (max_drift : ℕ)
    (bad_hex bad_id bad_sig : String) (c : Claim) (k : Option (List ℕ))
    → hex_decode c.pubkey ≡ k
    → check_claim env p w ip max_drift bad_hex bad_id bad_sig c ≡ none
    → Accepted env p max_drift c
unfolding check_claim
Accepted-by_key env p w ip max_drift bad_hex bad_id bad_sig c none e h =
    let absurd : zero ≡ suc zero = ground arith in ground arith
Accepted-by_key env p w ip max_drift bad_hex bad_id bad_sig c (some key) e h =
    (ground arith, ground arith, (key, e, ground (arith, eq_iff (generate_user_id p key) c.id)))

-- A claim is accepted only if its timestamp is near, its signature verifies, and its id is that of
-- its key.
pub check_claim-none :
    (env : Env) (p : Primitives) (w : World) (ip : String) (max_drift : ℕ)
    (bad_hex bad_id bad_sig : String) (c : Claim)
    → check_claim env p w ip max_drift bad_hex bad_id bad_sig c ≡ none
    → Accepted env p max_drift c
check_claim-none env p w ip max_drift bad_hex bad_id bad_sig c h =
    Accepted-by_key env p w ip max_drift bad_hex bad_id bad_sig c (hex_decode c.pubkey) refl h

-- The token that a recipient is issued downloads his file through its ten minutes, from the object
-- that his row points to, where no store fails, the row and the object are still there, the token
-- and the ids are not empty, and the user id has no colon.
pub download_after_request :
    (env : Env) (w : World) (c : Client) (msg : WsMessage) (later : Env) (found : PgMessage)
    (url body : String)
    → (msg.message_id == "") ≡ false
    → env.has_pg ≡ true
    → env.fails Op.get_file msg.message_id ≡ false
    → env.fails Op.random c.id ≡ false
    → env.fails Op.store_token (env.uuid w.draws) ≡ false
    → get_file_message w.db env.now msg.message_id c.id ≡ some found
    → split_last_colon c.id ≡ none
    → (env.uuid w.draws == "") ≡ false
    → (found.id == "" || c.id == "") ≡ false
    → later.has_pg ≡ true
    → later.now ≤ env.now + file_token_ttl
    → later.fails Op.get_token (env.uuid w.draws) ≡ false
    → later.fails Op.get_file found.id ≡ false
    → get_file_message w.db later.now found.id c.id ≡ some found
    → found.bucket_url ≡ some url
    → (storage_key_from_url url == "") ≡ false
    → lookup w.bucket (storage_key_from_url url) ≡ some body
    → handle_file_download later (handle_request_file env w c msg) "GET" (env.uuid w.draws)
      ≡ served body found.size_bytes
unfolding handle_file_download handle_request_file issue_token send_json serve_object
download_after_request env w c msg later found url body h1 h2 h3 h4 h5 h6 h7 h8 h9 g1 g2 g3 g4 g5 g6
      g7 g8 =
    ground
      (arith, get-store_file_token w.redis env.now later.now (env.uuid w.draws) found.id c.id h7)
