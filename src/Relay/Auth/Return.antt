-- ===== src/Relay/Auth/Return.antt =====
-- Whom ServeWS of wiltkey_server/websocket.go may not turn away, and what he is given.
use wilt_key.Prelude.{
  ℕ, suc, ◌+◌, ◌≡◌, ◌||◌, String, true, false, some, ◌==◌, arith, leb, if◌then◌else◌,
}
use wilt_key.Time.{Calendar}
use wilt_key.Redis.Limits
use wilt_key.Redis.Limits.{issuance_count_today}
use wilt_key.Redis.Limits.Rates.{allow_issuance-count}
use wilt_key.Db.DeviceTokens
use wilt_key.Db.DeviceTokens.{device_token_ttl}
use wilt_key.Crypto.{Primitives, bytes, sha256_hex, verify_signature, verify_pow}
use wilt_key.Relay.{Env, World, check_ban, random, verify_token, mint_token, allow_issuance}
use wilt_key.Relay.Http.{verified}
use wilt_key.Relay.Challenge.{
  off, client_advertises_challenge, challenge_upgrade_required, puzzle_required_for_client,
}
use wilt_key.Relay.Auth.{
  issuance_difficulty, issuance_daily_ip_cap, read, AuthMsg, Peer, auth_rejected, closed, admitted,
  Mode, mint_device_token, present_token, issue_token, issue_for_nonce, read_issue,
  device_token_gate, signed_payload, user_of, admit, authenticate, serve_ws,
}

-- The dial comes to the gate: the ban check works and finds none, the upgrade succeeds, and the
-- AUTH frame is signed for this dial.
abbrev pub Signed : Env → Primitives → World → Peer → AuthMsg → Type 0
Signed env p w peer msg =
    ((env.fails check_ban peer.ip || Limits.check_ip_ban w.redis env.now peer.ip) ≡ false)
    × (peer.upgrades ≡ true)
    × (peer.auth (env.uuid w.draws) ≡ read msg)
    × (verified (
          verify_signature p msg.pubkey msg.signature
            (bytes (signed_payload (env.uuid w.draws) msg)))
        ≡ true)

-- It is then for the gate to decide.
pub Signed-gate :
    (env : Env) (p : Primitives) (cal : Calendar) (mode : Mode) (w : World) (peer : Peer)
    (msg : AuthMsg)
    → Signed env p w peer msg
    → serve_ws env p cal mode w peer
      ≡ admit peer mode (user_of p msg) (
          device_token_gate env p cal mode
            (record w { draws = suc w.draws })
            peer
            (env.uuid w.draws)
            msg
            (user_of p msg))
unfolding serve_ws authenticate
Signed-gate env p cal mode w peer msg (open_, up, e, sound) = rw (open_, up, e, authenticate, sound)

-- The gate with a token, and without one.
pub gate_lem :
    (env : Env) (p : Primitives) (cal : Calendar) (mode : Mode) (w : World) (peer : Peer)
    (challenge : String) (msg : AuthMsg) (user_id : String)
    → env.has_pg ≡ true
    → device_token_gate env p cal mode w peer challenge msg user_id ≡ (
        if msg.device_token == ""
        then read_issue env p cal mode w peer challenge msg user_id
            (peer.issue challenge issuance_difficulty)
        else present_token env p w user_id msg.device_token)
unfolding device_token_gate
gate_lem env p cal mode w peer challenge msg user_id pg = ground arith

valid-passed :
    (env : Env) (p : Primitives) (w : World) (peer : Peer) (mode : Mode)
    (user_id device_token : String)
    → env.fails verify_token user_id ≡ false
    → (DeviceTokens.verify_device_token w.db env.now user_id (sha256_hex p (bytes device_token))).0
      ≡ true
    → (admit peer mode user_id (present_token env p w user_id device_token)).0
      ≡ admitted (record { id = user_id; conn = peer.conn })
unfolding present_token admit mint_device_token
valid-passed env p w peer mode user_id device_token works valid = ground arith

-- A user who signs this dial's challenge with a device token that verifies for him is admitted,
-- whatever the challenge mode, the strikes and the quota of his address, and whether or not the
-- refresh of his token succeeds; his address is not banned, and the token can be looked up.
pub token_admits :
    (env : Env) (p : Primitives) (cal : Calendar) (mode : Mode) (w : World) (peer : Peer)
    (msg : AuthMsg)
    → Signed env p w peer msg
    → env.has_pg ≡ true
    → (msg.device_token == "") ≡ false
    → env.fails verify_token (user_of p msg) ≡ false
    → (DeviceTokens.verify_device_token w.db env.now
        (user_of p msg)
        (sha256_hex p (bytes msg.device_token))).0
      ≡ true
    → (serve_ws env p cal mode w peer).0
      ≡ admitted (record { id = user_of p msg; conn = peer.conn })
token_admits env p cal mode w peer msg signed pg full works valid =
    rw
      (
        Signed-gate env p cal mode w peer msg signed,
        gate_lem env p cal mode (record w { draws = suc w.draws }) peer (env.uuid w.draws) msg
            (user_of p msg) pg,
        full,
      )
      (valid-passed env p (record w { draws = suc w.draws }) peer mode (user_of p msg)
        msg.device_token works valid)

-- The quota alone decides where the challenge is off for the client.
quota-decides :
    (env : Env) (p : Primitives) (cal : Calendar) (mode : Mode) (w : World) (peer : Peer)
    (challenge : String) (msg : AuthMsg) (user_id : String) (nonce : ℕ)
    → mode.challenge_mode ≡ off
    → client_advertises_challenge msg.client_caps ≡ false
    → verify_pow p challenge nonce msg.pubkey issuance_difficulty ≡ true
    → issue_for_nonce env p cal mode w peer challenge msg user_id nonce
      ≡ issue_token env p cal w peer.ip user_id
unfolding issue_for_nonce challenge_upgrade_required puzzle_required_for_client
quota-decides env p cal mode w peer challenge msg user_id nonce e plain paid = rw (paid, e, plain)

quota-passed :
    (env : Env) (p : Primitives) (cal : Calendar) (mode : Mode) (w : World) (peer : Peer)
    (user_id : String)
    → env.fails allow_issuance peer.ip ≡ false
    → env.fails random user_id ≡ false
    → env.fails mint_token user_id ≡ false
    → (admit peer mode user_id (issue_token env p cal w peer.ip user_id)).0 ≡ (
        if leb
          (issuance_count_today w.redis (cal.day_stamp env.now) peer.ip + 1)
          issuance_daily_ip_cap
        then admitted (record { id = user_id; conn = peer.conn })
        else closed (some (auth_rejected "issuance_rate_limited")))
unfolding issue_token admit mint_device_token
quota-passed env p cal mode w peer user_id h1 h2 h3 =
    let n =
      allow_issuance-count w.redis (cal.day_stamp env.now) peer.ip peer.ip issuance_daily_ip_cap in
    ground (arith, n)

-- A user without a token, with the challenge off and a client that does not know it, who signs and
-- brings a proof of work for this dial's challenge and his key, is admitted exactly while fewer
-- than five issuances of his address were counted today, where no store fails.
pub pow_admits :
    (env : Env) (p : Primitives) (cal : Calendar) (mode : Mode) (w : World) (peer : Peer)
    (msg : AuthMsg) (nonce : ℕ)
    → Signed env p w peer msg
    → env.has_pg ≡ true
    → (msg.device_token == "") ≡ true
    → mode.challenge_mode ≡ off
    → client_advertises_challenge msg.client_caps ≡ false
    → peer.issue (env.uuid w.draws) issuance_difficulty ≡ read nonce
    → verify_pow p (env.uuid w.draws) nonce msg.pubkey issuance_difficulty ≡ true
    → env.fails allow_issuance peer.ip ≡ false
    → env.fails random (user_of p msg) ≡ false
    → env.fails mint_token (user_of p msg) ≡ false
    → (serve_ws env p cal mode w peer).0 ≡ (
        if leb
          (issuance_count_today w.redis (cal.day_stamp env.now) peer.ip + 1)
          issuance_daily_ip_cap
        then admitted (record { id = user_of p msg; conn = peer.conn })
        else closed (some (auth_rejected "issuance_rate_limited")))
unfolding read_issue
pow_admits env p cal mode w peer msg nonce signed pg bare is_off plain e paid h1 h2 h3 =
    let w' = record w { draws = suc w.draws } in
    let challenge = env.uuid w.draws in
    rw
      (
        Signed-gate env p cal mode w peer msg signed,
        gate_lem env p cal mode w' peer challenge msg (user_of p msg) pg,
        bare,
        e,
        quota-decides env p cal mode w' peer challenge msg (user_of p msg) nonce is_off plain paid,
      )
      (quota-passed env p cal mode w' peer (user_of p msg) h1 h2 h3)
