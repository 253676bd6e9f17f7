-- ===== src/Relay/Auth.antt =====
-- ServeWS and mintDeviceToken of wiltkey_server/websocket.go: the handshake that admits a socket.
-- What the peer does is a function of what it was sent, so that a peer is a strategy; the frames
-- sent on the way are the arguments of these functions.
pub mod Admission
pub mod Refusal
pub mod Quota
pub mod Return
pub mod Issued
use wilt_key.Prelude.{
  ℕ, suc, ◌+◌, ◌*◌, String, Bool, true, false, not, ◌||◌, Option, none, some, List, [], ◌∷◌, ◌==◌,
  if◌then◌else◌,
}
use wilt_key.Prelude.Text.{concat}
use wilt_key.Prelude.GoMap.{value_or, insert}
use wilt_key.Time.{Calendar, unix}
use wilt_key.Redis.Limits
use wilt_key.Db.DeviceTokens
use wilt_key.Crypto.{
  Primitives, bytes, sha256_hex, hex_decode, generate_user_id, verify_signature, verify_pow,
}
use wilt_key.Relay.{
  Env, World, Client, Frame, Op, check_ban, random, verify_token, mint_token, check_cooldown,
  allow_issuance, auth_ok, send_json,
}
use wilt_key.Relay.Http.{verified, register_ip_failure}
use wilt_key.Relay.Challenge.{
  ChallengeMode, Attempt, challenge_upgrade_required, puzzle_required_for_client,
  run_puzzle_challenge,
}

abbrev pub issuance_difficulty : ℕ
issuance_difficulty = 5

abbrev pub issuance_daily_ip_cap : ℕ
issuance_daily_ip_cap = 5

unfoldable pub capabilities_for_this_relay : Bool → List String
capabilities_for_this_relay test_mode =
    if test_mode
    then "group_fanout" ∷ "social_stories" ∷ "stories_ws" ∷ "test_mode" ∷ []
    else "group_fanout" ∷ "social_stories" ∷ "stories_ws" ∷ []

-- What the socket yields where a frame is awaited: an error, a frame that does not decode or is of
-- another type, or the frame.
pub data Reading (A : Type 0) : Type 0 where
  unread stray : Reading A
  read : A → Reading A

-- The fields of an AUTH frame.
pub record AuthMsg : Type 0 where
  pub pubkey : String
  pub signature : String
  pub device_token : String
  pub client_caps : List String

-- A dial to /ws: the address, which socket it is, whether the upgrade succeeds, what answers the
-- CHALLENGE, the proof of work that answers the TOKEN_CHALLENGE, and what answers the seed and the
-- id of an AUTH_CHALLENGE_REQUIRED.
pub record Peer : Type 0 where
  pub ip : String
  pub conn : ℕ
  pub upgrades : Bool
  pub auth : String → Reading AuthMsg
  pub issue : String → ℕ → Reading ℕ
  pub solve : String → String → Attempt

-- The last frame before the socket is closed.
pub data Farewell : Type 0 where
  auth_error : String → Farewell
  auth_rejected : String → Farewell

-- How a dial ends.
pub data Outcome : Type 0 where
  closed : Option Farewell → Outcome
  admitted : Client → Outcome

-- How the device-token gate ends: passed with the token to hand out and its expiry, if it is new.
pub data Gate : Type 0 where
  refused : Option Farewell → Gate
  passed : String → ℕ → Gate

-- WK_TEST_MODE and WK_CHALLENGE_MODE.
pub record Mode : Type 0 where
  pub test_mode : Bool
  pub challenge_mode : ChallengeMode

-- The token and its expiry, `none` for an error.
unfoldable pub mint_device_token : Env → Primitives → World → String → Option (String × ℕ) × World
mint_device_token env p w user_id =
    if env.fails random user_id
    then (none, w)
    else (let token = env.uuid w.draws in
        let w' = record w { draws = suc w.draws } in
        if env.fails mint_token user_id
        then (none, w')
        else (let (expires_at, db') =
              DeviceTokens.mint_device_token w.db env.now user_id (sha256_hex p (bytes token)) in
            (some (token, unix expires_at), record w' { db = db' })))

-- A rotation that fails leaves the client with the token that he has.
unfoldable pub present_token : Env → Primitives → World → String → String → Gate × World
unfolding mint_device_token
present_token env p w user_id device_token =
    if env.fails verify_token user_id
    then (refused (some (auth_error "Token store error")), w)
    else (let (valid, near_expiry) =
          DeviceTokens.verify_device_token w.db env.now user_id
            (sha256_hex p (bytes device_token)) in
        let w' = record w {
          db =
              if env.fails Op.touch_token user_id
              then w.db
              else DeviceTokens.touch_device_token w.db env.now user_id;
        } in
        if not valid
        then (refused (some (auth_rejected "token_invalid")), w)
        else if not near_expiry
        then (passed "" 0, w')
        else (let (minted, w'') = mint_device_token env p w' user_id in
            elim minted [ none ↦ (passed "" 0, w'') | some m ↦ (passed m.0 m.1, w'') ]))

-- The quota of the address, and the mint.
unfoldable pub issue_token : Env → Primitives → Calendar → World → String → String → Gate × World
unfolding mint_device_token
issue_token env p cal w ip user_id =
    if env.fails allow_issuance ip
    then (refused (some (auth_rejected "issuance_unavailable")), w)
    else (let (allowed, redis') =
          Limits.allow_issuance w.redis (cal.day_stamp env.now) ip issuance_daily_ip_cap in
        let w' = record w { redis = redis' } in
        if not allowed
        then (refused (some (auth_rejected "issuance_rate_limited")), w')
        else (let (minted, w'') = mint_device_token env p w' user_id in
            elim minted [
              | none ↦ (refused (some (auth_error "Token store error")), w'')
              | some m ↦ (passed m.0 m.1, w'')
            ]))

-- The puzzle with its two random texts, behind the cooldown of the address; a refusal, if any.
unfoldable pub pass_puzzle : Env → Primitives → Calendar → World → Peer → Option String × World
unfolding run_puzzle_challenge
pass_puzzle env p cal w peer =
    if env.fails check_cooldown peer.ip
    then (some "challenge_unavailable", w)
    else (let (cooling, redis') = Limits.check_challenge_cooldown w.redis env.now peer.ip in
        let w1 = record w { redis = redis' } in
        let seed = env.uuid w.draws in
        let challenge_id = env.uuid (suc w.draws) in
        let w2 = record w1 { draws = suc (suc w.draws) } in
        if cooling
        then (some "challenge_cooldown", w1)
        else if env.fails random "seed" || env.fails random "challenge_id"
        then (some "challenge_failed", w2)
        else (let (solved, w3) =
              run_puzzle_challenge env p cal w2 peer.ip seed challenge_id
                (peer.solve seed challenge_id) in
            if solved then (none, w3) else (some "challenge_failed", w3)))

-- The issuance path behind the frame AUTH_TOKEN_ISSUE.
unfoldable pub issue_for_nonce :
    Env → Primitives → Calendar → Mode → World → Peer → String → AuthMsg → String → ℕ → Gate × World
unfolding pass_puzzle issue_token challenge_upgrade_required puzzle_required_for_client
issue_for_nonce env p cal mode w peer challenge msg user_id nonce =
    if not (verify_pow p challenge nonce msg.pubkey issuance_difficulty)
    then (refused (some (auth_rejected "pow_invalid")), w)
    else if challenge_upgrade_required mode.challenge_mode msg.client_caps
    then (refused (some (auth_rejected "challenge_upgrade_required")), w)
    else if puzzle_required_for_client env cal w mode.challenge_mode msg.client_caps peer.ip
    then (let (refusal, w') = pass_puzzle env p cal w peer in
        elim refusal [
          | some reason ↦ (refused (some (auth_rejected reason)), w')
          | none ↦ issue_token env p cal w' peer.ip user_id
        ])
    else issue_token env p cal w peer.ip user_id

unfoldable pub read_issue :
    Env
    → Primitives
    → Calendar
    → Mode
    → World
    → Peer
    → String
    → AuthMsg
    → String
    → Reading ℕ
    → Gate × World
unfolding issue_for_nonce
read_issue env p cal mode w peer challenge msg user_id unread = (refused none, w)
read_issue env p cal mode w peer challenge msg user_id stray =
    (refused (some (auth_error "Expected AUTH_TOKEN_ISSUE frame")), w)
read_issue env p cal mode w peer challenge msg user_id (read nonce) =
    issue_for_nonce env p cal mode w peer challenge msg user_id nonce

-- The device-token gate: a token that is presented, or one that is issued now.
unfoldable pub device_token_gate :
    Env → Primitives → Calendar → Mode → World → Peer → String → AuthMsg → String → Gate × World
unfolding present_token read_issue
device_token_gate env p cal mode w peer challenge msg user_id =
    if not env.has_pg
    then (refused (some (auth_error "Token store unavailable")), w)
    else if msg.device_token == ""
    then read_issue env p cal mode w peer challenge msg user_id
        (peer.issue challenge issuance_difficulty)
    else present_token env p w user_id msg.device_token

-- The text that the signature of an AUTH frame binds.
unfoldable pub signed_payload : String → AuthMsg → String
signed_payload challenge msg =
    if msg.device_token == "" then challenge else concat challenge msg.device_token

-- hex.DecodeString with its error ignored; behind a signature that verifies there is none.
abbrev pub user_of : Primitives → AuthMsg → String
user_of p msg = generate_user_id p (value_or [] (hex_decode msg.pubkey))

-- The registration and the AUTH_OK, or the end of the socket.
unfoldable pub admit : Peer → Mode → String → Gate × World → Outcome × World
unfolding send_json capabilities_for_this_relay
admit peer mode user_id (refused farewell, w) = (closed farewell, w)
admit peer mode user_id (passed token expires, w) =
    let client : Client = record { id = user_id; conn = peer.conn } in
    let w' = record w { clients = insert w.clients user_id client } in
    (
      admitted client,
      send_json w' client
          (auth_ok user_id token expires (capabilities_for_this_relay mode.test_mode)),
    )

unfoldable pub authenticate :
    Env → Primitives → Calendar → Mode → World → Peer → String → Reading AuthMsg → Outcome × World
unfolding signed_payload device_token_gate admit register_ip_failure
authenticate env p cal mode w peer challenge unread = (closed none, w)
authenticate env p cal mode w peer challenge stray =
    (closed (some (auth_error "Expected AUTH frame")), w)
authenticate env p cal mode w peer challenge (read msg) =
    if verified (verify_signature p msg.pubkey msg.signature (bytes (signed_payload challenge msg)))
    then admit peer mode (user_of p msg)
        (device_token_gate env p cal mode w peer challenge msg (user_of p msg))
    else (closed (some (auth_error "Authentication failed")), register_ip_failure env w peer.ip)

unfoldable pub serve_ws : Env → Primitives → Calendar → Mode → World → Peer → Outcome × World
unfolding authenticate
serve_ws env p cal mode w peer =
    if env.fails check_ban peer.ip || Limits.check_ip_ban w.redis env.now peer.ip
    then (closed (if peer.upgrades then some (auth_error "Banned") else none), w)
    else if not peer.upgrades
    then (closed none, w)
    else (let challenge = env.uuid w.draws in
        authenticate env p cal mode (record w { draws = suc w.draws }) peer challenge
          (peer.auth challenge))
