-- ===== src/Relay/Auth/Issued.antt =====
-- The device token that ServeWS of wiltkey_server/websocket.go issues.
use wilt_key.Prelude.{
  ℕ, suc, ◌+◌, ◌≡◌, ◌<◌, refl, subst, ap, sym, not, String, true, [], ◌∷◌, ◌++◌, ◌==◌, arith,
  if_case, option_case,
}
use wilt_key.Time.{Calendar}
use wilt_key.Redis.Limits
use wilt_key.Db.DeviceTokens
use wilt_key.Db.DeviceTokens.{device_token_ttl}
use wilt_key.Db.DeviceTokens.Lifecycle.{verify-mint}
use wilt_key.Crypto.{Primitives, bytes, sha256_hex, verify_pow}
use wilt_key.Relay.{Env, World, Client, auth_ok}
use wilt_key.Relay.Challenge.{
  Attempt, unread, stray, solution, run_puzzle_challenge, register_challenge_strike_for_rejection,
  challenge_upgrade_required, puzzle_required_for_client,
}
use wilt_key.Relay.Auth.{
  issuance_difficulty, capabilities_for_this_relay, Reading, read, AuthMsg, Peer, admitted, Gate,
  refused, passed, Mode, mint_device_token, issue_token, pass_puzzle, issue_for_nonce, read_issue,
  user_of, admit, serve_ws,
}
use wilt_key.Relay.Auth.Return.{Signed, Signed-gate, gate_lem}

-- The token with which the gate is passed verifies at `later`, and nothing was sent to clients.
abbrev Hands : Primitives → World → String → ℕ → Gate × World → Type 0
Hands p w user_id later r =
    (token : String) (expires : ℕ)
    → r.0 ≡ passed token expires
    → (r.1.sent ≡ w.sent)
      × ((DeviceTokens.verify_device_token r.1.db later user_id (sha256_hex p (bytes token))).0
          ≡ true)

fresh :
    (env : Env) (p : Primitives) (w : World) (user_id token : String) (later : ℕ)
    → later < env.now + device_token_ttl
    → (DeviceTokens.verify_device_token
        (DeviceTokens.mint_device_token w.db env.now user_id token).1
        later
        user_id
        token).0
      ≡ true
fresh env p w user_id token later soon =
    ground (arith, verify-mint w.db env.now later user_id token)

issue-Hands :
    (env : Env) (p : Primitives) (cal : Calendar) (w : World) (ip user_id : String) (later : ℕ)
    → later < env.now + device_token_ttl
    → Hands p w user_id later (issue_token env p cal w ip user_id)
unfolding issue_token mint_device_token
issue-Hands env p cal w ip user_id later soon token expires e =
    ground (arith, fresh env p w user_id (sha256_hex p (bytes token)) later soon)

attempt-sent :
    (env : Env) (p : Primitives) (cal : Calendar) (w : World) (ip seed challenge_id : String)
    (a : Attempt)
    → (run_puzzle_challenge env p cal w ip seed challenge_id a).1.sent ≡ w.sent
unfolding run_puzzle_challenge register_challenge_strike_for_rejection
attempt-sent env p cal w ip seed challenge_id unread = refl
attempt-sent env p cal w ip seed challenge_id stray = refl
attempt-sent env p cal w ip seed challenge_id (solution sol) = ground arith

puzzle-sent :
    (env : Env) (p : Primitives) (cal : Calendar) (w : World) (peer : Peer)
    → (pass_puzzle env p cal w peer).1.sent ≡ w.sent
unfolding pass_puzzle
puzzle-sent env p cal w peer =
    let redis' = (Limits.check_challenge_cooldown w.redis env.now peer.ip).1 in
    let seed = env.uuid w.draws in
    let challenge_id = env.uuid (suc w.draws) in
    ground (
      arith,
      attempt-sent env p cal (record w { redis = redis'; draws = suc (suc w.draws) }) peer.ip seed
          challenge_id (peer.solve seed challenge_id),
    )

behind :
    (p : Primitives) (w w' : World) (user_id : String) (later : ℕ) (r : Gate × World)
    → w'.sent ≡ w.sent
    → Hands p w' user_id later r
    → Hands p w user_id later r
behind p w w' user_id later r e h token expires f = let k = h token expires f in ground arith

nonce-Hands :
    (env : Env) (p : Primitives) (cal : Calendar) (mode : Mode) (w : World) (peer : Peer)
    (challenge : String) (msg : AuthMsg) (user_id : String) (nonce later : ℕ)
    → later < env.now + device_token_ttl
    → Hands p w user_id later (issue_for_nonce env p cal mode w peer challenge msg user_id nonce)
unfolding issue_for_nonce
nonce-Hands env p cal mode w peer challenge msg user_id nonce later soon =
    let P : Gate × World → Type 0 = λ r. Hands p w user_id later r in
    let w' = (pass_puzzle env p cal w peer).1 in
    if_case P (not (verify_pow p challenge nonce msg.pubkey issuance_difficulty)) (λ t x e. cc)
      (if_case P (challenge_upgrade_required mode.challenge_mode msg.client_caps) (λ t x e. cc)
        (if_case P
          (puzzle_required_for_client env cal w mode.challenge_mode msg.client_caps peer.ip)
          (option_case P (pass_puzzle env p cal w peer).0
            (behind p w w' user_id later (issue_token env p cal w' peer.ip user_id)
              (puzzle-sent env p cal w peer) (issue-Hands env p cal w' peer.ip user_id later soon))
            (λ reason t x e. cc))
          (issue-Hands env p cal w peer.ip user_id later soon)))

read-Hands :
    (env : Env) (p : Primitives) (cal : Calendar) (mode : Mode) (w : World) (peer : Peer)
    (challenge : String) (msg : AuthMsg) (user_id : String) (later : ℕ) (r : Reading ℕ)
    → later < env.now + device_token_ttl
    → Hands p w user_id later (read_issue env p cal mode w peer challenge msg user_id r)
unfolding read_issue
read-Hands env p cal mode w peer challenge msg user_id later Reading.unread soon = λ t x e. cc
read-Hands env p cal mode w peer challenge msg user_id later Reading.stray soon = λ t x e. cc
read-Hands env p cal mode w peer challenge msg user_id later (read nonce) soon =
    nonce-Hands env p cal mode w peer challenge msg user_id nonce later soon

-- What the client of an AUTH_OK holds: a token, for the user that he is.
abbrev pub Given : Primitives → Mode → World → World → Client → ℕ → Type 0
Given p mode w w' c later =
    (token : String) × (expires : ℕ) × (w'.sent
      ≡ w.sent ++ (c, auth_ok c.id token expires (capabilities_for_this_relay mode.test_mode)) ∷ [])
    × ((DeviceTokens.verify_device_token w'.db later c.id (sha256_hex p (bytes token))).0 ≡ true)

admit-Given :
    (p : Primitives) (mode : Mode) (peer : Peer) (w w' : World) (user_id : String) (later : ℕ)
    (g : Gate) (c : Client)
    → Hands p w user_id later (g, w')
    → (admit peer mode user_id (g, w')).0 ≡ admitted c
    → Given p mode w (admit peer mode user_id (g, w')).1 c later
unfolding admit capabilities_for_this_relay
admit-Given p mode peer w w' user_id later (refused f) c h e = cc
admit-Given p mode peer w w' user_id later (passed token expires) c h e =
    let here : Client = record { id = user_id; conn = peer.conn } in
    let who : here ≡ c = cc in
    let (same, valid) = h token expires refl in
    subst (λ d. Given p mode w (admit peer mode user_id (passed token expires, w')).1 d later) who
      (
        token,
        expires,
        ap
            (λ fs.
              fs
              ++ (here, auth_ok user_id token expires (capabilities_for_this_relay mode.test_mode))
                ∷ [])
            same,
        valid,
      )

-- A user who is admitted without a device token is sent one in the AUTH_OK, as the only frame, and
-- that token verifies for him, in the tables that the dial leaves, until sixty days have passed.
pub issued_verifies :
    (env : Env) (p : Primitives) (cal : Calendar) (mode : Mode) (w : World) (peer : Peer)
    (msg : AuthMsg) (c : Client) (later : ℕ)
    → Signed env p w peer msg
    → env.has_pg ≡ true
    → (msg.device_token == "") ≡ true
    → later < env.now + device_token_ttl
    → (serve_ws env p cal mode w peer).0 ≡ admitted c
    → Given p mode w (serve_ws env p cal mode w peer).1 c later
issued_verifies env p cal mode w peer msg c later signed pg bare soon e =
    let w' = record w { draws = suc w.draws } in
    let challenge = env.uuid w.draws in
    let g =
      read_issue env p cal mode w' peer challenge msg (user_of p msg)
        (peer.issue challenge issuance_difficulty) in
    let same : serve_ws env p cal mode w peer ≡ admit peer mode (user_of p msg) g = rw (
      Signed-gate env p cal mode w peer msg signed,
      gate_lem env p cal mode w' peer challenge msg (user_of p msg) pg,
      bare,
    ) in
    subst (λ o. o.0 ≡ admitted c → Given p mode w o.1 c later) (sym same)
      (admit-Given p mode peer w g.1 (user_of p msg) later g.0 c
        (read-Hands env p cal mode w' peer challenge msg (user_of p msg) later _ soon))
      e
