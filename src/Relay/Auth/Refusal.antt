-- ===== src/Relay/Auth/Refusal.antt =====
-- What ServeWS of wiltkey_server/websocket.go leaves behind a peer whom it does not admit.
use wilt_key.Prelude.{
  ℕ, suc, ◌≡◌, ◌⊎◌, ◌||◌, inl, inr, refl, sym, not, String, Option, some, ◌==◌, arith, if_case,
  option_case,
}
use wilt_key.Time.{Calendar}
use wilt_key.Redis.Limits
use wilt_key.Crypto.{Primitives, bytes, verify_signature, verify_pow}
use wilt_key.Relay.{Env, World, check_ban}
use wilt_key.Relay.Http.{verified, register_ip_failure, ban_for}
use wilt_key.Relay.Challenge.{
  Attempt, unread, stray, solution, run_puzzle_challenge, register_challenge_strike_for_rejection,
  challenge_upgrade_required, puzzle_required_for_client,
}
use wilt_key.Relay.Auth.{
  issuance_difficulty, Reading, read, AuthMsg, Peer, Outcome, Farewell, auth_error, closed, Gate,
  refused, passed, Mode, mint_device_token, present_token, issue_token, pass_puzzle,
  issue_for_nonce, read_issue, device_token_gate, signed_payload, user_of, admit, authenticate,
  serve_ws,
}

-- The tables, the objects, the registered clients, and what was sent.
abbrev pub Same : World → World → Type 0
Same w w' =
    (w'.db ≡ w.db)
    × (w'.bucket ≡ w.bucket)
    × (w'.clients ≡ w.clients)
    × (w'.sent ≡ w.sent)
    × (w'.wakes ≡ w.wakes)

-- The bans and the failures that lead to them.
abbrev pub Spared : World → World → Type 0
Spared w w' =
    (w'.redis.memory_bans ≡ w.redis.memory_bans) × (w'.redis.memory_fails ≡ w.redis.memory_fails)

abbrev Kept : World → World → Type 0
Kept w w' = Same w w' × Spared w w'

strike-Kept :
    (env : Env) (cal : Calendar) (w : World) (ip : String)
    → Kept w (register_challenge_strike_for_rejection env cal w ip)
unfolding register_challenge_strike_for_rejection Limits.register_challenge_strike
    Limits.set_challenge_cooldown
strike-Kept env cal w ip = ground arith

attempt-Kept :
    (env : Env) (p : Primitives) (cal : Calendar) (w : World) (ip seed challenge_id : String)
    (a : Attempt)
    → Kept w (run_puzzle_challenge env p cal w ip seed challenge_id a).1
unfolding run_puzzle_challenge
attempt-Kept env p cal w ip seed challenge_id unread = ground arith
attempt-Kept env p cal w ip seed challenge_id stray = ground arith
attempt-Kept env p cal w ip seed challenge_id (solution sol) =
    ground (arith, strike-Kept env cal w ip)

puzzle-Kept :
    (env : Env) (p : Primitives) (cal : Calendar) (w : World) (peer : Peer)
    → Kept w (pass_puzzle env p cal w peer).1
unfolding pass_puzzle Limits.check_challenge_cooldown
puzzle-Kept env p cal w peer =
    let redis' = (Limits.check_challenge_cooldown w.redis env.now peer.ip).1 in
    let seed = env.uuid w.draws in
    let challenge_id = env.uuid (suc w.draws) in
    ground (
      arith,
      attempt-Kept env p cal (record w { redis = redis'; draws = suc (suc w.draws) }) peer.ip seed
          challenge_id (peer.solve seed challenge_id),
    )

abbrev Closing : World → Gate × World → Type 0
Closing w r = (f : Option Farewell) → r.0 ≡ refused f → Kept w r.1

still : (w : World) (g : Gate) → Closing w (g, w)
still w g f e = ground arith

mint-Closing :
    (env : Env) (p : Primitives) (cal : Calendar) (w : World) (ip user_id : String)
    → Closing w (issue_token env p cal w ip user_id)
unfolding issue_token mint_device_token Limits.allow_issuance
mint-Closing env p cal w ip user_id f e = ground arith

token-Closing :
    (env : Env) (p : Primitives) (w : World) (user_id device_token : String)
    → Closing w (present_token env p w user_id device_token)
unfolding present_token
token-Closing env p w user_id device_token f e = ground arith

behind : (w w' : World) (r : Gate × World) → Kept w w' → Closing w' r → Closing w r
behind w w' (g, w'') a c f e = let b = c f e in ground arith

nonce-Closing :
    (env : Env) (p : Primitives) (cal : Calendar) (mode : Mode) (w : World) (peer : Peer)
    (challenge : String) (msg : AuthMsg) (user_id : String) (nonce : ℕ)
    → Closing w (issue_for_nonce env p cal mode w peer challenge msg user_id nonce)
unfolding issue_for_nonce
nonce-Closing env p cal mode w peer challenge msg user_id nonce =
    let P : Gate × World → Type 0 = λ r. Closing w r in
    let w' = (pass_puzzle env p cal w peer).1 in
    let kept = puzzle-Kept env p cal w peer in
    if_case P (not (verify_pow p challenge nonce msg.pubkey issuance_difficulty)) (still w _) (
      if_case P (challenge_upgrade_required mode.challenge_mode msg.client_caps) (still w _) (
        if_case P (puzzle_required_for_client env cal w mode.challenge_mode msg.client_caps peer.ip)
          (option_case P (pass_puzzle env p cal w peer).0
            (behind w w' (issue_token env p cal w' peer.ip user_id) kept
              (mint-Closing env p cal w' peer.ip user_id))
            (λ reason f e. kept))
          (mint-Closing env p cal w peer.ip user_id)))

issue-Closing :
    (env : Env) (p : Primitives) (cal : Calendar) (mode : Mode) (w : World) (peer : Peer)
    (challenge : String) (msg : AuthMsg) (user_id : String) (r : Reading ℕ)
    → Closing w (read_issue env p cal mode w peer challenge msg user_id r)
unfolding read_issue
issue-Closing env p cal mode w peer challenge msg user_id Reading.unread = still w _
issue-Closing env p cal mode w peer challenge msg user_id Reading.stray = still w _
issue-Closing env p cal mode w peer challenge msg user_id (read nonce) =
    nonce-Closing env p cal mode w peer challenge msg user_id nonce

gate-Closing :
    (env : Env) (p : Primitives) (cal : Calendar) (mode : Mode) (w : World) (peer : Peer)
    (challenge : String) (msg : AuthMsg) (user_id : String)
    → Closing w (device_token_gate env p cal mode w peer challenge msg user_id)
unfolding device_token_gate
gate-Closing env p cal mode w peer challenge msg user_id =
    let P : Gate × World → Type 0 = λ r. Closing w r in
    if_case P (not env.has_pg) (still w _) (
      if_case P (msg.device_token == "")
        (issue-Closing env p cal mode w peer challenge msg user_id _)
        (token-Closing env p w user_id msg.device_token))

-- The peer is the only one who pays for a failed signature, and with that alone.
abbrev pub Harmless : World → Option Farewell → World → Type 0
Harmless w f w' = Same w w' × (Spared w w' ⊎ (f ≡ some (auth_error "Authentication failed")))

abbrev Ending : World → Outcome × World → Type 0
Ending w o = (f : Option Farewell) → o.0 ≡ closed f → Harmless w f o.1

rests : (w : World) (o : Outcome) (n : ℕ) → Ending w (o, record w { draws = n })
rests w o n f e = ((refl, refl, refl, refl, refl), inl (refl, refl))

admit-Ending :
    (peer : Peer) (mode : Mode) (user_id : String) (w w' : World) (g : Gate)
    → Closing w (g, w')
    → Ending w (admit peer mode user_id (g, w'))
unfolding admit
admit-Ending peer mode user_id w w' (refused farewell) h f e =
    let (same, spared) = h farewell refl in (same, inl spared)
admit-Ending peer mode user_id w w' (passed token expires) h f e = cc

closed_inj : {f g : Option Farewell} → closed f ≡ closed g → f ≡ g
closed_inj e = cc

failure-Same : (env : Env) (w : World) (ip : String) → Same w (register_ip_failure env w ip)
unfolding register_ip_failure ban_for
failure-Same env w ip = ground arith

authenticate-Ending :
    (env : Env) (p : Primitives) (cal : Calendar) (mode : Mode) (w : World) (peer : Peer)
    (challenge : String) (r : Reading AuthMsg)
    → Ending w (authenticate env p cal mode w peer challenge r)
unfolding authenticate
authenticate-Ending env p cal mode w peer challenge Reading.unread = rests w _ w.draws
authenticate-Ending env p cal mode w peer challenge Reading.stray = rests w _ w.draws
authenticate-Ending env p cal mode w peer challenge (read msg) =
    let P : Outcome × World → Type 0 = λ r. Ending w r in
    let g = device_token_gate env p cal mode w peer challenge msg (user_of p msg) in
    if_case P
      (verified
        (verify_signature p msg.pubkey msg.signature (bytes (signed_payload challenge msg))))
      (admit-Ending peer mode (user_of p msg) w g.1 g.0
        (gate-Closing env p cal mode w peer challenge msg (user_of p msg)))
      (λ f e. (failure-Same env w peer.ip, inr (sym (closed_inj e))))

-- A dial that is not admitted changes no table, no object, no registered client, and sends nothing
-- to anyone; and unless it ends with "Authentication failed", it brings the address no ban and no
-- failure nearer to one.
pub serve_ws-closed :
    (env : Env) (p : Primitives) (cal : Calendar) (mode : Mode) (w : World) (peer : Peer)
    (f : Option Farewell)
    → (serve_ws env p cal mode w peer).0 ≡ closed f
    → Harmless w f (serve_ws env p cal mode w peer).1
unfolding serve_ws
serve_ws-closed env p cal mode w peer f h =
    let challenge = env.uuid w.draws in
    let P : Outcome × World → Type 0 = λ r. Ending w r in
    if_case P (env.fails check_ban peer.ip || Limits.check_ip_ban w.redis env.now peer.ip)
      (rests w _ w.draws)
      (if_case P (not peer.upgrades) (rests w _ w.draws) (
        authenticate-Ending env p cal mode (record w { draws = suc w.draws }) peer challenge
          (peer.auth challenge)))
      f h
