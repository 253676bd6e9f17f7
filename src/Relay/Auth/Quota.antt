-- ===== src/Relay/Auth/Quota.antt =====
-- How many device tokens ServeWS of wiltkey_server/websocket.go issues to one address in a day.
use wilt_key.Prelude.{
  ℕ, suc, ◌-◌, ◌≡◌, ◌≤◌, ◌<◌, ◌⊎◌, ◌&&◌, inl, refl, not, eq_iff, String, Bool, true, false, some,
  List, [], ◌∷◌, ◌==◌, arith, if◌then◌else◌, if_case, option_case, All,
}
use wilt_key.Time.{Calendar}
use wilt_key.Redis.{RedisClient}
use wilt_key.Redis.Limits
use wilt_key.Redis.Limits.{issuance_count_today}
use wilt_key.Redis.Limits.Rates.{allow_issuance-count}
use wilt_key.Crypto.{Primitives, bytes, verify_signature, verify_pow}
use wilt_key.Relay.{Env, World}
use wilt_key.Relay.Http.{verified, register_ip_failure, ban_for}
use wilt_key.Relay.Challenge.{
  Attempt, unread, stray, solution, run_puzzle_challenge, register_challenge_strike_for_rejection,
  challenge_upgrade_required, puzzle_required_for_client,
}
use wilt_key.Relay.Auth.{
  issuance_difficulty, issuance_daily_ip_cap, Reading, read, AuthMsg, Peer, Outcome, closed,
  auth_rejected, admitted, Gate, refused, passed, Mode, mint_device_token, present_token,
  issue_token, pass_puzzle, issue_for_nonce, read_issue, device_token_gate, signed_payload, user_of,
  admit, authenticate, serve_ws,
}

abbrev is_passed : Gate → Bool
is_passed (refused f) = false
is_passed (passed token expires) = true

abbrev pub is_admitted : Outcome → Bool
is_admitted (closed f) = false
is_admitted (admitted c) = true

-- An AUTH frame without a device token.
abbrev pub lacks_token : Reading AuthMsg → Bool
lacks_token Reading.unread = false
lacks_token Reading.stray = false
lacks_token (read msg) = msg.device_token == ""

-- Whether a dial from the address is admitted without a device token.
abbrev pub is_issued : String → Peer → String → Outcome → Bool
is_issued ip peer challenge o =
    is_admitted o && (lacks_token (peer.auth challenge) && (peer.ip == ip))

-- Behind a step that is an issuance to the address where `b` holds.
abbrev Counted : String → String → RedisClient → Bool → RedisClient → Type 0
Counted stamp ip r b r' =
    (issuance_count_today r stamp ip ≤ issuance_count_today r' stamp ip)
    × ((b ≡ false)
        ⊎ ((issuance_count_today r stamp ip < issuance_count_today r' stamp ip)
            × (issuance_count_today r' stamp ip ≤ issuance_daily_ip_cap)))

attempt-issuance :
    (env : Env) (p : Primitives) (cal : Calendar) (w : World) (ip seed challenge_id : String)
    (a : Attempt)
    → (run_puzzle_challenge env p cal w ip seed challenge_id a).1.redis.memory_issuance
      ≡ w.redis.memory_issuance
unfolding run_puzzle_challenge register_challenge_strike_for_rejection
    Limits.register_challenge_strike Limits.set_challenge_cooldown
attempt-issuance env p cal w ip seed challenge_id unread = refl
attempt-issuance env p cal w ip seed challenge_id stray = refl
attempt-issuance env p cal w ip seed challenge_id (solution sol) = ground arith

module _ (env : Env) (p : Primitives) (cal : Calendar) (mode : Mode) (stamp ip : String) where
  abbrev Counts : World → String → Gate × World → Type 0
  Counts w from r = Counted stamp ip w.redis (is_passed r.0 && (from == ip)) r.1.redis

  issue-Counts :
      (w : World) (from user_id : String)
      → cal.day_stamp env.now ≡ stamp
      → Counts w from (issue_token env p cal w from user_id)
  unfolding issue_token mint_device_token
  issue-Counts w from user_id today =
      let n = allow_issuance-count w.redis (cal.day_stamp env.now) from ip issuance_daily_ip_cap in
      ground (arith, n, eq_iff from ip)

  puzzle-issuance :
      (w : World) (peer : Peer)
      → (pass_puzzle env p cal w peer).1.redis.memory_issuance ≡ w.redis.memory_issuance
  unfolding pass_puzzle Limits.check_challenge_cooldown
  puzzle-issuance w peer =
      let redis' = (Limits.check_challenge_cooldown w.redis env.now peer.ip).1 in
      let seed = env.uuid w.draws in
      let challenge_id = env.uuid (suc w.draws) in
      ground (
        arith,
        attempt-issuance env p cal (record w { redis = redis'; draws = suc (suc w.draws) }) peer.ip
            seed challenge_id (peer.solve seed challenge_id),
      )

  still : (w : World) → Counted stamp ip w.redis false w.redis
  still w = (omega arith, inl refl)

  behind :
      (w w' : World) (from : String) (r : Gate × World)
      → w'.redis.memory_issuance ≡ w.redis.memory_issuance
      → Counts w' from r
      → Counts w from r
  unfolding issuance_count_today
  behind w w' from r e c = ground (arith, c)

  nonce-Counts :
      (w : World) (peer : Peer) (challenge : String) (msg : AuthMsg) (user_id : String) (nonce : ℕ)
      → cal.day_stamp env.now ≡ stamp
      → Counts w peer.ip (issue_for_nonce env p cal mode w peer challenge msg user_id nonce)
  unfolding issue_for_nonce
  nonce-Counts w peer challenge msg user_id nonce today =
      let P : Gate × World → Type 0 = λ r. Counts w peer.ip r in
      let w' = (pass_puzzle env p cal w peer).1 in
      if_case P (not (verify_pow p challenge nonce msg.pubkey issuance_difficulty)) (still w) (
        if_case P (challenge_upgrade_required mode.challenge_mode msg.client_caps) (still w) (
          if_case P
            (puzzle_required_for_client env cal w mode.challenge_mode msg.client_caps peer.ip)
            (option_case P (pass_puzzle env p cal w peer).0
              (behind w w' peer.ip (issue_token env p cal w' peer.ip user_id)
                (puzzle-issuance w peer) (issue-Counts w' peer.ip user_id today))
              (λ reason.
                behind w w' peer.ip (refused (some (auth_rejected reason)), w')
                  (puzzle-issuance w peer) (still w')))
            (issue-Counts w peer.ip user_id today)))

  read-Counts :
      (w : World) (peer : Peer) (challenge : String) (msg : AuthMsg) (user_id : String)
      (r : Reading ℕ)
      → cal.day_stamp env.now ≡ stamp
      → Counts w peer.ip (read_issue env p cal mode w peer challenge msg user_id r)
  unfolding read_issue
  read-Counts w peer challenge msg user_id Reading.unread today = still w
  read-Counts w peer challenge msg user_id Reading.stray today = still w
  read-Counts w peer challenge msg user_id (read nonce) today =
      nonce-Counts w peer challenge msg user_id nonce today

  failure-Issues :
      (w : World) (from : String)
      → Counted stamp ip w.redis false (register_ip_failure env w from).redis
  unfolding register_ip_failure ban_for issuance_count_today Limits.increment_ip_failure
      Limits.ban_ip
  failure-Issues w from = ground arith

  present-issuance :
      (w : World) (user_id device_token : String)
      → (present_token env p w user_id device_token).1.redis ≡ w.redis
  unfolding present_token mint_device_token
  present-issuance w user_id device_token = ground arith

  gate-Counts :
      (w : World) (peer : Peer) (challenge : String) (msg : AuthMsg) (user_id : String)
      → cal.day_stamp env.now ≡ stamp
      → let r = device_token_gate env p cal mode w peer challenge msg user_id in
        Counted stamp ip w.redis
          (is_passed r.0 && ((msg.device_token == "") && (peer.ip == ip)))
          r.1.redis
  unfolding device_token_gate
  gate-Counts w peer challenge msg user_id today = ground (
    arith,
    read-Counts w peer challenge msg user_id (peer.issue challenge issuance_difficulty) today,
    present-issuance w user_id msg.device_token,
  )

  abbrev Issues : World → Peer → String → Outcome × World → Type 0
  Issues w peer challenge o = Counted stamp ip w.redis (is_issued ip peer challenge o.0) o.1.redis

  admit-Issues :
      (w : World) (peer : Peer) (user_id : String) (b : Bool) (g : Gate) (w' : World)
      → Counted stamp ip w.redis (is_passed g && b) w'.redis
      → let o = admit peer mode user_id (g, w') in
        Counted stamp ip w.redis (is_admitted o.0 && b) o.1.redis
  unfolding admit
  admit-Issues w peer user_id b (refused f) w' c = c
  admit-Issues w peer user_id b (passed token expires) w' c = c

  authenticate-Issues :
      (w : World) (peer : Peer) (challenge : String) (r : Reading AuthMsg)
      → cal.day_stamp env.now ≡ stamp
      → let o = authenticate env p cal mode w peer challenge r in
        Counted stamp ip w.redis (is_admitted o.0 && (lacks_token r && (peer.ip == ip))) o.1.redis
  unfolding authenticate
  authenticate-Issues w peer challenge Reading.unread today = still w
  authenticate-Issues w peer challenge Reading.stray today = still w
  authenticate-Issues w peer challenge (read msg) today =
      let u = user_of p msg in
      let g = device_token_gate env p cal mode w peer challenge msg u in
      if_case
        (λ (o : Outcome × World).
          Counted stamp ip w.redis
            (is_admitted o.0 && ((msg.device_token == "") && (peer.ip == ip))) o.1.redis)
        (verified
          (verify_signature p msg.pubkey msg.signature (bytes (signed_payload challenge msg))))
        (admit-Issues w peer u ((msg.device_token == "") && (peer.ip == ip)) g.0 g.1
          (gate-Counts w peer challenge msg u today))
        (failure-Issues w peer.ip)

  serve-Issues :
      (w : World) (peer : Peer)
      → cal.day_stamp env.now ≡ stamp
      → Issues w peer (env.uuid w.draws) (serve_ws env p cal mode w peer)
  unfolding serve_ws
  serve-Issues w peer today =
      let challenge = env.uuid w.draws in
      ground (
        arith,
        authenticate-Issues (record w { draws = suc w.draws }) peer challenge (peer.auth challenge)
            today,
      )

-- The dials of a relay, each with what its call meets, and how many tokens they bring the address.
unfoldable pub issued : Primitives → Calendar → Mode → String → World → List (Env × Peer) → ℕ
issued p cal mode ip w [] = 0
issued p cal mode ip w ((env, peer) ∷ ds) =
    let (o, w') = serve_ws env p cal mode w peer in
    let rest = issued p cal mode ip w' ds in
    if is_issued ip peer (env.uuid w.draws) o then suc rest else rest

-- Of any dials of one day, from any addresses and with any faults, no more are admitted from one
-- address without a device token than the five of a day less those counted before.
pub issued-le :
    (p : Primitives) (cal : Calendar) (mode : Mode) (stamp ip : String) (w : World)
    (ds : List (Env × Peer))
    → All (λ (d : Env × Peer). cal.day_stamp d.0.now ≡ stamp) ds
    → issued p cal mode ip w ds ≤ issuance_daily_ip_cap - issuance_count_today w.redis stamp ip
unfolding issued
issued-le p cal mode stamp ip w [] today = omega arith
issued-le p cal mode stamp ip w ((env, peer) ∷ ds) (now, later) = ground (
  arith,
  serve-Issues env p cal mode stamp ip w peer now,
  issued-le p cal mode stamp ip (serve_ws env p cal mode w peer).1 ds later,
)
