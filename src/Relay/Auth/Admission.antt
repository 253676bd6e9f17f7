-- ===== src/Relay/Auth/Admission.antt =====
-- Whom ServeWS of wiltkey_server/websocket.go admits.
use wilt_key.Prelude.{
  ◌||◌, ℕ, suc, ◌≡◌, ◌⊎◌, not, eq_iff, inl, inr, refl, String, true, false, ◌==◌, arith, if_split,
}
use wilt_key.Time.{Calendar}
use wilt_key.Redis.Limits
use wilt_key.Redis.Limits.{issuance_count_today}
use wilt_key.Db.DeviceTokens
use wilt_key.Crypto.{Primitives, bytes, sha256_hex, verify_signature, verify_pow}
use wilt_key.Relay.{Env, World, Client, check_ban}
use wilt_key.Relay.Http.{verified}
use wilt_key.Relay.Auth.{
  issuance_difficulty, Reading, unread, stray, read, AuthMsg, Peer, Outcome, admitted, Gate,
  refused, passed, Mode, present_token, issue_for_nonce, read_issue, device_token_gate,
  signed_payload, user_of, admit, authenticate, serve_ws,
}

-- What the gate lets through: a token that is valid for the user, or a proof of work over the
-- challenge and the key.
abbrev pub Entitled : Env → Primitives → World → Peer → String → AuthMsg → String → Type 0
Entitled env p w peer challenge msg user_id =
    ((DeviceTokens.verify_device_token w.db env.now user_id
        (sha256_hex p (bytes msg.device_token))).0
      ≡ true)
    ⊎ ((nonce : ℕ) × (msg.device_token ≡ "")
        × (peer.issue challenge issuance_difficulty ≡ read nonce)
        × (verify_pow p challenge nonce msg.pubkey issuance_difficulty ≡ true))

abbrev Passes : Type 0 → Gate × World → Type 0
Passes T r = (token : String) (expires : ℕ) → r.0 ≡ passed token expires → T

token-Passes :
    (env : Env) (p : Primitives) (w : World) (user_id device_token : String)
    → Passes
        ((DeviceTokens.verify_device_token w.db env.now user_id
            (sha256_hex p (bytes device_token))).0
          ≡ true)
        (present_token env p w user_id device_token)
unfolding present_token
token-Passes env p w user_id device_token = λ token expires. ground arith

nonce-Passes :
    (env : Env) (p : Primitives) (cal : Calendar) (mode : Mode) (w : World) (peer : Peer)
    (challenge : String) (msg : AuthMsg) (user_id : String) (nonce : ℕ)
    → Passes
        (verify_pow p challenge nonce msg.pubkey issuance_difficulty ≡ true)
        (issue_for_nonce env p cal mode w peer challenge msg user_id nonce)
unfolding issue_for_nonce
nonce-Passes env p cal mode w peer challenge msg user_id nonce = λ token expires e. ground arith

issue-Passes :
    (env : Env) (p : Primitives) (cal : Calendar) (mode : Mode) (w : World) (peer : Peer)
    (challenge : String) (msg : AuthMsg) (user_id : String) (r : Reading ℕ)
    → peer.issue challenge issuance_difficulty ≡ r
    → msg.device_token ≡ ""
    → Passes
        (Entitled env p w peer challenge msg user_id)
        (read_issue env p cal mode w peer challenge msg user_id r)
unfolding read_issue
issue-Passes env p cal mode w peer challenge msg user_id unread e f token expires h = cc
issue-Passes env p cal mode w peer challenge msg user_id stray e f token expires h = cc
issue-Passes env p cal mode w peer challenge msg user_id (read nonce) e f token expires h =
    inr
      (nonce, f, e, nonce-Passes env p cal mode w peer challenge msg user_id nonce token expires h)

gate-Passes :
    (env : Env) (p : Primitives) (cal : Calendar) (mode : Mode) (w : World) (peer : Peer)
    (challenge : String) (msg : AuthMsg) (user_id : String)
    → Passes
        (Entitled env p w peer challenge msg user_id)
        (device_token_gate env p cal mode w peer challenge msg user_id)
unfolding device_token_gate
gate-Passes env p cal mode w peer challenge msg user_id =
    let T = Entitled env p w peer challenge msg user_id in
    if_split (Passes T) (not env.has_pg) (λ _ token expires e. cc)
      (λ _.
        if_split (Passes T) (msg.device_token == "")
          (λ b.
            issue-Passes env p cal mode w peer challenge msg user_id _ refl
              ((eq_iff msg.device_token "").0 b))
          (λ _ token expires e.
            inl (token-Passes env p w user_id msg.device_token token expires e)))

-- What is known of a user who is admitted.
abbrev pub Authentic : Env → Primitives → World → Peer → String → AuthMsg → Client → Type 0
Authentic env p w peer challenge msg c =
    (peer.auth challenge ≡ read msg)
    × (verified (verify_signature p msg.pubkey msg.signature (bytes (signed_payload challenge msg)))
        ≡ true)
    × (c ≡ record { id = user_of p msg; conn = peer.conn })
    × Entitled env p w peer challenge msg (user_of p msg)

admit-passed :
    (peer : Peer) (mode : Mode) (user_id : String) (g : Gate) (w : World) (c : Client)
    → (admit peer mode user_id (g, w)).0 ≡ admitted c
    → (c ≡ record { id = user_id; conn = peer.conn })
      × ((token : String) × (expires : ℕ) × (g ≡ passed token expires))
unfolding admit
admit-passed peer mode user_id (refused farewell) w c h = cc
admit-passed peer mode user_id (passed token expires) w c h = (cc, (token, expires, refl))

admitted-Authentic :
    (env : Env) (p : Primitives) (cal : Calendar) (mode : Mode) (w : World) (peer : Peer)
    (challenge : String) (r : Reading AuthMsg) (c : Client)
    → peer.auth challenge ≡ r
    → (authenticate env p cal mode w peer challenge r).0 ≡ admitted c
    → (msg : AuthMsg) × Authentic env p w peer challenge msg c
unfolding authenticate
admitted-Authentic env p cal mode w peer challenge unread c e h = cc
admitted-Authentic env p cal mode w peer challenge stray c e h = cc
admitted-Authentic env p cal mode w peer challenge (read msg) c e h =
    let P : Outcome × World → Type 0 =
      λ o. o.0 ≡ admitted c → (m : AuthMsg) × Authentic env p w peer challenge m c in
    let u = user_of p msg in
    if_split P
      (verified
        (verify_signature p msg.pubkey msg.signature (bytes (signed_payload challenge msg))))
      (λ sound k.
        let g = device_token_gate env p cal mode w peer challenge msg u in
        let (who, (token, expires, pass)) = admit-passed peer mode u g.0 g.1 c k in
        (
          msg,
          (e, sound, who, gate-Passes env p cal mode w peer challenge msg u token expires pass),
        ))
      (λ _ k. cc) h

-- Only this is admitted at /ws: a peer whose address is not banned, who signs this dial's own
-- challenge, with the token that he presents, under the key of his user id, and who either holds a
-- device token that verifies for this user or has just brought a proof of work over the challenge
-- and the key.
pub serve_ws-admitted :
    (env : Env) (p : Primitives) (cal : Calendar) (mode : Mode) (w : World) (peer : Peer)
    (c : Client)
    → (serve_ws env p cal mode w peer).0 ≡ admitted c
    → (Limits.check_ip_ban w.redis env.now peer.ip ≡ false)
      × ((msg : AuthMsg) × Authentic env p w peer (env.uuid w.draws) msg c)
unfolding serve_ws
serve_ws-admitted env p cal mode w peer c h =
    let challenge = env.uuid w.draws in
    let banned = Limits.check_ip_ban w.redis env.now peer.ip in
    let P : Outcome × World → Type 0 = λ o.
      o.0 ≡ admitted c
      → (banned ≡ false) × ((m : AuthMsg) × Authentic env p w peer challenge m c) in
    if_split P (env.fails check_ban peer.ip || banned) (λ _ k. cc)
      (λ b.
        if_split P (not peer.upgrades) (λ _ k. cc)
          (λ _ k. (
            ground arith,
            admitted-Authentic env p cal mode (record w { draws = suc w.draws }) peer challenge
                (peer.auth challenge) c refl k,
          )))
      h
