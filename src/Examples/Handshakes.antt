-- ===== src/Examples/Handshakes.antt =====
-- Concrete inputs to the laws of the handshake at /ws.
use wilt_key.Prelude.{
  ◌+◌, ◌-◌, ◌≡◌, ◌≤◌, refl, String, true, false, some, [], ◌∷◌, arith, leb, if◌then◌else◌,
}
use wilt_key.Prelude.GoMap.{empty, insert, lookup, size}
use wilt_key.Time.{hour}
use wilt_key.Redis.Limits
use wilt_key.Redis.Limits.{issuance_count_today}
use wilt_key.Db.DeviceTokens
use wilt_key.Crypto.{verify_signature, hex_decode, hex_encode, verify_pow, generate_user_id}
use wilt_key.Relay.{Env, World, Client}
use wilt_key.Relay.Challenge.{off, Attempt}
use wilt_key.Relay.Auth.{
  issuance_daily_ip_cap, Reading, read, AuthMsg, Peer, closed, admitted, auth_error, auth_rejected,
  Mode, serve_ws,
}
use wilt_key.Relay.Auth.Admission.{Authentic, serve_ws-admitted}
use wilt_key.Relay.Auth.Refusal.{Harmless, serve_ws-closed}
use wilt_key.Relay.Auth.Return.{Signed, token_admits, pow_admits}
use wilt_key.Relay.Auth.Quota.{issued, issued-le}
use wilt_key.Relay.Auth.Issued.{Given, issued_verifies}
use wilt_key.Examples.{noon, env, world, hashes}
use wilt_key.Examples.Puzzles.{calendar}

abbrev pub zero_key : String
zero_key = "0000000000000000000000000000000000000000000000000000000000000000"

abbrev pub zero_signature : String
zero_signature =
    "00000000000000000000000000000000000000000000000000000000000000000000000000000000000000000000000000000000000000000000000000000000"

abbrev hello : String → AuthMsg
hello device_token = record {
  pubkey = zero_key;
  signature = zero_signature;
  device_token = device_token;
  client_caps = [];
}

-- A peer who presents a device token, or none and then a nonce.
abbrev peer : String → Peer
peer device_token = record {
  ip = "10.0.0.1";
  conn = 7;
  upgrades = true;
  auth = λ challenge. read (hello device_token);
  issue = λ challenge difficulty. read 7;
  solve = λ seed challenge_id. Attempt.stray;
}

abbrev mode : Mode
mode = record { test_mode = false; challenge_mode = off }

abbrev visitor : Client
visitor = record { id = "000000"; conn = 7 }

-- The peer is admitted without a token.
visitor-admitted : (serve_ws env hashes calendar mode world (peer "")).0 ≡ admitted visitor
unfolding serve_ws Limits.check_ip_ban lookup empty verify_signature hex_decode verify_pow
    hex_encode Limits.allow_issuance Limits.trim_stale size insert generate_user_id
visitor-admitted = refl

serve_ws-admitted_example :
    (Limits.check_ip_ban world.redis noon "10.0.0.1" ≡ false)
    × ((msg : AuthMsg) × Authentic env hashes world (peer "") (env.uuid 1) msg visitor)
serve_ws-admitted_example =
    serve_ws-admitted env hashes calendar mode world (peer "") visitor visitor-admitted

-- A frame of another kind in place of AUTH.
abbrev stranger : Peer
stranger = record (peer "") { auth = λ challenge. Reading.stray }

serve_ws-closed_example :
    Harmless world
      (some (auth_error "Expected AUTH frame"))
      (serve_ws env hashes calendar mode world stranger).1
unfolding serve_ws Limits.check_ip_ban lookup empty
serve_ws-closed_example =
    serve_ws-closed env hashes calendar mode world stranger
      (some (auth_error "Expected AUTH frame")) refl

issued-le_example :
    issued hashes calendar mode "10.0.0.1" world ((env, peer "") ∷ (env, stranger) ∷ [])
    ≤ issuance_daily_ip_cap - issuance_count_today world.redis "20261126" "10.0.0.1"
issued-le_example =
    issued-le hashes calendar mode "20261126" "10.0.0.1" world
      ((env, peer "") ∷ (env, stranger) ∷ []) (refl, (refl, tt))

visitor-Signed : Signed env hashes world (peer "") (hello "")
unfolding Limits.check_ip_ban lookup empty verify_signature hex_decode
visitor-Signed = (refl, refl, refl, refl)

pow_admits_example : (serve_ws env hashes calendar mode world (peer "")).0 ≡ (
    if leb (issuance_count_today world.redis "20261126" "10.0.0.1" + 1) issuance_daily_ip_cap
    then admitted visitor
    else closed (some (auth_rejected "issuance_rate_limited")))
unfolding wilt_key.Relay.Challenge.client_advertises_challenge verify_pow hex_encode
    generate_user_id
pow_admits_example =
    pow_admits env hashes calendar mode world (peer "") (hello "") 7 visitor-Signed refl refl refl
      refl refl refl refl refl refl

issued_verifies_example :
    Given hashes mode world
      (serve_ws env hashes calendar mode world (peer "")).1
      visitor
      (noon + hour)
issued_verifies_example =
    issued_verifies env hashes calendar mode world (peer "") (hello "") visitor (noon + hour)
      visitor-Signed refl refl (omega arith) visitor-admitted

-- The tables with the token "tok" of the visitor.
abbrev known : World
known = record world { db = (DeviceTokens.mint_device_token world.db noon "000000" "000000").1 }

token_admits_example : (serve_ws env hashes calendar mode known (peer "tok")).0 ≡ admitted visitor
unfolding Limits.check_ip_ban lookup empty verify_signature hex_decode
    DeviceTokens.verify_device_token DeviceTokens.mint_device_token generate_user_id hex_encode
token_admits_example =
    token_admits env hashes calendar mode known (peer "tok") (hello "tok") (refl, refl, refl, refl)
      refl refl refl refl
