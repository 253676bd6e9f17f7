-- ===== src/Examples/Attestations.antt =====
-- Concrete inputs to the laws of attestations and of the encodings in them.
use wilt_key.Prelude.{
  ℕ, zero, suc, ◌<◌, ◌+◌, ◌*◌, ◌/◌, ◌≡◌, ◌≢◌, ◌≤◌, ◌⊎◌, inl, inr, refl, String, true, false, none,
  some, List, [], ◌∷◌, arith, ltb, if◌then◌else◌, length,
}
use wilt_key.Time.{unix, second, hour}
use wilt_key.Db.{PgClientAttestation}
use wilt_key.Crypto.{Result, ok, bytes, hex_encode, hex_decode, verify_signature}
use wilt_key.Crypto.Hex.{hex_decode-encode}
use wilt_key.Play.Integrity.{
  PlayIntegrityVerifier, attestation_text, public_key_hex, sign_attestation,
}
use wilt_key.Play.Integrity.Attestation.{IsBytes, IsKeyPair}
use wilt_key.Relay.{World}
use wilt_key.Relay.Http.Integrity.{
  IntegrityRequest, attestation, tinkerer, handle_integrity_challenge, handle_integrity_attest,
  handle_integrity_query,
}
use wilt_key.Relay.Http.Integrity.Nonces.{Attested, attest-Attested, attested_once}
use wilt_key.Relay.Http.Integrity.Certificates.{attestation_verifies, query_returns}
use wilt_key.Relay.Http.Integrity.Answering.{challenge_attests}
use wilt_key.Examples.{noon, env, world, hashes, repeat}
use wilt_key.Examples.Handshakes.{zero_key, zero_signature}
use wilt_key.Examples.Purchases.{google, no_token}

hex_decode-encode_example : hex_decode (hex_encode (0 ∷ 171 ∷ 255 ∷ [])) ≡ some (0 ∷ 171 ∷ 255 ∷ [])
hex_decode-encode_example =
    hex_decode-encode (0 ∷ 171 ∷ 255 ∷ []) (omega arith, (omega arith, (omega arith, tt)))

abbrev notary : PlayIntegrityVerifier
notary = record {
  enabled = true;
  package_name = "xyz.artfacility.wiltkey";
  tokens = no_token;
  relay_priv = [];
  relay_pub = repeat 32 9;
}

-- A request of the user of the zero key.
abbrev request : String → IntegrityRequest
request integrity_token = record {
  user_id = "000000";
  pubkey = zero_key;
  integrity_token = integrity_token;
  signature = zero_signature;
  timestamp = 1000010;
}

-- The state behind a challenge at noon.
abbrev challenged : World
challenged =
    (handle_integrity_challenge env hashes notary world "POST" "10.0.0.1" (some (request ""))).1

abbrev certificate : PgClientAttestation
certificate = record {
  user_id = "000000";
  client_type = "play_official";
  issued_at = noon;
  expires_at = noon + 168 * hour;
  cert_sig = hex_encode (repeat 64 7);
  relay_pubkey = hex_encode (repeat 32 9);
}

certified :
    (handle_integrity_attest env hashes google notary challenged "POST" "10.0.0.1"
      (some (request "token"))).0
    ≡ attestation certificate
unfolding handle_integrity_attest hex_decode wilt_key.Crypto.generate_user_id hex_encode
    verify_signature wilt_key.Redis.Tokens.get_integrity_nonce wilt_key.Prelude.GoMap.lookup
    handle_integrity_challenge wilt_key.Redis.Tokens.store_integrity_nonce
    wilt_key.Prelude.GoMap.insert wilt_key.Examples.name wilt_key.Db.Entitlements.get_entitlement
certified = refl

attest-Attested_example : Attested env hashes google notary challenged (request "token")
attest-Attested_example =
    attest-Attested env hashes google notary challenged "POST" "10.0.0.1" (request "token")
      certificate certified

attested_once_example :
    (handle_integrity_attest env hashes google notary
      (handle_integrity_attest env hashes google notary challenged "POST" "10.0.0.1"
        (some (request "token"))).1
      "POST"
      "10.0.0.1"
      (some (request "token"))).0
    ≢ attestation certificate
attested_once_example =
    attested_once env env hashes google google notary challenged "POST" "10.0.0.1" "POST" "10.0.0.1"
      (request "token") (request "token") certificate certificate refl certified refl

repeat-IsBytes : (n b : ℕ) → b < 256 → IsBytes (repeat n b)
repeat-IsBytes zero b small = tt
repeat-IsBytes (suc n) b small = (small, repeat-IsBytes n b small)

notary-IsKeyPair : IsKeyPair hashes notary
notary-IsKeyPair =
    (repeat-IsBytes 32 9 (omega arith), refl, λ m. (repeat-IsBytes 64 7 (omega arith), refl, refl))

attestation_verifies_example :
    (certificate.user_id ≡ "000000")
    × (verify_signature hashes certificate.relay_pubkey certificate.cert_sig
          (bytes (attestation_text "000000" "play_official" (unix noon) (unix (noon + 168 * hour))))
        ≡ ok true)
attestation_verifies_example =
    attestation_verifies env hashes google notary challenged "POST" "10.0.0.1" (request "token")
      certificate notary-IsKeyPair certified

query_returns_example :
    handle_integrity_query
      (record env { now = noon + hour })
      notary
      (handle_integrity_attest env hashes google notary challenged "POST" "10.0.0.1"
        (some (request "token"))).1
      "GET"
      "000000"
    ≡ (if ltb (noon + hour) (noon + 168 * hour) then attestation certificate else tinkerer "000000")
unfolding public_key_hex hex_encode
query_returns_example =
    query_returns env (record env { now = noon + hour }) hashes google notary challenged "POST"
      "10.0.0.1" (request "token") certificate refl refl refl refl refl certified

challenge_attests_example :
    (att : PgClientAttestation) × ((handle_integrity_attest
        (record env { now = noon + 10 * second })
        hashes
        google
        notary
        challenged
        "POST"
        "10.0.0.2"
        (some (request "token"))).0
      ≡ attestation att)
    × (att.user_id ≡ "000000")
unfolding handle_integrity_challenge hex_decode wilt_key.Crypto.generate_user_id hex_encode
    verify_signature wilt_key.Examples.name wilt_key.Play.Integrity.verify_integrity_token
challenge_attests_example =
    challenge_attests env (record env { now = noon + 10 * second }) hashes google notary world
      "POST" "10.0.0.1" "10.0.0.2" (request "") (request "token") "xx" "AAAA"
      (hex_encode (repeat 32 9)) 1000000 refl refl refl (omega arith) refl refl refl (inr refl)
