-- ===== src/Relay/Http/Integrity.antt =====
-- handleIntegrityChallenge, handleIntegrityAttest and handleIntegrityQuery of
-- wiltkey_server/main.go.
pub mod Nonces
pub mod Certificates
pub mod Answering
use wilt_key.Prelude.{
  ℕ, suc, ◌+◌, ◌*◌, String, Bool, false, not, ◌&&◌, ◌||◌, Option, none, some, ◌==◌, ltb,
  if◌then◌else◌,
}
use wilt_key.Prelude.Text.{concat}
use wilt_key.Time.{unix, second}
use wilt_key.Redis.Tokens
use wilt_key.Db.{PgEntitlement, PgClientAttestation}
use wilt_key.Db.Entitlements
use wilt_key.Crypto.{Primitives, Result, ok, err, bytes, decimal, sha256_hex}
use wilt_key.Play.{Google}
use wilt_key.Play.Integrity.{
  PlayIntegrityVerifier, verify_integrity_token, sign_attestation, public_key_hex,
  compute_integrity_nonce, attestation_ttl, challenge_ttl,
}
use wilt_key.Relay.{
  Env, World, random, store_nonce, get_nonce, delete_nonce, get_entitlement, get_cached,
  store_attestation, get_attestation,
}
use wilt_key.Relay.Http.{Reply, reply, Claim, check_claim, verified}

pub record IntegrityRequest : Type 0 where
  pub user_id : String
  pub pubkey : String
  pub integrity_token : String
  pub signature : String
  pub timestamp : ℕ

-- The replies: JSON objects by their fields.
pub data IntegrityReply : Type 0 where
  refused : Reply → IntegrityReply
  nonce_reply : String → String → ℕ → String → IntegrityReply
  attestation : PgClientAttestation → IntegrityReply
  tinkerer : String → IntegrityReply

abbrev pub refuse : Reply × World → IntegrityReply × World
refuse (r, w) = (refused r, w)

abbrev pub integrity_claim : IntegrityRequest → String → Claim
integrity_claim req signed = record {
  id = req.user_id;
  pubkey = req.pubkey;
  timestamp = req.timestamp;
  sig = req.signature;
  signed = signed;
}

unfoldable pub check_integrity_claim :
    Env → Primitives → World → String → IntegrityRequest → String → Option (Reply × World)
unfolding check_claim
check_integrity_claim env p w ip req signed =
    check_claim env p w ip 60 "Invalid pubkey hex format" "user_id does not match sha256(pubkey)"
      "invalid authentication signature" (integrity_claim req signed)

unfoldable pub issue_nonce :
    Env → Primitives → PlayIntegrityVerifier → World → String → IntegrityReply × World
unfolding compute_integrity_nonce public_key_hex
issue_nonce env p v w user_id =
    if env.fails random user_id
    then (refused (reply 500 "Failed to generate nonce"), w)
    else (let server_nonce = env.uuid w.draws in
        let w' = record w { draws = suc w.draws } in
        if env.fails store_nonce user_id
        then (refused (reply 500 "Database error storing nonce"), w')
        else (
          nonce_reply server_nonce (compute_integrity_nonce p server_nonce user_id) (unix env.now)
              (public_key_hex v),
          record w' {
            redis = Tokens.store_integrity_nonce w.redis env.now user_id server_nonce challenge_ttl;
          },
        ))

unfoldable pub handle_integrity_challenge :
    Env
    → Primitives
    → PlayIntegrityVerifier
    → World
    → String
    → String
    → Option IntegrityRequest
    → IntegrityReply × World
unfolding check_integrity_claim issue_nonce
handle_integrity_challenge env p v w method ip body =
    if not (method == "POST") then (refused (reply 405 "Method not allowed"), w) else elim body [
      | none ↦ (refused (reply 400 "Invalid request body"), w)
      | some req ↦
          elim (check_integrity_claim env p w ip req (
            concat "INTEGRITY_CHALLENGE:"
              (concat req.user_id (concat ":" (decimal req.timestamp))))) [
                | some refusal ↦ refuse refusal
                | none ↦ issue_nonce env p v w req.user_id
              ]
    ]

abbrev pub is_current : ℕ → Option PgEntitlement → Bool
is_current now none = false
is_current now (some ent) = ltb now ent.expires_at

-- A store that fails is taken to hold nothing.
unfoldable pub client_type_of : Env → World → String → String
client_type_of env w user_id =
    if env.has_pg
    then (if not (env.fails get_entitlement user_id)
          && is_current env.now (Entitlements.get_entitlement w.db env.now user_id)
        then "play_plus"
        else "play_official")
    else (if not (env.fails get_cached user_id)
          && not (Tokens.get_entitlement_hash w.redis env.now user_id == "")
        then "play_plus"
        else "play_official")

-- The attestation, with times in whole seconds.
unfoldable pub attest :
    Env → Primitives → PlayIntegrityVerifier → World → String → IntegrityReply × World
unfolding client_type_of sign_attestation public_key_hex
attest env p v w user_id =
    let client_type = client_type_of env w user_id in
    let issued_at = unix env.now in
    let expires_at = unix (env.now + attestation_ttl) in
    let cert_sig = sign_attestation p v user_id client_type issued_at expires_at in
    (
      attestation (record {
        user_id = user_id;
        client_type = client_type;
        issued_at = issued_at * second;
        expires_at = expires_at * second;
        cert_sig = cert_sig;
        relay_pubkey = public_key_hex v;
      }),
      (if env.has_pg && not (env.fails store_attestation user_id)
          then record w {
            db =
                Entitlements.store_client_attestation w.db user_id client_type (issued_at * second)
                  (expires_at * second) cert_sig (public_key_hex v);
          }
          else w),
    )

abbrev pub failure_text : Result Bool → String
failure_text (ok b) = "<nil>"
failure_text (err e) = e

-- Behind the nonce, which is consumed.
unfoldable pub attest_with :
    Env
    → Primitives
    → Google
    → PlayIntegrityVerifier
    → World
    → IntegrityRequest
    → String
    → IntegrityReply × World
unfolding attest verify_integrity_token compute_integrity_nonce
attest_with env p google v w req server_nonce =
    if v.enabled
    then (let verdict =
          (verify_integrity_token google env.now v req.integrity_token
            (compute_integrity_nonce p server_nonce req.user_id)).0 in
        if verified verdict then attest env p v w req.user_id else (
          refused (reply 403 (concat "Integrity verification failed: " (failure_text verdict))),
          w,
        ))
    else attest env p v w req.user_id

unfoldable pub consume_nonce :
    Env
    → Primitives
    → Google
    → PlayIntegrityVerifier
    → World
    → IntegrityRequest
    → IntegrityReply × World
unfolding attest_with
consume_nonce env p google v w req =
    let server_nonce = Tokens.get_integrity_nonce w.redis env.now req.user_id in
    if env.fails get_nonce req.user_id || server_nonce == ""
    then (refused (reply 400 "Invalid or expired integrity challenge"), w)
    else (let w' =
          (if env.fails delete_nonce req.user_id
            then w
            else record w { redis = Tokens.delete_integrity_nonce w.redis req.user_id }) in
        attest_with env p google v w' req server_nonce)

unfoldable pub handle_integrity_attest :
    Env
    → Primitives
    → Google
    → PlayIntegrityVerifier
    → World
    → String
    → String
    → Option IntegrityRequest
    → IntegrityReply × World
unfolding check_integrity_claim consume_nonce
handle_integrity_attest env p google v w method ip body =
    if not (method == "POST") then (refused (reply 405 "Method not allowed"), w) else elim body [
      | none ↦ (refused (reply 400 "Invalid request body"), w)
      | some req ↦
          if req.integrity_token == ""
          then (refused (reply 400 "Missing integrity token"), w)
          else elim (check_integrity_claim env p w ip req (
              concat "INTEGRITY_ATTEST:" (
                concat req.user_id (
                  concat ":" (
                    concat (sha256_hex p (bytes req.integrity_token))
                      (concat ":" (decimal req.timestamp))))))) [
                        | some refusal ↦ refuse refusal
                        | none ↦ consume_nonce env p google v w req
                      ]
    ]

-- The row as it is served: a row without a key is shown with this relay's.
abbrev pub shown : PlayIntegrityVerifier → PgClientAttestation → IntegrityReply
shown v att =
    if att.relay_pubkey == ""
    then attestation (record att { relay_pubkey = public_key_hex v })
    else attestation att

unfoldable pub handle_integrity_query :
    Env → PlayIntegrityVerifier → World → String → String → IntegrityReply
unfolding public_key_hex
handle_integrity_query env v w method user_id =
    if not (method == "GET")
    then refused (reply 405 "Method not allowed")
    else if user_id == ""
    then refused (reply 400 "Missing user_id")
    else if env.has_pg && not (env.fails get_attestation user_id)
    then elim (Entitlements.get_client_attestation w.db env.now user_id) [
      | none ↦ tinkerer user_id
      | some att ↦ if ltb env.now att.expires_at then shown v att else tinkerer user_id
    ]
    else tinkerer user_id
