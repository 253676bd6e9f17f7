-- ===== src/Relay/Http/Integrity/Certificates.antt =====
-- What an attestation of wiltkey_server/main.go is good for.
use wilt_key.Prelude.{
  ℕ, ◌+◌, ◌*◌, ◌≡◌, ◌∙◌, refl, ap, sym, subst, not, ◌&&◌, ◌||◌, String, true, false, none, some,
  ◌==◌, arith, ltb, if◌then◌else◌, if_case, if_split,
}
use wilt_key.Time.{unix, second}
use wilt_key.Redis.Tokens
use wilt_key.Db.{PgClientAttestation}
use wilt_key.Db.Entitlements
use wilt_key.Db.Entitlements.Rows.{get-store_client_attestation}
use wilt_key.Crypto.{Primitives, ok, bytes, verify_signature}
use wilt_key.Play.{Google}
use wilt_key.Play.Integrity.{
  PlayIntegrityVerifier, verify_integrity_token, sign_attestation, public_key_hex,
  compute_integrity_nonce, attestation_text, attestation_ttl,
}
use wilt_key.Play.Integrity.Attestation.{IsKeyPair, verify-sign_attestation}
use wilt_key.Relay.{Env, World, get_nonce, delete_nonce, store_attestation, get_attestation}
use wilt_key.Relay.Http.{verified}
use wilt_key.Relay.Http.Integrity.{
  IntegrityRequest, IntegrityReply, attestation, tinkerer, client_type_of, attest, attest_with,
  consume_nonce, handle_integrity_attest, handle_integrity_query,
}
use wilt_key.Relay.Http.Integrity.Nonces.{handle-consume}

-- An attestation comes from `attest`, in a state with the same tables.
abbrev pub Made :
    Env → Primitives → PlayIntegrityVerifier → World → String → IntegrityReply × World → Type 0
Made env p v w user_id r =
    (att : PgClientAttestation)
    → r.0 ≡ attestation att
    → (w' : World) × (w'.db ≡ w.db) × (r ≡ attest env p v w' user_id)

with-Made :
    (env : Env) (p : Primitives) (google : Google) (v : PlayIntegrityVerifier) (w w' : World)
    (req : IntegrityRequest) (server_nonce : String)
    → w'.db ≡ w.db
    → Made env p v w req.user_id (attest_with env p google v w' req server_nonce)
unfolding attest_with
with-Made env p google v w w' req server_nonce same =
    let verdict =
      verified
        (verify_integrity_token google env.now v req.integrity_token
          (compute_integrity_nonce p server_nonce req.user_id)).0 in
    let P : IntegrityReply × World → Type 0 = Made env p v w req.user_id in
    if_case P v.enabled (if_case P verdict (λ att e. (w', same, refl)) (λ att e. cc))
      (λ att e. (w', same, refl))

consume-Made :
    (env : Env) (p : Primitives) (google : Google) (v : PlayIntegrityVerifier) (w : World)
    (req : IntegrityRequest)
    → Made env p v w req.user_id (consume_nonce env p google v w req)
unfolding consume_nonce
consume-Made env p google v w req =
    let P : IntegrityReply × World → Type 0 = Made env p v w req.user_id in
    let server_nonce = Tokens.get_integrity_nonce w.redis env.now req.user_id in
    let w' =
      (if env.fails delete_nonce req.user_id
        then w
        else record w { redis = Tokens.delete_integrity_nonce w.redis req.user_id }) in
    let same : w'.db ≡ w.db =
      if_case (λ (x : World). x.db ≡ w.db) (env.fails delete_nonce req.user_id) refl refl in
    if_case P (env.fails get_nonce req.user_id || server_nonce == "") (λ att e. cc)
      (with-Made env p google v w w' req server_nonce same)

handle-Made :
    (env : Env) (p : Primitives) (google : Google) (v : PlayIntegrityVerifier) (w : World)
    (method ip : String) (req : IntegrityRequest)
    → Made env p v w req.user_id (handle_integrity_attest env p google v w method ip (some req))
handle-Made env p google v w method ip req att h =
    subst (Made env p v w req.user_id) (sym (handle-consume env p google v w method ip req att h))
      (consume-Made env p google v w req) att h

attest-verifies :
    (env : Env) (p : Primitives) (v : PlayIntegrityVerifier) (w : World) (user_id : String)
    (att : PgClientAttestation)
    → IsKeyPair p v
    → (attest env p v w user_id).0 ≡ attestation att
    → (att.user_id ≡ user_id)
      × (verify_signature p att.relay_pubkey att.cert_sig (
            bytes (
              attestation_text att.user_id att.client_type
                (unix att.issued_at)
                (unix att.expires_at)))
          ≡ ok true)
unfolding attest
attest-verifies env p v w user_id att keys h =
    let client_type = client_type_of env w user_id in
    let issued_at = unix env.now in
    let expires_at = unix (env.now + attestation_ttl) in
    let made : PgClientAttestation = record {
      user_id = user_id;
      client_type = client_type;
      issued_at = issued_at * second;
      expires_at = expires_at * second;
      cert_sig = sign_attestation p v user_id client_type issued_at expires_at;
      relay_pubkey = public_key_hex v;
    } in
    let same : made ≡ att = cc in
    let i : unix (issued_at * second) ≡ issued_at = omega arith in
    let x : unix (expires_at * second) ≡ expires_at = omega arith in
    subst
      (λ (a : PgClientAttestation).
        (a.user_id ≡ user_id)
        × (verify_signature p a.relay_pubkey a.cert_sig (
              bytes
                (attestation_text a.user_id a.client_type (unix a.issued_at) (unix a.expires_at)))
            ≡ ok true))
      same
      (refl, rw (i, x) (verify-sign_attestation p v user_id client_type issued_at expires_at keys))

-- Every attestation that the relay hands out is for the user who asked, and its signature verifies
-- under the key that it names, over its own fields, as far as ed25519 does what it documents.
pub attestation_verifies :
    (env : Env) (p : Primitives) (google : Google) (v : PlayIntegrityVerifier) (w : World)
    (method ip : String) (req : IntegrityRequest) (att : PgClientAttestation)
    → IsKeyPair p v
    → (handle_integrity_attest env p google v w method ip (some req)).0 ≡ attestation att
    → (att.user_id ≡ req.user_id)
      × (verify_signature p att.relay_pubkey att.cert_sig (
            bytes (
              attestation_text att.user_id att.client_type
                (unix att.issued_at)
                (unix att.expires_at)))
          ≡ ok true)
attestation_verifies env p google v w method ip req att keys h =
    let (w', _, made) = handle-Made env p google v w method ip req att h in
    attest-verifies env p v w' req.user_id att keys (ap (λ r. r.0) (sym made) ∙ h)

attest-row :
    (env : Env) (p : Primitives) (v : PlayIntegrityVerifier) (w : World) (user_id : String)
    (later : ℕ) (att : PgClientAttestation)
    → (env.has_pg && not (env.fails store_attestation user_id)) ≡ true
    → (attest env p v w user_id).0 ≡ attestation att
    → (Entitlements.get_client_attestation (attest env p v w user_id).1.db later user_id
        ≡ (if ltb later att.expires_at then some att else none))
      × (att.relay_pubkey ≡ public_key_hex v)
unfolding attest
attest-row env p v w user_id later att stores h =
    let client_type = client_type_of env w user_id in
    let issued_at = unix env.now * second in
    let expires_at = unix (env.now + attestation_ttl) * second in
    let cert_sig =
      sign_attestation p v user_id client_type (unix env.now) (unix (env.now + attestation_ttl)) in
    let made : PgClientAttestation = record {
      user_id = user_id;
      client_type = client_type;
      issued_at = issued_at;
      expires_at = expires_at;
      cert_sig = cert_sig;
      relay_pubkey = public_key_hex v;
    } in
    let same : made ≡ att = cc in
    let db' =
      Entitlements.store_client_attestation w.db user_id client_type issued_at expires_at cert_sig
        (public_key_hex v) in
    let P : World → Type 0 = λ w'.
      (Entitlements.get_client_attestation w'.db later user_id
        ≡ (if ltb later att.expires_at then some att else none))
      × (att.relay_pubkey ≡ public_key_hex v) in
    if_split P (env.has_pg && not (env.fails store_attestation user_id))
      (λ _.
        subst
          (λ (a : PgClientAttestation).
            (Entitlements.get_client_attestation db' later user_id
              ≡ (if ltb later a.expires_at then some a else none))
            × (a.relay_pubkey ≡ public_key_hex v))
          same
          (
            get-store_client_attestation w.db later user_id client_type issued_at expires_at
                cert_sig (public_key_hex v),
            refl,
          ))
      (λ fails. absurd (ground (arith, stores, fails)))

row-query :
    (later : Env) (v : PlayIntegrityVerifier) (w : World) (user_id : String)
    (att : PgClientAttestation)
    → later.has_pg ≡ true
    → later.fails get_attestation user_id ≡ false
    → (user_id == "") ≡ false
    → (att.relay_pubkey == "") ≡ false
    → Entitlements.get_client_attestation w.db later.now user_id
      ≡ (if ltb later.now att.expires_at then some att else none)
    → handle_integrity_query later v w "GET" user_id
      ≡ (if ltb later.now att.expires_at then attestation att else tinkerer user_id)
unfolding handle_integrity_query
row-query later v w user_id att pg works named key row =
    rw (handle_integrity_query, pg, works, named, row) (ground (arith, key))

attest-query :
    (env later : Env) (p : Primitives) (v : PlayIntegrityVerifier) (w : World) (user_id : String)
    (att : PgClientAttestation)
    → (env.has_pg && not (env.fails store_attestation user_id)) ≡ true
    → later.has_pg ≡ true
    → later.fails get_attestation user_id ≡ false
    → (user_id == "") ≡ false
    → (public_key_hex v == "") ≡ false
    → (attest env p v w user_id).0 ≡ attestation att
    → handle_integrity_query later v (attest env p v w user_id).1 "GET" user_id
      ≡ (if ltb later.now att.expires_at then attestation att else tinkerer user_id)
attest-query env later p v w user_id att stores pg works named key h =
    let (row, shown_key) = attest-row env p v w user_id later.now att stores h in
    row-query later v (attest env p v w user_id).1 user_id att pg works named
      (ap (λ k. k == "") shown_key ∙ key) row

-- The attestation that a user was given is what everyone is shown of him until it expires; then he
-- is a tinkerer again. The relay has its tables, which do not fail, a public key, and the user an
-- id.
pub query_returns :
    (env later : Env) (p : Primitives) (google : Google) (v : PlayIntegrityVerifier) (w : World)
    (method ip : String) (req : IntegrityRequest) (att : PgClientAttestation)
    → (env.has_pg && not (env.fails store_attestation req.user_id)) ≡ true
    → later.has_pg ≡ true
    → later.fails get_attestation req.user_id ≡ false
    → (req.user_id == "") ≡ false
    → (public_key_hex v == "") ≡ false
    → (handle_integrity_attest env p google v w method ip (some req)).0 ≡ attestation att
    → handle_integrity_query later v
        (handle_integrity_attest env p google v w method ip (some req)).1
        "GET"
        req.user_id
      ≡ (if ltb later.now att.expires_at then attestation att else tinkerer req.user_id)
query_returns env later p google v w method ip req att stores pg works named key h =
    let (w', _, made) = handle-Made env p google v w method ip req att h in
    ap (λ (r : IntegrityReply × World). handle_integrity_query later v r.1 "GET" req.user_id) made
    ∙ attest-query env later p v w' req.user_id att stores pg works named key
        (ap (λ r. r.0) (sym made) ∙ h)
