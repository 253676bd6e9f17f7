-- ===== src/Relay/Http/Integrity/Nonces.antt =====
-- The life of an integrity challenge of wiltkey_server/main.go.
use wilt_key.Prelude.{
  ℕ, ◌+◌, ◌≡◌, ◌≢◌, ◌≤◌, ◌∙◌, ◌⊎◌, inl, inr, refl, ap, sym, not, ◌||◌, String, true, false, none,
  some, ◌==◌, eq_refl, arith, if_case, if_split, option_case, option_split,
}
use wilt_key.Prelude.Text.{concat, ne_of_test}
use wilt_key.Prelude.GoMap.{lookup-insert_self, lookup-delete}
use wilt_key.Redis.{RedisClient}
use wilt_key.Redis.Tokens
use wilt_key.Redis.Tokens.{or_empty}
use wilt_key.Db.{PgClientAttestation}
use wilt_key.Crypto.{Primitives, bytes, decimal, sha256_hex}
use wilt_key.Play.{Google}
use wilt_key.Play.Integrity.{PlayIntegrityVerifier, verify_integrity_token, compute_integrity_nonce}
use wilt_key.Relay.{Env, World, get_nonce, delete_nonce}
use wilt_key.Relay.Http.{verified}
use wilt_key.Relay.Http.Guards.{Accepted, check_claim-none}
use wilt_key.Relay.Http.Integrity.{
  IntegrityRequest, IntegrityReply, attestation, integrity_claim, check_integrity_claim, attest,
  attest_with, consume_nonce, handle_integrity_attest,
}

-- The nonce that is stored is the one found through its time to live.
pub get-store_integrity_nonce :
    (r : RedisClient) (now later : ℕ) (key_hash nonce : String) (ttl : ℕ)
    → later ≤ now + ttl
    → Tokens.get_integrity_nonce
        (Tokens.store_integrity_nonce r now key_hash nonce ttl)
        later
        key_hash
      ≡ nonce
unfolding Tokens.get_integrity_nonce Tokens.store_integrity_nonce
get-store_integrity_nonce r now later key_hash nonce ttl soon =
    let key = concat "integrity_nonce:" key_hash in
    ground (
      arith,
      lookup-insert_self r.memory_entitlements key nonce,
      lookup-insert_self r.memory_blocks key (now + ttl),
    )

get-delete_integrity_nonce :
    (r : RedisClient) (later : ℕ) (key_hash : String)
    → Tokens.get_integrity_nonce (Tokens.delete_integrity_nonce r key_hash) later key_hash ≡ ""
unfolding Tokens.get_integrity_nonce Tokens.delete_integrity_nonce
get-delete_integrity_nonce r later key_hash =
    rw (Tokens.get_integrity_nonce, Tokens.delete_integrity_nonce, lookup-delete, eq_refl) refl

-- What is known of a user who is attested.
abbrev pub Attested :
    Env → Primitives → Google → PlayIntegrityVerifier → World → IntegrityRequest → Type 0
Attested env p google v w req =
    let server_nonce = Tokens.get_integrity_nonce w.redis env.now req.user_id in
    Accepted env p 60 (
      integrity_claim req (
        concat "INTEGRITY_ATTEST:" (
          concat req.user_id (
            concat ":" (
              concat (sha256_hex p (bytes req.integrity_token))
                (concat ":" (decimal req.timestamp)))))))
    × (server_nonce ≢ "")
    × ((v.enabled ≡ false)
        ⊎ (verified
              (verify_integrity_token google env.now v req.integrity_token
                (compute_integrity_nonce p server_nonce req.user_id)).0
            ≡ true))

abbrev Makes : Type 0 → IntegrityReply × World → Type 0
Makes T r = (att : PgClientAttestation) → r.0 ≡ attestation att → T

attest-Makes :
    (env : Env) (p : Primitives) (google : Google) (v : PlayIntegrityVerifier) (w : World)
    (req : IntegrityRequest) (server_nonce : String)
    → Makes
        ((v.enabled ≡ false)
          ⊎ (verified
                (verify_integrity_token google env.now v req.integrity_token
                  (compute_integrity_nonce p server_nonce req.user_id)).0
              ≡ true))
        (attest_with env p google v w req server_nonce)
unfolding attest_with
attest-Makes env p google v w req server_nonce =
    let verdict =
      verified
        (verify_integrity_token google env.now v req.integrity_token
          (compute_integrity_nonce p server_nonce req.user_id)).0 in
    let P : IntegrityReply × World → Type 0 = Makes ((v.enabled ≡ false) ⊎ (verdict ≡ true)) in
    if_split P v.enabled (λ _. if_split P verdict (λ good att e. inr good) (λ _ att e. cc))
      (λ free att e. inl free)

consume-Makes :
    (env : Env) (p : Primitives) (google : Google) (v : PlayIntegrityVerifier) (w : World)
    (req : IntegrityRequest)
    → let server_nonce = Tokens.get_integrity_nonce w.redis env.now req.user_id in
      Makes
        ((server_nonce ≢ "")
          × ((v.enabled ≡ false)
              ⊎ (verified
                    (verify_integrity_token google env.now v req.integrity_token
                      (compute_integrity_nonce p server_nonce req.user_id)).0
                  ≡ true)))
        (consume_nonce env p google v w req)
unfolding consume_nonce
consume-Makes env p google v w req =
    let server_nonce = Tokens.get_integrity_nonce w.redis env.now req.user_id in
    let P : IntegrityReply × World → Type 0 = Makes (
      (server_nonce ≢ "")
      × ((v.enabled ≡ false)
          ⊎ (verified
                (verify_integrity_token google env.now v req.integrity_token
                  (compute_integrity_nonce p server_nonce req.user_id)).0
              ≡ true))) in
    if_split P (env.fails get_nonce req.user_id || server_nonce == "") (λ _ att e. cc)
      (λ full att e. (
        ne_of_test server_nonce "" (ground arith),
        attest-Makes env p google v _ req server_nonce att e,
      ))

pub claim-Accepted :
    (env : Env) (p : Primitives) (w : World) (ip : String) (req : IntegrityRequest)
    (signed : String)
    → check_integrity_claim env p w ip req signed ≡ none
    → Accepted env p 60 (integrity_claim req signed)
unfolding check_integrity_claim
claim-Accepted env p w ip req signed fine =
    check_claim-none env p w ip 60 "Invalid pubkey hex format"
      "user_id does not match sha256(pubkey)" "invalid authentication signature"
      (integrity_claim req signed) fine

-- An attestation is made only for a fresh claim that is signed over this integrity token, for which
-- a challenge of the user is open, and whose token Google's verdict accepts for the nonce of that
-- challenge, where the relay verifies at all.
pub attest-Attested :
    (env : Env) (p : Primitives) (google : Google) (v : PlayIntegrityVerifier) (w : World)
    (method ip : String) (req : IntegrityRequest) (att : PgClientAttestation)
    → (handle_integrity_attest env p google v w method ip (some req)).0 ≡ attestation att
    → Attested env p google v w req
unfolding handle_integrity_attest check_integrity_claim
attest-Attested env p google v w method ip req att h =
    let signed = concat "INTEGRITY_ATTEST:" (
      concat req.user_id (
        concat ":" (
          concat (sha256_hex p (bytes req.integrity_token))
            (concat ":" (decimal req.timestamp))))) in
    let P : IntegrityReply × World → Type 0 = Makes (Attested env p google v w req) in
    if_split P (not (method == "POST")) (λ _ att e. cc)
      (λ _.
        if_split P (req.integrity_token == "") (λ _ att e. cc)
          (λ _.
            option_split P (check_integrity_claim env p w ip req signed)
              (λ fine att e.
                let (open_, passed) = consume-Makes env p google v w req att e in
                (claim-Accepted env p w ip req signed fine, open_, passed))
              (λ refusal _ att e. cc)))
      att h

-- The redis state behind a request that consumes a nonce.
attest-keeps :
    (env : Env) (p : Primitives) (v : PlayIntegrityVerifier) (w : World) (user_id : String)
    → (attest env p v w user_id).1.redis ≡ w.redis
unfolding attest
attest-keeps env p v w user_id = ground arith

attest-redis :
    (env : Env) (p : Primitives) (google : Google) (v : PlayIntegrityVerifier) (w : World)
    (req : IntegrityRequest) (server_nonce : String)
    → (attest_with env p google v w req server_nonce).1.redis ≡ w.redis
unfolding attest_with attest
attest-redis env p google v w req server_nonce =
    let P : IntegrityReply × World → Type 0 = λ r. r.1.redis ≡ w.redis in
    let verdict =
      verified
        (verify_integrity_token google env.now v req.integrity_token
          (compute_integrity_nonce p server_nonce req.user_id)).0 in
    if_case P v.enabled (if_case P verdict (attest-keeps env p v w req.user_id) refl)
      (attest-keeps env p v w req.user_id)

consumed :
    (env : Env) (p : Primitives) (google : Google) (v : PlayIntegrityVerifier) (w : World)
    (req : IntegrityRequest) (later : ℕ)
    → env.fails delete_nonce req.user_id ≡ false
    → Makes
        (Tokens.get_integrity_nonce (consume_nonce env p google v w req).1.redis later req.user_id
          ≡ "")
        (consume_nonce env p google v w req)
unfolding consume_nonce
consumed env p google v w req later works =
    let server_nonce = Tokens.get_integrity_nonce w.redis env.now req.user_id in
    let w' = record w { redis = Tokens.delete_integrity_nonce w.redis req.user_id } in
    let P : IntegrityReply × World → Type 0 =
      λ r. Makes (Tokens.get_integrity_nonce r.1.redis later req.user_id ≡ "") r in
    if_split P (env.fails get_nonce req.user_id || server_nonce == "") (λ _ att e. cc)
      (λ _ att e. rw (works, attest-redis) (get-delete_integrity_nonce w.redis later req.user_id))

no_nonce :
    (env : Env) (p : Primitives) (google : Google) (v : PlayIntegrityVerifier) (w : World)
    (req : IntegrityRequest) (att : PgClientAttestation)
    → Tokens.get_integrity_nonce w.redis env.now req.user_id ≡ ""
    → (consume_nonce env p google v w req).0 ≢ attestation att
unfolding consume_nonce
no_nonce env p google v w req att e h =
    let P : IntegrityReply × World → Type 0 = λ r. r.0 ≢ attestation att in
    let server_nonce = Tokens.get_integrity_nonce w.redis env.now req.user_id in
    if_split P (env.fails get_nonce req.user_id || server_nonce == "") (λ _ k. cc)
      (λ full k. ne_of_test server_nonce "" (ground arith) e) h

-- A request that is attested came to its nonce.
pub handle-consume :
    (env : Env) (p : Primitives) (google : Google) (v : PlayIntegrityVerifier) (w : World)
    (method ip : String) (req : IntegrityRequest) (att : PgClientAttestation)
    → (handle_integrity_attest env p google v w method ip (some req)).0 ≡ attestation att
    → handle_integrity_attest env p google v w method ip (some req)
      ≡ consume_nonce env p google v w req
unfolding handle_integrity_attest
handle-consume env p google v w method ip req att h =
    let c = consume_nonce env p google v w req in
    let P : IntegrityReply × World → Type 0 = λ r. r.0 ≡ attestation att → r ≡ c in
    if_case P (not (method == "POST")) (λ e. cc)
      (if_case P (req.integrity_token == "") (λ e. cc)
        (option_case P (check_integrity_claim env p w ip req _) (λ e. refl) (λ refusal e. cc)))
      h

-- One challenge makes one attestation: the next request of the same user, whatever its token and
-- whatever Google says, is not attested, if the nonce could be deleted.
pub attested_once :
    (env env' : Env) (p : Primitives) (google google' : Google) (v : PlayIntegrityVerifier)
    (w : World) (method ip method' ip' : String) (req req' : IntegrityRequest)
    (att att' : PgClientAttestation)
    → env.fails delete_nonce req.user_id ≡ false
    → (handle_integrity_attest env p google v w method ip (some req)).0 ≡ attestation att
    → req'.user_id ≡ req.user_id
    → (handle_integrity_attest env' p google' v
        (handle_integrity_attest env p google v w method ip (some req)).1
        method'
        ip'
        (some req')).0
      ≢ attestation att'
attested_once env env' p google google' v w method ip method' ip' req req' att att' works h same k =
    let w' = (handle_integrity_attest env p google v w method ip (some req)).1 in
    let e = handle-consume env p google v w method ip req att h in
    let e' = handle-consume env' p google' v w' method' ip' req' att' k in
    let gone = consumed env p google v w req env'.now works att (ap (λ r. r.0) (sym e) ∙ h) in
    no_nonce env' p google' v w' req' att'
      (ap (λ u. Tokens.get_integrity_nonce w'.redis env'.now u) same
        ∙ ap
            (λ (r : IntegrityReply × World).
              Tokens.get_integrity_nonce r.1.redis env'.now req.user_id)
            e
        ∙ gone)
      (ap (λ r. r.0) (sym e') ∙ k)
