-- ===== src/Relay/Http/Integrity/Answering.antt =====
-- Who answers an integrity challenge of wiltkey_server/main.go is attested.
use wilt_key.Prelude.{
  ℕ, ◌+◌, ◌≡◌, ◌≤◌, ◌∙◌, ◌⊎◌, inl, inr, refl, ap, not, String, true, false, none, some, ◌==◌, arith,
  if◌then◌else◌, if_case, option_case,
}
use wilt_key.Prelude.Text.{concat}
use wilt_key.Redis.Tokens
use wilt_key.Db.{PgClientAttestation}
use wilt_key.Crypto.{Primitives, bytes, decimal, sha256_hex}
use wilt_key.Play.{Google}
use wilt_key.Play.Integrity.{
  PlayIntegrityVerifier, verify_integrity_token, compute_integrity_nonce, challenge_ttl,
}
use wilt_key.Relay.{Env, World, get_nonce, delete_nonce, random, store_nonce}
use wilt_key.Relay.Http.{verified}
use wilt_key.Relay.Http.Integrity.{
  IntegrityRequest, IntegrityReply, nonce_reply, attestation, check_integrity_claim, issue_nonce,
  handle_integrity_challenge, attest, attest_with, consume_nonce, handle_integrity_attest,
}
use wilt_key.Relay.Http.Integrity.Nonces.{get-store_integrity_nonce}

-- Google's verdict, where the relay asks for it.
abbrev pub Passed :
    Env → Primitives → Google → PlayIntegrityVerifier → IntegrityRequest → String → Type 0
Passed env p google v req server_nonce =
    (v.enabled ≡ false)
    ⊎ (verified
          (verify_integrity_token google env.now v req.integrity_token
            (compute_integrity_nonce p server_nonce req.user_id)).0
        ≡ true)

Passed-attests :
    (env : Env) (p : Primitives) (google : Google) (v : PlayIntegrityVerifier) (w : World)
    (req : IntegrityRequest) (server_nonce : String)
    → Passed env p google v req server_nonce
    → attest_with env p google v w req server_nonce ≡ attest env p v w req.user_id
unfolding attest_with
Passed-attests env p google v w req server_nonce (inl free) = rw free refl
Passed-attests env p google v w req server_nonce (inr good) = rw good (ground arith)

attest-answers :
    (env : Env) (p : Primitives) (v : PlayIntegrityVerifier) (w : World) (user_id : String)
    → (att : PgClientAttestation) × ((attest env p v w user_id).0 ≡ attestation att)
      × (att.user_id ≡ user_id)
unfolding attest
attest-answers env p v w user_id = (_, refl, refl)

abbrev Kept : Env → World → String → ℕ → IntegrityReply × World → Type 0
Kept env w user_id later r =
    (n expected key : String) (t : ℕ)
    → r.0 ≡ nonce_reply n expected t key
    → Tokens.get_integrity_nonce r.1.redis later user_id ≡ n

issue-Kept :
    (env : Env) (p : Primitives) (v : PlayIntegrityVerifier) (w : World) (user_id : String)
    (later : ℕ)
    → later ≤ env.now + challenge_ttl
    → Kept env w user_id later (issue_nonce env p v w user_id)
unfolding issue_nonce
issue-Kept env p v w user_id later soon =
    let P : IntegrityReply × World → Type 0 = Kept env w user_id later in
    let server_nonce = env.uuid w.draws in
    let found =
      get-store_integrity_nonce w.redis env.now later user_id server_nonce challenge_ttl soon in
    if_case P (env.fails random user_id) (λ n x k t e. cc)
      (if_case P (env.fails store_nonce user_id) (λ n x k t e. cc) (λ n x k t e. found ∙ cc))

challenge-Kept :
    (env : Env) (p : Primitives) (v : PlayIntegrityVerifier) (w : World) (method ip : String)
    (req : IntegrityRequest) (later : ℕ)
    → later ≤ env.now + challenge_ttl
    → Kept env w req.user_id later (handle_integrity_challenge env p v w method ip (some req))
unfolding handle_integrity_challenge
challenge-Kept env p v w method ip req later soon =
    let P : IntegrityReply × World → Type 0 = Kept env w req.user_id later in
    if_case P (not (method == "POST")) (λ n x k t e. cc)
      (option_case P (check_integrity_claim env p w ip req _)
        (issue-Kept env p v w req.user_id later soon) (λ refusal n x k t e. cc))

-- The text that an attest request signs.
abbrev pub attest_text : Primitives → IntegrityRequest → String
attest_text p req = concat "INTEGRITY_ATTEST:" (
    concat req.user_id (
      concat ":"
        (concat (sha256_hex p (bytes req.integrity_token)) (concat ":" (decimal req.timestamp)))))

nonce_attests :
    (env : Env) (p : Primitives) (google : Google) (v : PlayIntegrityVerifier) (w : World)
    (req : IntegrityRequest) (server_nonce : String)
    → Tokens.get_integrity_nonce w.redis env.now req.user_id ≡ server_nonce
    → (server_nonce == "") ≡ false
    → env.fails get_nonce req.user_id ≡ false
    → Passed env p google v req server_nonce
    → (att : PgClientAttestation) × ((consume_nonce env p google v w req).0 ≡ attestation att)
      × (att.user_id ≡ req.user_id)
unfolding consume_nonce
nonce_attests env p google v w req server_nonce e full works good =
    let after =
      (if env.fails delete_nonce req.user_id
        then w
        else record w { redis = Tokens.delete_integrity_nonce w.redis req.user_id }) in
    rw (consume_nonce, works, e, full, Passed-attests env p google v after req server_nonce good)
      (attest-answers env p v after req.user_id)

-- A user whom the relay sent a nonce, and who within five minutes signs a request with an integrity
-- token that Google accepts for that nonce, or any token at a relay that does not ask Google, is
-- attested, where the nonce is not empty and can be read.
pub challenge_attests :
    (env env' : Env) (p : Primitives) (google : Google) (v : PlayIntegrityVerifier) (w : World)
    (method ip ip' : String) (asked req : IntegrityRequest) (n expected key : String) (t : ℕ)
    → (handle_integrity_challenge env p v w method ip (some asked)).0 ≡ nonce_reply n expected t key
    → (n == "") ≡ false
    → req.user_id ≡ asked.user_id
    → env'.now ≤ env.now + challenge_ttl
    → env'.fails get_nonce req.user_id ≡ false
    → (req.integrity_token == "") ≡ false
    → check_integrity_claim env' p
        (handle_integrity_challenge env p v w method ip (some asked)).1
        ip'
        req
        (attest_text p req)
      ≡ none
    → Passed env' p google v req n
    → (att : PgClientAttestation) × ((handle_integrity_attest env' p google v
          (handle_integrity_challenge env p v w method ip (some asked)).1
          "POST"
          ip'
          (some req)).0
        ≡ attestation att)
      × (att.user_id ≡ req.user_id)
unfolding handle_integrity_attest
challenge_attests env env' p google v w method ip ip' asked req n expected key t h full same soon
      works token fine good =
    let w' = (handle_integrity_challenge env p v w method ip (some asked)).1 in
    let found = challenge-Kept env p v w method ip asked env'.now soon n expected key t h in
    rw (handle_integrity_attest, token, fine)
      (nonce_attests env' p google v w' req n
        (ap (λ u. Tokens.get_integrity_nonce w'.redis env'.now u) same ∙ found) full works good)
