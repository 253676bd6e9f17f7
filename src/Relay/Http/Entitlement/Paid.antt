-- ===== src/Relay/Http/Entitlement/Paid.antt =====
-- What handlePostEntitlement of wiltkey_server/main.go asks before it entitles, and what it leaves
-- when it refuses.
use wilt_key.Prelude.{
  ℕ, ◌≡◌, ◌-◌, ◌<◌, if◌then◌else◌, Bool, false, refl, subst, not, ◌&&◌, String, true, Option, none,
  some, ◌==◌, arith, ltb, if_case, if_split, option_case, option_split,
}
use wilt_key.Time.{unix}
use wilt_key.Redis.Limits
use wilt_key.Redis.Tokens
use wilt_key.Db.Entitlements
use wilt_key.Crypto.{Primitives, bytes, sha256_hex, hex_decode, generate_user_id, verify_signature}
use wilt_key.Play.{Google}
use wilt_key.Play.Billing.{PlayVerifier, Verdict, entitled, not_entitled, failed, verify}
use wilt_key.Play.Billing.Verdicts.{Answered, verify-entitled, verify-ahead}
use wilt_key.Relay.{Env, World, store_entitlement, cache_entitlement}
use wilt_key.Relay.Http.{
  Reply, reply, Claim, drift, verified, lacks_fields, check_claim, handle_validation_failure,
  register_ip_failure, ban_for,
}
use wilt_key.Relay.Http.Guards.{Accepted, check_claim-none}
use wilt_key.Relay.Http.Entitlement.{
  EntitlementRequest, EntitlementReply, refused, success, entitlement_claim, grant, grant_verified,
  entitle, handle_post_entitlement,
}

-- What an entitlement leaves: the row and its cached copy with the time that is left, or the row
-- alone where the cache fails; and the rest of the state as it was.
abbrev pub Recorded : Env → World → String → String → ℕ → World → Type 0
Recorded env w user_id hash expiry w' =
    let stored = record w { db = Entitlements.store_entitlement w.db user_id hash expiry } in
    let cached = record stored {
      redis = Tokens.store_entitlement w.redis env.now user_id hash (expiry - env.now);
    } in
    w' ≡ (if env.fails cache_entitlement user_id then stored else cached)

cached_if :
    (now expiry : ℕ) (down : Bool) (stored cached : World)
    → now < expiry
    → (if ltb now expiry && not down then cached else stored) ≡ (if down then stored else cached)
cached_if now expiry true stored cached ahead = ground arith
cached_if now expiry false stored cached ahead = ground arith

grant-Recorded :
    (env : Env) (w : World) (user_id hash : String) (expiry t : ℕ)
    → env.now < expiry
    → (grant env w user_id hash expiry).0 ≡ success t
    → (unix expiry ≡ t) × Recorded env w user_id hash expiry (grant env w user_id hash expiry).1
unfolding grant
grant-Recorded env w user_id hash expiry t ahead h =
    let P : EntitlementReply × World → Type 0 =
      λ r. r.0 ≡ success t → (unix expiry ≡ t) × Recorded env w user_id hash expiry r.1 in
    if_case P (env.fails store_entitlement user_id) (λ e. cc)
      (λ e. (cc, cached_if env.now expiry (env.fails cache_entitlement user_id) _ _ ahead)) h

-- The verdict entitles up to a time that is `t` in whole seconds, and the digest of the purchase
-- token is recorded with it.
abbrev Pays : Env → Primitives → World → EntitlementRequest → Verdict → ℕ → World → Type 0
Pays env p w req verdict t w' =
    (expiry : ℕ) × (verdict ≡ entitled expiry)
    × (unix expiry ≡ t)
    × Recorded env w req.user_id (sha256_hex p (bytes req.purchase_token)) expiry w'

verdict-Pays :
    (env : Env) (p : Primitives) (w : World) (req : EntitlementRequest) (verdict : Verdict) (t : ℕ)
    → ((expiry : ℕ) → verdict ≡ entitled expiry → env.now < expiry)
    → (grant_verified env p w req verdict).0 ≡ success t
    → Pays env p w req verdict t (grant_verified env p w req verdict).1
unfolding grant_verified
verdict-Pays env p w req (entitled expiry) t ahead h =
    let made = grant-Recorded env w req.user_id _ expiry t (ahead expiry refl) h in
    (expiry, refl, made.0, made.1)
verdict-Pays env p w req not_entitled t ahead h = cc
verdict-Pays env p w req (failed text) t ahead h = cc

entitle-Pays :
    (env : Env) (p : Primitives) (google : Google) (v : PlayVerifier) (w : World)
    (req : EntitlementRequest) (t : ℕ)
    → v.enabled ≡ true
    → (entitle env p google v w req).0 ≡ success t
    → Pays env p w req
        (verify google env.now v req.purchase_token).0
        t
        (entitle env p google v w req).1
unfolding entitle
entitle-Pays env p google v w req t on h =
    let verdict = (verify google env.now v req.purchase_token).0 in
    let P : EntitlementReply × World → Type 0 =
      λ r. r.0 ≡ success t → Pays env p w req verdict t r.1 in
    if_case P (req.purchase_token == "" && req.subscription_hash == "") (λ e. cc)
      (if_split P v.enabled
        (λ _.
          if_case P (req.purchase_token == "") (λ e. cc)
            (verdict-Pays env p w req verdict t (verify-ahead google env.now v req.purchase_token)))
        (λ off e. absurd (ground (arith, on, off))))
      h

-- At a relay that verifies purchases, a request is acknowledged only if its claim is fresh and
-- signed by the key of its user, and Google answered for its purchase token with a state that
-- grants and with an expiry, the latest of its items and ahead. The reply is that expiry in whole
-- seconds; what is stored, and cached unless the cache fails, is the digest of the purchase token
-- with that expiry, whatever hash the client sends along; and nothing else changes.
pub google_entitles :
    (env : Env) (p : Primitives) (google : Google) (v : PlayVerifier) (w : World)
    (method ip : String) (req : EntitlementRequest) (t : ℕ)
    → v.enabled ≡ true
    → (handle_post_entitlement env p google v w method ip (some req)).0 ≡ success t
    → Accepted env p 30 (entitlement_claim req)
      × ((access_token : String) × (expiry : ℕ) × Answered env.now
            (google.get_subscription v.package_name req.purchase_token access_token)
            expiry
          × (unix expiry ≡ t)
          × Recorded env w req.user_id
              (sha256_hex p (bytes req.purchase_token))
              expiry
              (handle_post_entitlement env p google v w method ip (some req)).1)
unfolding handle_post_entitlement
google_entitles env p google v w method ip req t on h =
    let P : EntitlementReply × World → Type 0 = λ r.
      r.0 ≡ success t
      → Accepted env p 30 (entitlement_claim req)
        × Pays env p w req (verify google env.now v req.purchase_token).0 t r.1 in
    let (accepted, (expiry, verdict, seconds, recorded)) =
      if_case P (not (method == "POST")) (λ e. cc)
        (if_case P (not env.has_pg) (λ e. cc)
          (if_case P (lacks_fields (entitlement_claim req)) (λ e. cc)
            (option_split P
              (check_claim env p w ip 30 "Invalid pubkey hex format" "identity public key mismatch"
                "invalid authentication signature" (entitlement_claim req))
              (λ fine e. (
                check_claim-none env p w ip 30 "Invalid pubkey hex format"
                    "identity public key mismatch" "invalid authentication signature"
                    (entitlement_claim req) fine,
                entitle-Pays env p google v w req t on e,
              ))
              (λ refusal _ e. cc))))
        h in
    let (access_token, answer) =
      verify-entitled google env.now v req.purchase_token expiry verdict in
    (accepted, (access_token, expiry, answer, seconds, recorded))

-- The tables, the cache of entitlements, and what was sent.
abbrev pub Keeps : World → World → Type 0
Keeps w w' =
    (w'.db ≡ w.db)
    × (w'.redis.memory_entitlements ≡ w.redis.memory_entitlements)
    × (w'.redis.memory_blocks ≡ w.redis.memory_blocks)
    × (w'.sent ≡ w.sent)

Refuses : World → EntitlementReply × World → Type 0
Refuses w r = (reply : Reply) → r.0 ≡ refused reply → Keeps w r.1

still : (w : World) (r : EntitlementReply) → Refuses w (r, w)
unfolding Refuses
still w r x e = (refl, refl, refl, refl)

grant-Refuses :
    (env : Env) (w : World) (user_id hash : String) (expiry : ℕ)
    → Refuses w (grant env w user_id hash expiry)
unfolding grant Refuses
grant-Refuses env w user_id hash expiry =
    if_case (Refuses w) (env.fails store_entitlement user_id) (still w _) (λ x e. cc)

verified-Refuses :
    (env : Env) (p : Primitives) (w : World) (req : EntitlementRequest) (verdict : Verdict)
    → Refuses w (grant_verified env p w req verdict)
unfolding grant_verified
verified-Refuses env p w req (entitled expiry) = grant-Refuses env w req.user_id _ expiry
verified-Refuses env p w req not_entitled = still w _
verified-Refuses env p w req (failed text) = still w _

entitle-Refuses :
    (env : Env) (p : Primitives) (google : Google) (v : PlayVerifier) (w : World)
    (req : EntitlementRequest)
    → Refuses w (entitle env p google v w req)
unfolding entitle
entitle-Refuses env p google v w req =
    if_case (Refuses w) (req.purchase_token == "" && req.subscription_hash == "") (still w _) (
      if_case (Refuses w) v.enabled
        (if_case (Refuses w) (req.purchase_token == "") (still w _)
          (verified-Refuses env p w req _))
        (grant-Refuses env w req.user_id _ _))

failure-Keeps :
    (env : Env) (w : World) (ip reason : String)
    → Keeps w (handle_validation_failure env w ip reason).1
unfolding handle_validation_failure register_ip_failure ban_for Limits.increment_ip_failure
    Limits.ban_ip
failure-Keeps env w ip reason = ground arith

carry : (w : World) (x r : Reply × World) → Keeps w x.1 → some x ≡ some r → Keeps w r.1
carry w x r kept e = let same : x ≡ r = cc in subst (λ (y : Reply × World). Keeps w y.1) same kept

claim-Keeps :
    (env : Env) (p : Primitives) (w : World) (ip : String) (max_drift : ℕ)
    (bad_hex bad_id bad_sig : String) (c : Claim) (r : Reply × World)
    → check_claim env p w ip max_drift bad_hex bad_id bad_sig c ≡ some r
    → Keeps w r.1
unfolding check_claim
claim-Keeps env p w ip max_drift bad_hex bad_id bad_sig c r h =
    let P : Option (Reply × World) → Type 0 = λ o. o ≡ some r → Keeps w r.1 in
    if_case P (ltb max_drift (drift (unix env.now) c.timestamp))
      (carry w (handle_validation_failure env w ip "timestamp drift too high") r
        (failure-Keeps env w ip "timestamp drift too high"))
      (option_case P (hex_decode c.pubkey)
        (carry w (reply 400 bad_hex, w) r (refl, refl, refl, refl))
        (λ key.
          if_case P (not (generate_user_id p key == c.id))
            (carry w (handle_validation_failure env w ip bad_id) r (failure-Keeps env w ip bad_id))
            (if_case P (verified (verify_signature p c.pubkey c.sig (bytes c.signed)))
              (λ (e : ◌≡◌ {A = Option (Reply × World)} none (some r)). cc)
              (carry w (handle_validation_failure env w ip bad_sig) r
                (failure-Keeps env w ip bad_sig)))))
      h

-- A request that is refused, for whatever reason, entitles nobody: the tables, the cache of
-- entitlements and its expiries stay as they are, and nothing is sent.
pub refused-Keeps :
    (env : Env) (p : Primitives) (google : Google) (v : PlayVerifier) (w : World)
    (method ip : String) (body : Option EntitlementRequest) (r : Reply)
    → (handle_post_entitlement env p google v w method ip body).0 ≡ refused r
    → Keeps w (handle_post_entitlement env p google v w method ip body).1
unfolding handle_post_entitlement
refused-Keeps env p google v w method ip body r h =
    unfold Refuses in
    if_case (Refuses w) (not (method == "POST")) (still w _)
      (if_case (Refuses w) (not env.has_pg) (still w _) (
        option_case (Refuses w) body (still w _) (λ req.
          if_case (Refuses w) (lacks_fields (entitlement_claim req)) (still w _) (
            option_split (Refuses w)
              (check_claim env p w ip 30 "Invalid pubkey hex format" "identity public key mismatch"
                "invalid authentication signature" (entitlement_claim req))
              (λ _. entitle-Refuses env p google v w req)
              (λ refusal e x k.
                claim-Keeps env p w ip 30 "Invalid pubkey hex format" "identity public key mismatch"
                  "invalid authentication signature" (entitlement_claim req) refusal e)))))
      r h
