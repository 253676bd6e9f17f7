-- ===== src/Relay/Http/Entitlement/Lapse.antt =====
-- Who is entitled by handlePostEntitlement of wiltkey_server/main.go, and until when.
use wilt_key.Prelude.{
  ℕ, ◌+◌, ◌-◌, ◌*◌, ◌≡◌, ◌<◌, ◌∙◌, inl, inr, refl, ap, sym, not, ◌&&◌, String, true, false, none,
  some, ◌==◌, arith, ltb, leb, if◌then◌else◌, if_case, if_split, option_case, Bool-cases,
}
use wilt_key.Prelude.Text.{concat}
use wilt_key.Prelude.GoMap.{lookup-insert_self}
use wilt_key.Time.{day, unix}
use wilt_key.Redis.{RedisClient}
use wilt_key.Redis.Tokens
use wilt_key.Db.Entitlements
use wilt_key.Db.Entitlements.Rows.{get-store_entitlement}
use wilt_key.Crypto.{Primitives, bytes, sha256_hex}
use wilt_key.Play.{Google}
use wilt_key.Play.Billing.{PlayVerifier, Verdict, entitled, not_entitled, failed, verify}
use wilt_key.Play.Billing.Verdicts.{verify-ahead}
use wilt_key.Relay.{Env, World, cache_entitlement, get_entitlement, store_entitlement}
use wilt_key.Relay.Premium.{holds, check_premium_subscription, entitled_by_row}
use wilt_key.Relay.Http.{lacks_fields, check_claim}
use wilt_key.Relay.Http.Entitlement.{
  EntitlementRequest, EntitlementReply, success, entitlement_claim, grant, grant_verified, entitle,
  handle_post_entitlement,
}

-- The cached hash is found until the entitlement expires, and not after.
get-store_entitlement_hash :
    (r : RedisClient) (now later : ℕ) (user_id hash : String) (t : ℕ)
    → now < t
    → Tokens.get_entitlement_hash
        (Tokens.store_entitlement r now user_id hash (t - now))
        later
        user_id
      ≡ (if leb later t then hash else "")
unfolding Tokens.get_entitlement_hash Tokens.store_entitlement
get-store_entitlement_hash r now later user_id hash t ahead = ground (
  arith,
  lookup-insert_self r.memory_entitlements user_id hash,
  lookup-insert_self r.memory_blocks (concat "entitlement:" user_id) (now + (t - now)),
)

premium_by_hash :
    (env : Env) (w : World) (user_id hash : String) (t : ℕ)
    → env.has_pg ≡ true
    → env.fails get_entitlement user_id ≡ false
    → (hash == "") ≡ false
    → Tokens.get_entitlement_hash w.redis env.now user_id ≡ (if leb env.now t then hash else "")
    → Entitlements.get_entitlement w.db env.now user_id ≡ (
        if ltb env.now t
        then some (record { user_id = user_id; verification_key_hash = hash; expires_at = t })
        else none)
    → holds (check_premium_subscription env w user_id).0 ≡ leb env.now t
unfolding check_premium_subscription entitled_by_row
premium_by_hash env w user_id hash t pg works full cached row = elim (Bool-cases (leb env.now t)) [
  | inl ahead ↦ rw (cached, ahead, full) refl
  | inr over ↦
      let lapsed : ltb env.now t ≡ false = ground arith in
      rw (cached, over, pg, works, row, lapsed) refl
]

abbrev Succeeds : Type 0 → EntitlementReply × World → Type 0
Succeeds T r = (t : ℕ) → r.0 ≡ success t → T

grant-lapses :
    (env later : Env) (w : World) (user_id hash : String) (expiry t : ℕ)
    → env.now < expiry
    → env.fails cache_entitlement user_id ≡ false
    → later.has_pg ≡ true
    → later.fails get_entitlement user_id ≡ false
    → (hash == "") ≡ false
    → (grant env w user_id hash expiry).0 ≡ success t
    → (t ≡ unix expiry)
      × (holds (check_premium_subscription later (grant env w user_id hash expiry).1 user_id).0
          ≡ leb later.now expiry)
unfolding grant
grant-lapses env later w user_id hash expiry t ahead caches pg works full h =
    let P : EntitlementReply × World → Type 0 = λ r.
      r.0 ≡ success t
      → (t ≡ unix expiry)
        × (holds (check_premium_subscription later r.1 user_id).0 ≡ leb later.now expiry) in
    let w' = record w { db = Entitlements.store_entitlement w.db user_id hash expiry } in
    let w'' = record w' {
      redis = Tokens.store_entitlement w.redis env.now user_id hash (expiry - env.now);
    } in
    let lasts : holds (check_premium_subscription later w'' user_id).0 ≡ leb later.now expiry =
      premium_by_hash later w'' user_id hash expiry pg works full
        (get-store_entitlement_hash w.redis env.now later.now user_id hash expiry ahead)
        (get-store_entitlement w.db later.now user_id hash expiry) in
    if_case P (env.fails store_entitlement user_id) (λ e. cc)
      (λ e. (
        cc,
        if_split
            (λ (x : World).
              holds (check_premium_subscription later x user_id).0 ≡ leb later.now expiry)
            (ltb env.now expiry && not (env.fails cache_entitlement user_id)) (λ _. lasts)
            (λ off. absurd (ground (arith, off, caches))),
      ))
      h

-- When the entitlement of a request expires: Google's expiry where the relay asks, and thirty days
-- ahead else. A verdict that entitles nobody has none.
abbrev pub expiry_in : Verdict → ℕ
expiry_in (entitled expiry) = expiry
expiry_in not_entitled = 0
expiry_in (failed text) = 0

unfoldable pub granted_until : Env → Google → PlayVerifier → EntitlementRequest → ℕ
granted_until env google v req =
    if v.enabled
    then expiry_in (verify google env.now v req.purchase_token).0
    else env.now + 30 * day

-- Behind the checks of a request that succeeds: the grant, with a hash that is not empty and its
-- expiry, which is ahead.
Granted :
    Env
    → Primitives
    → Google
    → PlayVerifier
    → World
    → EntitlementRequest
    → EntitlementReply × World
    → Type 0
Granted env p google v w req r =
    (hash : String) × (r ≡ grant env w req.user_id hash (granted_until env google v req))
    × ((hash == "") ≡ false)
    × (env.now < granted_until env google v req)

Grants :
    Env
    → Primitives
    → Google
    → PlayVerifier
    → World
    → EntitlementRequest
    → EntitlementReply × World
    → Type 0
Grants env p google v w req r = (t : ℕ) → r.0 ≡ success t → Granted env p google v w req r

thirty_days : (now : ℕ) → now < now + 30 * day
thirty_days now = omega arith

module _ (env : Env) (p : Primitives) (google : Google) (v : PlayVerifier) (w : World)
    (req : EntitlementRequest)
    (full : (sha256_hex p (bytes req.purchase_token) == "") ≡ false) where
  verified-Grants :
      (verdict : Verdict)
      → v.enabled ≡ true
      → (verify google env.now v req.purchase_token).0 ≡ verdict
      → Grants env p google v w req (grant_verified env p w req verdict)
  unfolding grant_verified Grants Granted granted_until
  verified-Grants (entitled expiry) on e t h =
      let until : granted_until env google v req ≡ expiry = ground (arith, on, ap expiry_in e) in
      (
        sha256_hex p (bytes req.purchase_token),
        ap (grant env w req.user_id (sha256_hex p (bytes req.purchase_token))) (sym until),
        full,
        rw until (verify-ahead google env.now v req.purchase_token expiry e),
      )
  verified-Grants not_entitled on e t h = cc
  verified-Grants (failed text) on e t h = cc

  entitle-Grants : Grants env p google v w req (entitle env p google v w req)
  unfolding entitle Grants Granted granted_until
  entitle-Grants =
      let P : EntitlementReply × World → Type 0 = Grants env p google v w req in
      let digest = sha256_hex p (bytes req.purchase_token) in
      let hash = if not (req.subscription_hash == "") then req.subscription_hash else digest in
      let named : (hash == "") ≡ false =
        if_split (λ (s : String). (s == "") ≡ false) (not (req.subscription_hash == ""))
          (λ given. ground arith) (λ _. full) in
      if_case P (req.purchase_token == "" && req.subscription_hash == "") (λ t e. cc)
        (if_split P v.enabled
          (λ on. if_case P (req.purchase_token == "") (λ t e. cc) (verified-Grants _ on refl))
          (λ off t e.
            let until : granted_until env google v req ≡ env.now + 30 * day = ground (arith, off) in
            (
              hash,
              ap (grant env w req.user_id hash) (sym until),
              named,
              rw until (thirty_days env.now),
            )))

  handle-Grants :
      (method ip : String)
      → Grants env p google v w req (handle_post_entitlement env p google v w method ip (some req))
  unfolding handle_post_entitlement Grants
  handle-Grants method ip =
      let P : EntitlementReply × World → Type 0 = Grants env p google v w req in
      if_case P (not (method == "POST")) (λ t e. cc)
        (if_case P (not env.has_pg) (λ t e. cc)
          (if_case P (lacks_fields (entitlement_claim req)) (λ t e. cc)
            (option_case P
              (check_claim env p w ip 30 "Invalid pubkey hex format" "identity public key mismatch"
                "invalid authentication signature" (entitlement_claim req))
              entitle-Grants (λ refusal t e. cc))))

-- A user whose entitlement the relay acknowledged is premium from then on up to its expiry, which
-- is Google's where the relay asks and thirty days ahead else, and no longer: neither the row nor
-- its cached copy outlives it. The reply is that expiry in whole seconds. The tables can be read, the
-- cache was written, and the digest of the token is not empty.
pub premium_lapses :
    (env later : Env) (p : Primitives) (google : Google) (v : PlayVerifier) (w : World)
    (method ip : String) (req : EntitlementRequest) (t : ℕ)
    → (sha256_hex p (bytes req.purchase_token) == "") ≡ false
    → env.fails cache_entitlement req.user_id ≡ false
    → later.has_pg ≡ true
    → later.fails get_entitlement req.user_id ≡ false
    → (handle_post_entitlement env p google v w method ip (some req)).0 ≡ success t
    → (t ≡ unix (granted_until env google v req))
      × (holds
            (check_premium_subscription later
              (handle_post_entitlement env p google v w method ip (some req)).1
              req.user_id).0
          ≡ leb later.now (granted_until env google v req))
unfolding Grants Granted
premium_lapses env later p google v w method ip req t full caches pg works h =
    let (hash, made, named, ahead) = handle-Grants env p google v w req full method ip t h in
    let (seconds, lapses) =
      grant-lapses env later w req.user_id hash (granted_until env google v req) t ahead caches pg
        works named (ap (λ r. r.0) (sym made) ∙ h) in
    (
      seconds,
      ap
            (λ (r : EntitlementReply × World).
              holds (check_premium_subscription later r.1 req.user_id).0)
            made
          ∙ lapses,
    )
