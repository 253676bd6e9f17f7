-- ===== src/Relay/Premium.antt =====
-- checkPremiumSubscription and holdTTLForRecipient of wiltkey_server/main.go, and the gates that a
-- sender's payload passes in wiltkey_server/handlers.go.
use wilt_key.Prelude.{
  ℕ, ◌-◌, String, Bool, true, false, not, ◌&&◌, Option, none, some, ◌==◌, ltb, leb, if◌then◌else◌,
}
use wilt_key.Crypto.{Result, ok, err}
use wilt_key.Redis.Tokens
use wilt_key.Redis.Blocks
use wilt_key.Db.{PgEntitlement}
use wilt_key.Db.Entitlements
use wilt_key.Relay.{
  Env, World, get_entitlement, allow_upload, Client, free_max_payload, plus_max_payload,
  large_payload_threshold, large_upload_cooldown, free_hold_ttl, plus_hold_ttl,
}

-- What the row says; the answer is cached for the time that is left.
unfoldable pub entitled_by_row : Env → World → String → Option PgEntitlement → Result Bool × World
entitled_by_row env w user_id none = (ok false, w)
entitled_by_row env w user_id (some ent) =
    if ent.verification_key_hash == "" then (ok false, w) else (
      ok true,
      (if ltb env.now ent.expires_at
          then record w {
            redis =
                Tokens.store_entitlement w.redis env.now user_id ent.verification_key_hash
                  (ent.expires_at - env.now);
          }
          else w),
    )

unfoldable pub check_premium_subscription : Env → World → String → Result Bool × World
unfolding entitled_by_row
check_premium_subscription env w user_id =
    if not (Tokens.get_entitlement_hash w.redis env.now user_id == "")
    then (ok true, w)
    else if env.has_pg
    then (if env.fails get_entitlement user_id
        then (err "database error", w)
        else entitled_by_row env w user_id (Entitlements.get_entitlement w.db env.now user_id))
    else (ok false, w)

-- err == nil && hasSub
abbrev pub holds : Result Bool → Bool
holds (ok b) = b
holds (err e) = false

unfoldable pub hold_ttl_for_recipient : Env → World → String → ℕ × World
unfolding check_premium_subscription
hold_ttl_for_recipient env w recipient_id =
    let (has_sub, w') = check_premium_subscription env w recipient_id in
    (if holds has_sub then plus_hold_ttl else free_hold_ttl, w')

-- The gates return the text of the error that refuses, if any.
unfoldable pub premium_gate : Env → World → Client → ℕ → Option String × World
unfolding check_premium_subscription
premium_gate env w c size =
    if leb free_max_payload size
    then (let (has_sub, w') = check_premium_subscription env w c.id in
        (
          if holds has_sub
              then none
              else some "Payload >= 5MB requires an active premium subscription",
          w',
        ))
    else (none, w)

-- A failed check of the cooldown allows.
unfoldable pub cooldown_gate : Env → World → Client → ℕ → Option String × World
cooldown_gate env w c size =
    if leb large_payload_threshold size && not (env.fails allow_upload c.id)
    then (let (allowed, redis') =
          Blocks.allow_large_upload w.redis env.now c.id large_upload_cooldown in
        (
          if allowed
              then none
              else some "Sending large files too quickly — please wait a few seconds and try again",
          record w { redis = redis' },
        ))
    else (none, w)

unfoldable pub sender_gates : Env → World → Client → ℕ → Option String × World
unfolding premium_gate cooldown_gate
sender_gates env w c size =
    if ltb plus_max_payload size
    then (some "Payload exceeds the 50MB maximum", w)
    else (let (refusal, w') = premium_gate env w c size in
        elim refusal [ some e ↦ (some e, w') | none ↦ cooldown_gate env w' c size ])
