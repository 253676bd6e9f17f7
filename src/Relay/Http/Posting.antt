-- ===== src/Relay/Http/Posting.antt =====
-- What the spam protection of handlePostQueue in wiltkey_server/main.go refuses, and what of a
-- voucher counts behind a proof of work.
use wilt_key.Prelude.{
  ℕ, ◌*◌, ◌≡◌, ◌∙◌, refl, ap, String, Bool, true, false, not, ◌||◌, Option, some, ◌==◌, eqb, leb,
  ltb, arith, if_case, option_case, option_split,
}
use wilt_key.Prelude.Text.{concat}
use wilt_key.Prelude.GoMap.{lookup}
use wilt_key.Time.{minute, second}
use wilt_key.Redis.{RedisClient}
use wilt_key.Redis.Limits
use wilt_key.Redis.Once
use wilt_key.Crypto.{Primitives, Voucher, Result, ok, err, decimal, verify_pow, verify_voucher}
use wilt_key.Relay.{Env, World, Op}
use wilt_key.Relay.Http.{Reply, ban_for, register_ip_failure, handle_validation_failure}
use wilt_key.Relay.Http.Protection.{
  PostMessageRequest, punish, check_found_pow, check_pow, use_valid_voucher, use_voucher_if,
  check_voucher, check_spam_protection,
}
use wilt_key.Relay.Http.Queue.{handle_post_queue}

-- `r` with the challenges, nonces, bans and failures of `r'`.
abbrev pub with_marks : RedisClient → RedisClient → RedisClient
with_marks r r' = record r {
  memory_pow = r'.memory_pow;
  memory_nonces = r'.memory_nonces;
  memory_bans = r'.memory_bans;
  memory_fails = r'.memory_fails;
}

-- No more than the marks of the spam protection differs.
abbrev pub Quiet : World → World → Type 0
Quiet w w' = w' ≡ record w { redis = with_marks w.redis w'.redis }

Quiet-then : (w w' w'' : World) → Quiet w w' → Quiet w' w'' → Quiet w w''
Quiet-then w w' w'' e e' =
    e' ∙ ap (λ (x : World). record x { redis = with_marks x.redis w''.redis }) e

ban-Quiet :
    (env : Env) (w : World) (ip : String) (duration : ℕ) → Quiet w (ban_for env w ip duration)
unfolding ban_for Limits.ban_ip
ban-Quiet env w ip duration = if_case (Quiet w) (env.fails Op.set_ban ip) refl refl

counted-Quiet :
    (env : Env) (w : World) (ip : String)
    → Quiet w (record w { redis = (Limits.increment_ip_failure w.redis env.now ip).1 })
unfolding Limits.increment_ip_failure
counted-Quiet env w ip =
    let P : ℕ × RedisClient → Type 0 = λ r. Quiet w (record w { redis = r.1 }) in
    option_case P (lookup w.redis.memory_fails ip) refl
      (λ val. if_case P (ltb val.expires env.now) refl refl)

failure-Quiet :
    (env : Env) (w : World) (ip reason : String)
    → Quiet w (handle_validation_failure env w ip reason).1
unfolding handle_validation_failure register_ip_failure
failure-Quiet env w ip reason =
    let (fails, redis') = Limits.increment_ip_failure w.redis env.now ip in
    let w' = record w { redis = redis' } in
    let counted = counted-Quiet env w ip in
    if_case (Quiet w) (env.fails Op.count_failure ip) refl (
      if_case (Quiet w) (eqb fails 1) (Quiet-then w w' _ counted (ban-Quiet env w' ip (5 * minute)))
        (if_case (Quiet w) (leb 2 fails)
          (Quiet-then w w' _ counted (ban-Quiet env w' ip (30 * minute))) counted))

-- A refusal by `punish` behind a step that leaves only marks.
punished-Quiet :
    (env : Env) (w w' : World) (ip reason : String)
    → Quiet w w'
    → Quiet w (punish env w' ip reason).1
unfolding punish
punished-Quiet env w w' ip reason e = Quiet-then w w' _ e (failure-Quiet env w' ip reason)

nonce-Quiet :
    (env : Env) (w : World) (n : String)
    → Quiet w (record w { redis = (Once.is_nonce_unique w.redis env.now n).1 })
unfolding Once.is_nonce_unique
nonce-Quiet env w n =
    let P : Bool × RedisClient → Type 0 = λ r. Quiet w (record w { redis = r.1 }) in
    option_case P (lookup w.redis.memory_nonces n) refl
      (λ expiry. if_case P (ltb env.now expiry) refl refl)

taken-Quiet :
    (env : Env) (w : World) (challenge : String)
    → Quiet w (record w { redis = (Once.get_pow_challenge_difficulty w.redis env.now challenge).1 })
unfolding Once.get_pow_challenge_difficulty
taken-Quiet env w challenge =
    let P : Option ℕ × RedisClient → Type 0 = λ r. Quiet w (record w { redis = r.1 }) in
    option_case P (lookup w.redis.memory_pow challenge) refl
      (λ val. if_case P (ltb val.expires env.now) refl refl)

spent-Quiet :
    (env : Env) (w : World) (sig : String) (expiry : ℕ)
    → Quiet w (record w { redis = (Once.consume_voucher w.redis env.now sig expiry).1 })
unfolding Once.consume_voucher
spent-Quiet env w sig expiry =
    let P : Bool × RedisClient → Type 0 = λ r. Quiet w (record w { redis = r.1 }) in
    if_case P (leb (expiry * second) env.now) refl (
      option_case P (lookup w.redis.memory_nonces (concat "voucher:" sig)) refl
        (λ exp. if_case P (ltb env.now exp) refl refl))

found_pow-Quiet :
    (env : Env) (p : Primitives) (w : World) (ip : String) (req : PostMessageRequest)
    (difficulty : ℕ)
    → Quiet w (check_found_pow env p w ip req difficulty).1
unfolding check_found_pow
found_pow-Quiet env p w ip req difficulty =
    let P : Option Reply × World → Type 0 = λ r. Quiet w r.1 in
    let used = nonce-Quiet env w (decimal req.nonce) in
    if_case P (env.fails Op.nonce_unique (decimal req.nonce))
      (punished-Quiet env w w ip "replay attack detected (used nonce)" refl)
      (if_case P (not (Once.is_nonce_unique w.redis env.now (decimal req.nonce)).0)
        (punished-Quiet env w _ ip "replay attack detected (used nonce)" used)
        (if_case P (verify_pow p req.challenge req.nonce req.envelope difficulty) used
          (punished-Quiet env w _ ip "incorrect proof of work" used)))

pow-Quiet :
    (env : Env) (p : Primitives) (w : World) (ip : String) (req : PostMessageRequest)
    → Quiet w (check_pow env p w ip req).1
unfolding check_pow
pow-Quiet env p w ip req =
    let P : Option Reply × World → Type 0 = λ r. Quiet w r.1 in
    let taken = taken-Quiet env w req.challenge in
    if_case P (req.challenge == "" || eqb req.nonce 0)
      (punished-Quiet env w w ip "missing pow fields" refl)
      (if_case P (env.fails Op.get_challenge req.challenge)
        (punished-Quiet env w w ip "invalid/expired challenge" refl)
        (option_case P (Once.get_pow_challenge_difficulty w.redis env.now req.challenge).0
          (punished-Quiet env w _ ip "invalid/expired challenge" taken)
          (λ difficulty. Quiet-then w _ _ taken (found_pow-Quiet env p _ ip req difficulty))))

valid_voucher-Quiet :
    (env : Env) (w : World) (ip : String) (v : Voucher) → Quiet w (use_valid_voucher env w ip v).1
unfolding use_valid_voucher
valid_voucher-Quiet env w ip v =
    let P : Option Reply × World → Type 0 = λ r. Quiet w r.1 in
    let spent = spent-Quiet env w v.signature v.expiry in
    if_case P (env.fails Op.use_voucher v.signature) refl (
      if_case P (Once.consume_voucher w.redis env.now v.signature v.expiry).0 spent
        (punished-Quiet env w _ ip "voucher already used or expired" spent))

verdict-Quiet :
    (env : Env) (w : World) (ip : String) (v : Voucher) (r : Result Bool)
    → Quiet w (use_voucher_if env w ip v r).1
unfolding use_voucher_if
verdict-Quiet env w ip v (err e) = punished-Quiet env w w ip e refl
verdict-Quiet env w ip v (ok false) = punished-Quiet env w w ip "invalid voucher" refl
verdict-Quiet env w ip v (ok true) = valid_voucher-Quiet env w ip v

voucher-Quiet :
    (env : Env) (p : Primitives) (w : World) (ip : String) (req : PostMessageRequest)
    → Quiet w (check_voucher env p w ip req).1
unfolding check_voucher
voucher-Quiet env p w ip req =
    let P : Option Reply × World → Type 0 = λ r. Quiet w r.1 in
    option_case P req.voucher (punished-Quiet env w w ip "missing voucher structure" refl)
      (λ v. verdict-Quiet env w ip v (verify_voucher p env.now req.recipient_id v))

protection-Quiet :
    (env : Env) (p : Primitives) (w : World) (ip protection : String) (req : PostMessageRequest)
    → Quiet w (check_spam_protection env p w ip protection req).1
unfolding check_spam_protection
protection-Quiet env p w ip protection req =
    let P : Option Reply × World → Type 0 = λ r. Quiet w r.1 in
    if_case P (protection == "" || protection == "pow") (pow-Quiet env p w ip req)
      (if_case P (protection == "voucher") (voucher-Quiet env p w ip req) refl)

-- A post that the spam protection refuses stores, queues, sends and wakes nothing: all that may
-- change are the marks of the protection itself, which are the open challenges, the nonces that are
-- used up, the bans and the failures.
pub post_refused :
    (env : Env) (p : Primitives) (w : World) (method ip protection : String)
    (req : PostMessageRequest)
    → (r : Reply) → (check_spam_protection env p w ip protection req).0 ≡ some r
    → let w' = (handle_post_queue env p w method ip protection (some req)).1 in
      w' ≡ record w { redis = with_marks w.redis w'.redis }
unfolding handle_post_queue
post_refused env p w method ip protection req r h =
    let P : Reply × World → Type 0 = λ x. Quiet w x.1 in
    let marked = protection-Quiet env p w ip protection req in
    if_case P (not (method == "POST")) refl (
      if_case P (req.recipient_id == "" || req.envelope == "") refl (
        option_split P (check_spam_protection env p w ip protection req).0
          (λ paid. ground (arith, h, paid)) (λ refusal _. marked)))

-- The voucher with another key, signature and expiry.
abbrev pub reforged : Voucher → String → String → ℕ → Voucher
reforged v key sig expiry = record v {
  recipient_public_key = key;
  signature = sig;
  expiry = expiry;
}
