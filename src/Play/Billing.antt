-- ===== src/Play/Billing.antt =====
-- PlayVerifier.Verify of wiltkey_server/play_billing.go.
pub mod Verdicts
use wilt_key.Prelude.{
  ℕ, String, Bool, true, not, ◌||◌, Option, none, some, List, [], ◌∷◌, ◌==◌, ltb, leb, eqb,
  if◌then◌else◌,
}
use wilt_key.Prelude.Text.{concat}
use wilt_key.Crypto.{Result, ok, err, decimal}
use wilt_key.Play.{Answer, unreachable, answered, Subscription, Google, TokenSource, get}

pub record PlayVerifier : Type 0 where
  pub enabled : Bool
  pub package_name : String
  pub tokens : TokenSource

-- The expiry, errPlayNotEntitled, or another error.
pub data Verdict : Type 0 where
  entitled : ℕ → Verdict
  not_entitled : Verdict
  failed : String → Verdict

unfoldable pub grants : String → Bool
grants state =
    state == "SUBSCRIPTION_STATE_ACTIVE"
    || (state == "SUBSCRIPTION_STATE_IN_GRACE_PERIOD" || state == "SUBSCRIPTION_STATE_CANCELED")

-- t.After(latest), where `none` is the zero time.
abbrev pub after : ℕ → Option ℕ → Bool
after t none = true
after t (some latest) = ltb latest t

unfoldable pub latest_expiry : Option ℕ → List (Option ℕ) → Option ℕ
latest_expiry latest [] = latest
latest_expiry latest (none ∷ items) = latest_expiry latest items
latest_expiry latest (some t ∷ items) =
    latest_expiry (if after t latest then some t else latest) items

unfoldable pub judge : ℕ → Subscription → Verdict
unfolding grants latest_expiry
judge now sub =
    if not (grants sub.subscription_state)
    then not_entitled
    else elim (latest_expiry none sub.line_items) [
      | none ↦ not_entitled
      | some latest ↦ if leb latest now then not_entitled else entitled latest
    ]

unfoldable pub verdict_of : ℕ → Answer Subscription → Verdict
unfolding judge
verdict_of now (unreachable e) = failed (concat "play api request: " e)
verdict_of now (answered status body e decoded) =
    if eqb status 404 || eqb status 410
    then not_entitled
    else if not (eqb status 200)
    then failed (concat "play api status " (concat (decimal status) (concat ": " body)))
    else elim decoded [ none ↦ failed "decode play response" | some sub ↦ judge now sub ]

abbrev pub ask : Google → ℕ → PlayVerifier → String → Result String → Verdict
ask google now v purchase_token (err e) = failed (concat "play access token: " e)
ask google now v purchase_token (ok access_token) =
    verdict_of now (google.get_subscription v.package_name purchase_token access_token)

-- The verdict, and the verifier with what its token source caches.
unfoldable pub verify : Google → ℕ → PlayVerifier → String → Verdict × PlayVerifier
unfolding get verdict_of
verify google now v purchase_token =
    if not v.enabled then (failed "play verification not configured", v) else (
      ask google now v purchase_token (get google now v.tokens).0,
      record v { tokens = (get google now v.tokens).1 },
    )
