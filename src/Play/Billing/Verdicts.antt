-- ===== src/Play/Billing/Verdicts.antt =====
-- What a verdict of wiltkey_server/play_billing.go rests on.
use wilt_key.Prelude.{
  ℕ, ◌≡◌, ◌≤◌, ◌<◌, inl, inr, String, Bool, true, false, not, ◌||◌, Option, none, some, List, [],
  ◌∷◌, arith, ltb, leb, eqb, All, ap, if_case, if_split, option_split, Bool-cases,
}
use wilt_key.Crypto.{Result, ok, err}
use wilt_key.Play.{Answer, unreachable, answered, Subscription, Google, get}
use wilt_key.Play.Billing.{
  PlayVerifier, Verdict, entitled, grants, latest_expiry, judge, verdict_of, ask, verify,
}

-- No later than t.
abbrev pub NotAfter : ℕ → Option ℕ → Type 0
NotAfter t none = Unit
NotAfter t (some x) = x ≤ t

abbrev pub is_at : ℕ → Option ℕ → Bool
is_at t none = false
is_at t (some x) = eqb x t

abbrev pub listed : ℕ → List (Option ℕ) → Bool
listed t [] = false
listed t (o ∷ items) = is_at t o || listed t items

latest_expiry-greatest :
    (latest : Option ℕ) (items : List (Option ℕ)) (t : ℕ)
    → latest_expiry latest items ≡ some t
    → NotAfter t latest × All (NotAfter t) items × ((is_at t latest || listed t items) ≡ true)
unfolding latest_expiry
latest_expiry-greatest none [] t e = cc
latest_expiry-greatest (some x) [] t e = ground arith
latest_expiry-greatest latest (none ∷ items) t e =
    let (low, all, found) = latest_expiry-greatest latest items t e in (low, (tt, all), found)
latest_expiry-greatest none (some y ∷ items) t e =
    ground (arith, latest_expiry-greatest (some y) items t e)
latest_expiry-greatest (some x) (some y ∷ items) t e = elim (Bool-cases (ltb x y)) [
  | inl newer ↦
      let ih = latest_expiry-greatest (some y) items t (ground arith) in ground (arith, ih)
  | inr older ↦
      let ih = latest_expiry-greatest (some x) items t (ground arith) in ground (arith, ih)
]

-- What a subscription that entitles until t is known to be.
abbrev pub Grants : ℕ → Subscription → ℕ → Type 0
Grants now sub t =
    (grants sub.subscription_state ≡ true)
    × (now < t)
    × All (NotAfter t) sub.line_items
    × (listed t sub.line_items ≡ true)

judge-Grants :
    (now : ℕ) (sub : Subscription) (t : ℕ) → judge now sub ≡ entitled t → Grants now sub t
unfolding judge
judge-Grants now sub t h =
    let P : Verdict → Type 0 = λ x. x ≡ entitled t → Grants now sub t in
    if_split P (not (grants sub.subscription_state)) (λ _ e. cc)
      (λ state.
        option_split P (latest_expiry none sub.line_items) (λ _ e. cc)
          (λ latest found.
            if_split P (leb latest now) (λ _ e. cc)
              (λ ahead e.
                let same : latest ≡ t = cc in
                let (_, all, at) = latest_expiry-greatest none sub.line_items t (ground arith) in
                (ground arith, ground arith, all, at))))
      h

-- Google's answer behind it.
abbrev pub Answered : ℕ → Answer Subscription → ℕ → Type 0
Answered now a t =
    (body : String) × (e : Option String) × (sub : Subscription) × (a
      ≡ answered 200 body e (some sub))
    × Grants now sub t

answer-Answered :
    (now : ℕ) (a : Answer Subscription) (t : ℕ) → verdict_of now a ≡ entitled t → Answered now a t
unfolding verdict_of
answer-Answered now (unreachable e) t h = cc
answer-Answered now (answered status body e none) t h =
    let P : Verdict → Type 0 = λ x. x ≡ entitled t → Answered now (answered status body e none) t in
    if_case P (eqb status 404 || eqb status 410) (λ k. cc)
      (if_case P (not (eqb status 200)) (λ k. cc) (λ k. cc)) h
answer-Answered now (answered status body e (some sub)) t h =
    let P : Verdict → Type 0 =
      λ x. x ≡ entitled t → Answered now (answered status body e (some sub)) t in
    if_case P (eqb status 404 || eqb status 410) (λ k. cc)
      (if_split P (not (eqb status 200)) (λ _ k. cc)
        (λ good k.
          let two_hundred : status ≡ 200 = ground arith in
          (
            body,
            e,
            sub,
            ap (λ n. answered n body e (some sub)) two_hundred,
            judge-Grants now sub t k,
          )))
      h

ask-Answered :
    (google : Google) (now : ℕ) (v : PlayVerifier) (purchase_token : String) (r : Result String)
    (t : ℕ)
    → ask google now v purchase_token r ≡ entitled t
    → (access_token : String) × Answered now
        (google.get_subscription v.package_name purchase_token access_token)
        t
ask-Answered google now v purchase_token (err e) t h = cc
ask-Answered google now v purchase_token (ok access_token) t h =
    (access_token, answer-Answered now _ t h)

-- A verdict that entitles rests on an answer of Google's for this token: status 200, a state that
-- grants, and an expiry that lies ahead and is the latest of its line items.
pub verify-entitled :
    (google : Google) (now : ℕ) (v : PlayVerifier) (purchase_token : String) (t : ℕ)
    → (verify google now v purchase_token).0 ≡ entitled t
    → (access_token : String) × Answered now
        (google.get_subscription v.package_name purchase_token access_token)
        t
unfolding verify
verify-entitled google now v purchase_token t h =
    let P : Verdict × PlayVerifier → Type 0 = λ x.
      x.0 ≡ entitled t
      → (access_token : String) × Answered now
          (google.get_subscription v.package_name purchase_token access_token) t in
    if_case P (not v.enabled) (λ k. cc)
      (ask-Answered google now v purchase_token (get google now v.tokens).0 t) h

-- It lies ahead.
pub verify-ahead :
    (google : Google) (now : ℕ) (v : PlayVerifier) (purchase_token : String) (t : ℕ)
    → (verify google now v purchase_token).0 ≡ entitled t
    → now < t
verify-ahead google now v purchase_token t h =
    let (_, (_, _, _, _, (_, ahead, _, _))) = verify-entitled google now v purchase_token t h in
    ahead
