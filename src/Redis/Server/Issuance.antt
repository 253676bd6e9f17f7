-- ===== src/Redis/Server/Issuance.antt =====
-- The daily counter of issued tokens in wiltkey_server/redis.go over a Redis server.
use wilt_key.Prelude.{
  ℕ, suc, ◌+◌, ◌-◌, ◌*◌, ◌≤◌, ◌<◌, ◌≡◌, ◌≢◌, ◌∙◌, ◌⊎◌, inl, inr, refl, ap, eqb, Bool-cases, String,
  false, none, some, List, [], ◌∷◌, arith, All, ◌==◌, eq_iff, leb, min, count, if◌then◌else◌,
}
use wilt_key.Prelude.Text.{ne_of_test}
use wilt_key.Time.{second, hour}
use wilt_key.Redis.Limits.{issuance_key}
use wilt_key.Redis.Limits.Rates.{issuance_key_inj}
use wilt_key.Redis.Server.{Commands, Laws, entry}
use wilt_key.Redis.Server.Counters.{incr_fixed, allow_issuance}

-- The requests of one day: their times and addresses. How many of those of `ip` are granted.
unfoldable pub granted : {S : Type 0} → Commands S → S → String → ℕ → String → List (ℕ × String) → ℕ
granted c s stamp cap_per_day ip [] = 0
granted c s stamp cap_per_day ip ((now, x) ∷ calls) =
    let (allowed, s') = allow_issuance c s now stamp x cap_per_day in
    let rest = granted c s' stamp cap_per_day ip calls in
    if x == ip then if allowed then suc rest else rest else rest

module _ {S : Type 0} (c : Commands S) (laws : Laws c) where
  -- `n` calls are counted under `key`, and the count is kept up to `horizon`.
  abbrev Counting : S → String → ℕ → ℕ → Type 0
  Counting s key n horizon =
      ((n ≡ 0) × (c.stored s key ≡ none))
      ⊎ ((u : ℕ) × (c.stored s key ≡ some (record { value = c.itoa n; until = some u }))
          × (horizon ≤ u))

  fresh-Counting :
      (s : S) (now : ℕ) (key : String) (ttl horizon : ℕ)
      → c.stored s key ≡ none
      → horizon ≤ now + suc ttl * second
      → ((incr_fixed c s now key (suc ttl * second)).0 ≡ 1)
        × Counting (incr_fixed c s now key (suc ttl * second)).1 key 1 horizon
  unfolding incr_fixed entry
  fresh-Counting s now key ttl horizon e far =
      let born = laws.incr_by-absent s now key 1 (laws.get-absent s now key e) in
      let kept : eqb (suc ttl * second) 0 ≡ false = ground arith in
      (
        born.0,
        inr (
          now + suc ttl * second,
          laws.expire_nx-kept _ now key (c.itoa 1) (suc ttl * second) born.1
              ∙ rw (kept, laws.kept_for-seconds (suc ttl)) refl,
          far,
        ),
      )

  later-Counting :
      (s : S) (now : ℕ) (key : String) (ttl n u : ℕ)
      → c.stored s key ≡ some (record { value = c.itoa n; until = some u })
      → now < u
      → ((incr_fixed c s now key ttl).0 ≡ n + 1)
        × (c.stored (incr_fixed c s now key ttl).1 key
            ≡ some (record { value = c.itoa (n + 1); until = some u }))
  unfolding incr_fixed
  later-Counting s now key ttl n u e live =
      let more =
        laws.incr_by-present s now key (c.itoa n) (some u) n 1
          (laws.get-live s now key (c.itoa n) u e live) e (laws.atoi-itoa n) in
      (more.0, laws.expire_nx-bounded _ now key (c.itoa (n + 1)) u ttl more.1 ∙ more.1)

  step-Counting :
      (s : S) (now : ℕ) (key : String) (ttl n horizon : ℕ)
      → Counting s key n horizon
      → now < horizon
      → horizon ≤ now + suc ttl * second
      → ((incr_fixed c s now key (suc ttl * second)).0 ≡ n + 1)
        × Counting (incr_fixed c s now key (suc ttl * second)).1 key (n + 1) horizon
  step-Counting s now key ttl n horizon (inl (zero_yet, e)) soon far =
      rw zero_yet (fresh-Counting s now key ttl horizon e far)
  step-Counting s now key ttl n horizon (inr (u, e, kept)) soon far =
      let later = later-Counting s now key (suc ttl * second) n u e (omega arith) in
      (later.0, inr (u, later.1, kept))

  pub incr_fixed-other :
      (s : S) (now : ℕ) (key : String) (ttl : ℕ) (other : String)
      → key ≢ other
      → c.stored (incr_fixed c s now key ttl).1 other ≡ c.stored s other
  unfolding incr_fixed
  incr_fixed-other s now key ttl other h =
      laws.expire_nx-other _ now key ttl other h ∙ laws.incr_by-other s now key 1 other h

  allow_issuance-same :
      (s : S) (now : ℕ) (stamp ip : String) (cap_per_day n horizon : ℕ)
      → Counting s (issuance_key ip stamp) n horizon
      → now < horizon
      → horizon ≤ now + 48 * hour
      → ((allow_issuance c s now stamp ip cap_per_day).0 ≡ leb (n + 1) cap_per_day)
        × Counting
            (allow_issuance c s now stamp ip cap_per_day).1
            (issuance_key ip stamp)
            (n + 1)
            horizon
  unfolding allow_issuance
  allow_issuance-same s now stamp ip cap_per_day n horizon counting soon far =
      let step = step-Counting s now (issuance_key ip stamp) 172799 n horizon counting soon far in
      (ap (λ k. leb k cap_per_day) step.0, step.1)

  allow_issuance-other :
      (s : S) (now : ℕ) (stamp x ip : String) (cap_per_day n horizon : ℕ)
      → x ≢ ip
      → Counting s (issuance_key ip stamp) n horizon
      → Counting (allow_issuance c s now stamp x cap_per_day).1 (issuance_key ip stamp) n horizon
  unfolding allow_issuance
  allow_issuance-other s now stamp x ip cap_per_day n horizon apart counting =
      rw
        (incr_fixed-other s now (issuance_key x stamp) (48 * hour) (issuance_key ip stamp)
          (λ e. apart (issuance_key_inj x ip stamp e)))
        counting

  granted-Counting :
      (s : S) (stamp : String) (cap_per_day : ℕ) (ip : String) (calls : List (ℕ × String))
      (n horizon : ℕ)
      → Counting s (issuance_key ip stamp) n horizon
      → All (λ call. (call.0 < horizon) × (horizon ≤ call.0 + 48 * hour)) calls
      → granted c s stamp cap_per_day ip calls
        ≡ min (count (λ call. call.1 == ip) calls) (cap_per_day - n)
  unfolding granted
  granted-Counting s stamp cap_per_day ip [] n horizon counting past = omega arith
  granted-Counting s stamp cap_per_day ip ((now, x) ∷ calls) n horizon counting past =
      elim (Bool-cases (x == ip)) [
        | inl same ↦
            let e : x ≡ ip = ground (arith, eq_iff x ip) in
            let step =
              allow_issuance-same s now stamp x cap_per_day n horizon (rw e counting) past.0.0
                past.0.1 in
            let rest =
              granted-Counting (allow_issuance c s now stamp x cap_per_day).1 stamp cap_per_day ip
                calls (n + 1) horizon (rw (← e) step.1) past.1 in
            rw (same, step.0) (ground arith)
        | inr apart ↦
            let rest =
              granted-Counting (allow_issuance c s now stamp x cap_per_day).1 stamp cap_per_day ip
                calls n horizon
                (allow_issuance-other s now stamp x ip cap_per_day n horizon (ne_of_test x ip apart)
                  counting)
                past.1 in
            rw apart rest
      ]

  -- Over a server, an address that has no count for the day gets exactly as many of its requests
  -- granted as it makes, up to the cap, whatever the other addresses ask for meanwhile, if the
  -- requests of the day lie within 48 hours.
  pub granted-eq-min :
      (s : S) (stamp : String) (cap_per_day : ℕ) (ip : String) (calls : List (ℕ × String))
      (horizon : ℕ)
      → c.stored s (issuance_key ip stamp) ≡ none
      → All (λ call. (call.0 < horizon) × (horizon ≤ call.0 + 48 * hour)) calls
      → granted c s stamp cap_per_day ip calls
        ≡ min (count (λ call. call.1 == ip) calls) cap_per_day
  granted-eq-min s stamp cap_per_day ip calls horizon absent past =
      omega
        (arith, granted-Counting s stamp cap_per_day ip calls 0 horizon (inl (refl, absent)) past)
