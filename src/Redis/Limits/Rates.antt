-- ===== src/Redis/Limits/Rates.antt =====
-- The counters of wiltkey_server/redis.go over many calls.
use wilt_key.Prelude.{
  ℕ, suc, ◌+◌, ◌-◌, ◌≡◌, min, ◌∙◌, refl, sym, ap, String, true, Option, none, some, List, [], ◌∷◌,
  arith, ◌==◌, eq_iff, eq_refl, ltb, leb, count, if◌then◌else◌, Bool-cases, inl, inr,
}
use wilt_key.Prelude.Text.{
  concat, len, has_suffix, slice_from-concat, has_suffix-concat, concat_cancel_left,
}
use wilt_key.Prelude.GoMap.{
  GoMap, lookup, size, lookup-insert, lookup-insert_self, lookup-retain, filter_entry,
}
use wilt_key.Redis.{RedisClient}
use wilt_key.Redis.Limits.{
  counter, rate_key, is_current, check_ip_rate_limit, issuance_key, trim_stale, allow_issuance,
  issuance_count_today,
}
use text.Mathlib.TextLemmas.{append_cancel_right, append_assoc}

-- Keys of one stamp are those of different addresses.
suffix_cancel : (a b t : String) → concat a t ≡ concat b t → a ≡ b
suffix_cancel a b t e = append_cancel_right a b t e

pub rate_key_inj : (a b stamp : String) → rate_key a stamp ≡ rate_key b stamp → a ≡ b
rate_key_inj a b stamp e = suffix_cancel a b (concat ":" stamp) (concat_cancel_left "rate:" _ _ e)

pub issuance_key_inj : (a b stamp : String) → issuance_key a stamp ≡ issuance_key b stamp → a ≡ b
issuance_key_inj a b stamp e =
    suffix_cancel a b (concat ":" stamp) (concat_cancel_left "issuance:" _ _ e)

rate_key-eq : (a b stamp : String) → (rate_key a stamp == rate_key b stamp) ≡ (a == b)
rate_key-eq a b stamp =
    ground (arith, eq_iff (rate_key a stamp) (rate_key b stamp), eq_iff a b, rate_key_inj a b stamp)

pub issuance_key-eq :
    (a b stamp : String) → (issuance_key a stamp == issuance_key b stamp) ≡ (a == b)
issuance_key-eq a b stamp = ground (
  arith,
  eq_iff (issuance_key a stamp) (issuance_key b stamp),
  eq_iff a b,
  issuance_key_inj a b stamp,
)

rate_key-ends :
    (ip stamp : String) → rate_key ip stamp ≡ concat (concat "rate:" (concat ip ":")) stamp
rate_key-ends ip stamp =
    sym
      (append_assoc "rate:" (concat ip ":") stamp ∙ ap (concat "rate:") (append_assoc ip ":" stamp))

ends_current :
    (a stamp : String) (n : ℕ) → len stamp ≡ 12 → is_current stamp (concat a stamp) n ≡ true
ends_current a stamp n h =
    let e = rw h at (slice_from-concat a stamp) in
    elim (Bool-cases (ltb 12 (len (concat a stamp)))) [
      | inl long ↦ rw (long, e) (eq_refl stamp)
      | inr short ↦ rw short
    ]

-- A key of the current minute survives the clean-up.
rate_key-current :
    (ip stamp : String) (n : ℕ) → len stamp ≡ 12 → is_current stamp (rate_key ip stamp) n ≡ true
rate_key-current ip stamp n h = rw (rate_key-ends ip stamp) (ends_current _ stamp n h)

current_kept :
    (ip stamp : String) (o : Option ℕ)
    → len stamp ≡ 12
    → filter_entry (is_current stamp) (rate_key ip stamp) o ≡ o
current_kept ip stamp none h = refl
current_kept ip stamp (some n) h = rw (rate_key-current ip stamp n h)

unfoldable pub rate_count : RedisClient → String → String → ℕ
rate_count r stamp ip = counter r.memory_rate (rate_key ip stamp)

rate_count-check :
    (r : RedisClient) (stamp ip other : String) (limit : ℕ)
    → len stamp ≡ 12
    → rate_count (check_ip_rate_limit r stamp ip limit).1 stamp other
      ≡ (if ip == other then rate_count r stamp ip + 1 else rate_count r stamp other)
unfolding rate_count check_ip_rate_limit
rate_count-check r stamp ip other limit h =
    rw (lookup-retain, current_kept other stamp _ h, lookup-insert, rate_key-eq ip other stamp)
      (ground arith)

check-allows :
    (r : RedisClient) (stamp ip : String) (limit : ℕ)
    → (check_ip_rate_limit r stamp ip limit).0 ≡ leb (rate_count r stamp ip + 1) limit
unfolding rate_count check_ip_rate_limit
check-allows r stamp ip limit = refl

-- The addresses of the requests of one minute, and how many of those of `ip` are let through.
unfoldable pub admitted : RedisClient → String → ℕ → String → List String → ℕ
admitted r stamp limit ip [] = 0
admitted r stamp limit ip (x ∷ xs) =
    let (allowed, r') = check_ip_rate_limit r stamp x limit in
    let rest = admitted r' stamp limit ip xs in
    if x == ip then if allowed then suc rest else rest else rest

-- Of the requests of one minute, in any order with those of other addresses, an address gets
-- through all that it makes, up to exactly what the limit leaves it. The stamp of the minute has
-- twelve bytes.
pub admitted-eq-min :
    (r : RedisClient) (stamp : String) (limit : ℕ) (ip : String) (xs : List String)
    → len stamp ≡ 12
    → admitted r stamp limit ip xs ≡ min (count (λ x. x == ip) xs) (limit - rate_count r stamp ip)
unfolding admitted
admitted-eq-min r stamp limit ip [] h = omega arith
admitted-eq-min r stamp limit ip (x ∷ xs) h = ground (
  arith,
  eq_iff x ip,
  check-allows r stamp x limit,
  rate_count-check r stamp x ip limit h,
  admitted-eq-min (check_ip_rate_limit r stamp x limit).1 stamp limit ip xs h,
)

suffix_kept :
    (p stamp : String) (o : Option ℕ)
    → filter_entry (λ k n. has_suffix k (concat ":" stamp)) (concat p (concat ":" stamp)) o ≡ o
suffix_kept p stamp none = refl
suffix_kept p stamp (some n) = rw (has_suffix-concat p (concat ":" stamp))

trim_stale-suffix :
    (m : GoMap ℕ) (p stamp : String)
    → lookup (trim_stale stamp m) (concat p (concat ":" stamp))
      ≡ lookup m (concat p (concat ":" stamp))
unfolding trim_stale
trim_stale-suffix m p stamp = elim (Bool-cases (ltb 4096 (size m))) [
  | inl large ↦ rw (large, lookup-retain) (suffix_kept p stamp _)
  | inr fits ↦ rw fits
]

-- Trimming the map loses no counter of the current stamp.
pub trim_stale-current :
    (m : GoMap ℕ) (p ip stamp : String)
    → lookup (trim_stale stamp m) (concat p (concat ip (concat ":" stamp)))
      ≡ lookup m (concat p (concat ip (concat ":" stamp)))
trim_stale-current m p ip stamp =
    rw (← append_assoc p ip (concat ":" stamp)) (trim_stale-suffix m (concat p ip) stamp)

-- A call of the issuance gate is allowed exactly when today's count of the address, this call
-- included, is within the cap; it adds one to that count and leaves the others.
pub allow_issuance-count :
    (r : RedisClient) (stamp ip other : String) (cap_per_day : ℕ)
    → ((allow_issuance r stamp ip cap_per_day).0
        ≡ leb (issuance_count_today r stamp ip + 1) cap_per_day)
      × (issuance_count_today (allow_issuance r stamp ip cap_per_day).1 stamp other ≡ (
          if ip == other
          then issuance_count_today r stamp ip + 1
          else issuance_count_today r stamp other))
unfolding allow_issuance issuance_count_today
allow_issuance-count r stamp ip other cap_per_day = (
  rw (trim_stale-current, lookup-insert_self),
  rw (trim_stale-current, lookup-insert, issuance_key-eq ip other stamp) (ground arith),
)
