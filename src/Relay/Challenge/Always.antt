-- ===== src/Relay/Challenge/Always.antt =====
-- The first issuance of the day in wiltkey_server/puzzle.go, over a Redis server.
use wilt_key.Prelude.{
  ℕ, suc, ◌+◌, ◌*◌, ◌≡◌, ◌∙◌, ◌⊎◌, inl, inr, String, Option, none, some, List, [], ◌∷◌, arith, ◌==◌,
  Bool-cases, eq_iff,
}
use wilt_key.Prelude.Text.{ne_of_test}
use wilt_key.Time.{hour}
use wilt_key.Redis.Limits.{issuance_key}
use wilt_key.Redis.Server.{Commands, Laws, entry}
use wilt_key.Redis.Server.Counters.{incr_fixed, allow_issuance, issuance_count_today}
use wilt_key.Redis.Server.Issuance.{incr_fixed-other}
use wilt_key.Relay.Challenge.{
  ChallengeMode, client_advertises_challenge, puzzle_required_over_server,
}

-- A request for a token: its time, its day, its address and the cap.
pub record Request : Type 0 where
  pub at : ℕ
  pub stamp : String
  pub ip : String
  pub max_per_day : ℕ

unfoldable pub requested : {S : Type 0} → Commands S → S → List Request → S
requested c s [] = s
requested c s (q ∷ qs) = requested c (allow_issuance c s q.at q.stamp q.ip q.max_per_day).1 qs

module _ {S : Type 0} (c : Commands S) (laws : Laws c) where
  -- No key but one that holds a positive number.
  abbrev Positive : S → String → Type 0
  Positive s key =
      (c.stored s key ≡ none)
      ⊎ ((n : ℕ) × (u : Option ℕ) × (c.stored s key
            ≡ some (record { value = c.itoa (suc n); until = u })))

  kept-Positive :
      (s : S) (now : ℕ) (key : String) (ttl n : ℕ) (u : Option ℕ)
      → c.stored s key ≡ some (record { value = c.itoa (suc n); until = u })
      → Positive (c.expire_nx s now key ttl) key
  unfolding entry
  kept-Positive s now key ttl n none e = inr (n, _, laws.expire_nx-kept s now key _ ttl e)
  kept-Positive s now key ttl n (some u) e =
      inr (n, some u, laws.expire_nx-bounded s now key _ u ttl e ∙ e)

  next : (n : ℕ) → suc n + 1 ≡ suc (n + 1)
  next n = omega arith

  incr_fixed-Positive :
      (s : S) (now : ℕ) (key : String) (ttl : ℕ)
      → Positive s key
      → Positive (incr_fixed c s now key ttl).1 key
  unfolding incr_fixed
  incr_fixed-Positive s now key ttl (inl absent) =
      kept-Positive _ now key ttl 0 none
        (laws.incr_by-absent s now key 1 (laws.get-absent s now key absent)).1
  incr_fixed-Positive s now key ttl (inr (n, u, e)) = elim (laws.get-stored s now key _ u e) [
    | inl gone ↦ kept-Positive _ now key ttl 0 none (laws.incr_by-absent s now key 1 gone).1
    | inr there ↦ kept-Positive _ now key ttl (n + 1) u (
        rw (← next n)
          (laws.incr_by-present s now key _ u (suc n) 1 there e (laws.atoi-itoa (suc n))).1)
  ]

  granted-Positive :
      (s : S) (q : Request) (key : String)
      → Positive s key
      → Positive (allow_issuance c s q.at q.stamp q.ip q.max_per_day).1 key
  unfolding allow_issuance
  granted-Positive s q key h = elim (Bool-cases (issuance_key q.ip q.stamp == key)) [
    | inl same ↦
        let e : issuance_key q.ip q.stamp ≡ key =
          ground (arith, eq_iff (issuance_key q.ip q.stamp) key) in
        rw (← e) (incr_fixed-Positive s q.at _ (48 * hour) (rw e h))
    | inr apart ↦
        rw
          (incr_fixed-other c laws s q.at (issuance_key q.ip q.stamp) (48 * hour) key
            (ne_of_test _ _ apart))
          h
  ]

  requested-Positive :
      (s : S) (qs : List Request) (key : String) → Positive s key → Positive (requested c s qs) key
  unfolding requested
  requested-Positive s [] key h = h
  requested-Positive s (q ∷ qs) key h =
      requested-Positive (allow_issuance c s q.at q.stamp q.ip q.max_per_day).1 qs key
        (granted-Positive s q key h)

  -- Over a server, a client that advertises the challenge is asked for it at every issuance, the
  -- first of the day included, in each of the modes: whatever tokens the addresses have asked for
  -- since the count of the address was absent.
  pub always_challenged :
      (s : S) (qs : List Request) (now : ℕ) (stamp : String) (mode : ChallengeMode)
      (client_caps : List String) (ip : String)
      → c.stored s (issuance_key ip stamp) ≡ none
      → puzzle_required_over_server c (requested c s qs) now stamp mode client_caps ip
        ≡ client_advertises_challenge client_caps
  unfolding puzzle_required_over_server issuance_count_today
  always_challenged s qs now stamp mode client_caps ip absent =
      elim (requested-Positive s qs (issuance_key ip stamp) (inl absent)) [
        | inl e ↦
            rw (laws.get-absent (requested c s qs) now (issuance_key ip stamp) e) (ground arith)
        | inr (n, u, e) ↦
            elim (laws.get-stored (requested c s qs) now (issuance_key ip stamp) _ u e) [
              | inl gone ↦ rw gone (ground arith)
              | inr there ↦ rw (there, laws.atoi-itoa (suc n)) (ground arith)
            ]
      ]
