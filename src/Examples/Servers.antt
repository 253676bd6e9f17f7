-- ===== src/Examples/Servers.antt =====
-- A Redis server as a map of entries, which keeps the laws of the commands, and what the relay does
-- over it.
use wilt_key.Prelude.{
  ℕ, zero, suc, ◌+◌, ◌*◌, ◌/◌, ◌≡◌, ◌≢◌, ◌∙◌, ◌⊎◌, inl, inr, refl, ap, String, Bool, true, false,
  Option, none, some, arith, eq_iff, eq_refl, option_case, eqb, ltb, if◌then◌else◌,
}
use wilt_key.Prelude.Text.{concat, len, len-concat}
use wilt_key.Prelude.GoMap.{GoMap, lookup, insert, delete, lookup-insert, lookup-delete}
use wilt_key.Redis.Server.{Commands, Laws, Stored, entry, is_some, millisecond}

abbrev pub Server : Type 0
Server = GoMap Stored

-- Numbers as that many strokes.
unfoldable pub strokes : ℕ → String
strokes zero = ""
strokes (suc n) = concat "|" (strokes n)

abbrev pub alive : ℕ → Option ℕ → Bool
alive now none = true
alive now (some u) = ltb now u

unfoldable pub get : Server → ℕ → String → Option String
get s now k = elim (lookup s k) [
  | none ↦ none
  | some e ↦ if alive now e.until then some e.value else none
]

abbrev pub whole : ℕ → ℕ
whole ttl = ttl / millisecond * millisecond

abbrev pub kept : ℕ → String → ℕ → Stored
kept now v ttl = record { value = v; until = if eqb ttl 0 then none else some (now + whole ttl) }

abbrev pub until_of : Option Stored → Option ℕ
until_of none = none
until_of (some e) = e.until

unfoldable pub incr_by : Server → ℕ → String → ℕ → ℕ × Server
unfolding get strokes
incr_by s now k n = elim (get s now k) [
  | none ↦ (n, insert s k (record { value = strokes n; until = none }))
  | some v ↦ (
    len v + n,
    insert s k (record { value = strokes (len v + n); until = until_of (lookup s k) }),
  )
]

unfoldable pub expire : Server → ℕ → String → ℕ → Server
unfolding get
expire s now k ttl = elim (get s now k) [ none ↦ s | some v ↦ insert s k (kept now v ttl) ]

unfoldable pub expire_nx : Server → ℕ → String → ℕ → Server
expire_nx s now k ttl = elim (lookup s k) [
  | none ↦ s
  | some e ↦ elim e.until [ none ↦ insert s k (kept now e.value ttl) | some u ↦ s ]
]

unfoldable pub set_nx : Server → ℕ → String → String → ℕ → Bool × Server
unfolding get
set_nx s now k v ttl = elim (get s now k) [
  | none ↦ (true, insert s k (kept now v ttl))
  | some old ↦ (false, s)
]

abbrev pub commands : Commands Server
commands = record {
  stored = lookup;
  itoa = strokes;
  atoi = λ v. some (len v);
  kept_for = whole;
  get = get;
  set = λ s now k v ttl. insert s k (kept now v ttl);
  set_nx = set_nx;
  exists = λ s now k. is_some (get s now k);
  del = delete;
  incr_by = incr_by;
  expire = expire;
  expire_nx = expire_nx;
}

len-strokes : (n : ℕ) → len (strokes n) ≡ n
unfolding strokes
len-strokes zero = refl
len-strokes (suc n) = ground (arith, len-concat "|" (strokes n), len-strokes n)

get_some :
    (s : Server) (now : ℕ) (k : String) (e : Stored)
    → lookup s k ≡ some e
    → get s now k ≡ (if alive now e.until then some e.value else none)
unfolding get
get_some s now k e h = rw (h, get)

found :
    (b : Bool) (v : String) (o : Option String)
    → o ≡ (if b then some v else none)
    → (o ≡ none) ⊎ (o ≡ some v)
found true v o e = inr e
found false v o e = inl e

lookup-apart :
    (s : Server) (k k' : String) (e : Stored) → k ≢ k' → lookup (insert s k e) k' ≡ lookup s k'
lookup-apart s k k' e h = ground (arith, eq_iff k k', lookup-insert s k k' e)

lookup-there : (s : Server) (k : String) (e : Stored) → lookup (insert s k e) k ≡ some e
lookup-there s k e = ground (arith, eq_refl k, lookup-insert s k k e)

incr_by-apart :
    (s : Server) (now : ℕ) (k : String) (n : ℕ) (k' : String)
    → k ≢ k'
    → lookup (incr_by s now k n).1 k' ≡ lookup s k'
unfolding incr_by
incr_by-apart s now k n k' h =
    option_case (λ (r : ℕ × Server). lookup r.1 k' ≡ lookup s k') (get s now k)
      (lookup-apart s k k' _ h) (λ v. lookup-apart s k k' _ h)

expire-apart :
    (s : Server) (now : ℕ) (k : String) (ttl : ℕ) (k' : String)
    → k ≢ k'
    → lookup (expire s now k ttl) k' ≡ lookup s k'
unfolding expire
expire-apart s now k ttl k' h =
    option_case (λ r. lookup r k' ≡ lookup s k') (get s now k) refl (λ v. lookup-apart s k k' _ h)

expire_nx-apart :
    (s : Server) (now : ℕ) (k : String) (ttl : ℕ) (k' : String)
    → k ≢ k'
    → lookup (expire_nx s now k ttl) k' ≡ lookup s k'
unfolding expire_nx
expire_nx-apart s now k ttl k' h =
    option_case (λ r. lookup r k' ≡ lookup s k') (lookup s k) refl
      (λ e.
        option_case (λ r. lookup r k' ≡ lookup s k') e.until (lookup-apart s k k' _ h) (λ u. refl))

incr_by-born :
    (s : Server) (now : ℕ) (k : String) (n : ℕ)
    → get s now k ≡ none
    → incr_by s now k n ≡ (n, insert s k (record { value = strokes n; until = none }))
unfolding incr_by
incr_by-born s now k n e = rw (e, incr_by)

incr_by-more :
    (s : Server) (now : ℕ) (k v : String) (u : Option ℕ) (m n : ℕ)
    → get s now k ≡ some v
    → lookup s k ≡ some (record { value = v; until = u })
    → len v ≡ m
    → incr_by s now k n ≡ (m + n, insert s k (record { value = strokes (m + n); until = u }))
unfolding incr_by
incr_by-more s now k v u m n e f g = rw (e, f, g, incr_by)

get_none : (s : Server) (now : ℕ) (k : String) → lookup s k ≡ none → get s now k ≡ none
unfolding get
get_none s now k e = rw (e, get)

set_nx-born :
    (s : Server) (now : ℕ) (k v : String) (ttl : ℕ)
    → get s now k ≡ none
    → set_nx s now k v ttl ≡ (true, insert s k (kept now v ttl))
unfolding set_nx
set_nx-born s now k v ttl e = rw (e, set_nx)

set_nx-there :
    (s : Server) (now : ℕ) (k v : String) (ttl : ℕ) (old : String)
    → get s now k ≡ some old
    → set_nx s now k v ttl ≡ (false, s)
unfolding set_nx
set_nx-there s now k v ttl old e = rw (e, set_nx)

expire-there :
    (s : Server) (now : ℕ) (k v : String) (ttl : ℕ)
    → get s now k ≡ some v
    → lookup (expire s now k ttl) k ≡ some (kept now v ttl)
unfolding expire
expire-there s now k v ttl e = rw (e, expire) (lookup-there s k _)

expire_nx-set :
    (s : Server) (now : ℕ) (k v : String) (ttl : ℕ)
    → lookup s k ≡ some (record { value = v; until = none })
    → lookup (expire_nx s now k ttl) k ≡ some (kept now v ttl)
unfolding expire_nx
expire_nx-set s now k v ttl e = rw (e, expire_nx) (lookup-there s k _)

expire_nx-left :
    (s : Server) (now : ℕ) (k v : String) (u ttl : ℕ)
    → lookup s k ≡ some (record { value = v; until = some u })
    → expire_nx s now k ttl ≡ s
unfolding expire_nx
expire_nx-left s now k v u ttl e = rw (e, expire_nx)

len_of : (v : String) (m : ℕ) → some (len v) ≡ some m → len v ≡ m
len_of v m e = cc

pub commands-Laws : Laws commands
unfolding entry
commands-Laws = record {
  atoi-itoa = λ n. ap some (len-strokes n);
  kept_for-seconds = λ n. omega arith;
  kept_for-close = λ ttl. omega arith;
  get-absent = λ s now k e. get_none s now k e;
  get-kept = λ s now k v e. get_some s now k _ e;
  get-live = λ s now k v u e live. get_some s now k _ e ∙ ground arith;
  get-lapsed = λ s now k v u e over. get_some s now k _ e ∙ ground arith;
  get-stored = λ s now k v u e. found (alive now u) v (get s now k) (get_some s now k _ e);
  exists-get = λ s now k. refl;
  stored-set = λ s now k v ttl k'. lookup-insert s k k' (kept now v ttl);
  set_nx-absent = λ s now k v ttl e. set_nx-born s now k v ttl e;
  set_nx-present = λ s now k v ttl old e. set_nx-there s now k v ttl old e;
  stored-del = λ s k k'. lookup-delete s k k';
  incr_by-absent = λ s now k n e. rw (incr_by-born s now k n e) (refl, lookup-there s k _);
  incr_by-present = λ s now k v u m n e f g.
      rw (incr_by-more s now k v u m n e f (len_of v m g)) (refl, lookup-there s k _);
  incr_by-other = λ s now k n k' h. incr_by-apart s now k n k' h;
  stored-expire = λ s now k v ttl e. expire-there s now k v ttl e;
  expire-other = λ s now k ttl k' h. expire-apart s now k ttl k' h;
  expire_nx-kept = λ s now k v ttl e. expire_nx-set s now k v ttl e;
  expire_nx-bounded = λ s now k v u ttl e. ap (λ r. lookup r k) (expire_nx-left s now k v u ttl e);
  expire_nx-other = λ s now k ttl k' h. expire_nx-apart s now k ttl k' h;
}
