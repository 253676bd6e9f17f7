-- ===== src/Prelude/GoMap.antt =====
-- Go's `map[string]V`. The representation is private; users have the laws below. The program reads
-- a map in no order that it relies on.
use Prim.Native.Nat.{ℕ}
use Prim.Native.String.{String}
use mathlib.Core.Path.{◌≡◌, refl}
use mathlib.Core.Bool.{Bool}
use mathlib.Core.Option.{Option, none, some}
use mathlib.Core.List.{List, [], ◌∷◌}
use native.Mathlib.Omega.{arith}
use text.Mathlib.Text.{◌==◌}
use text.Mathlib.TextEquality.{eq_iff}
use text.Mathlib.TextPositions.{eq_refl}
use wilt_key.Prelude.Tests.{if◌then◌else◌}
use wilt_key.Prelude.Lists.{length}

module _ {ℓ} {V : Type ℓ} where
  find_entry : String → List (String × V) → Option V
  find_entry k [] = none
  find_entry k ((j, v) ∷ m) = let rest = find_entry k m in if j == k then some v else rest

  without : String → List (String × V) → List (String × V)
  without k [] = []
  without k ((j, v) ∷ m) = let rest = without k m in if j == k then rest else (j, v) ∷ rest

  kept : (String → V → Bool) → List (String × V) → List (String × V)
  unfolding without
  kept p [] = []
  kept p ((j, v) ∷ m) = let rest = without j (kept p m) in if p j v then (j, v) ∷ rest else rest

  find_entry-without :
      (k j : String) (m : List (String × V))
      → find_entry j (without k m) ≡ (if k == j then none else find_entry j m)
  unfolding find_entry without
  find_entry-without k j [] = ground arith
  find_entry-without k j ((i, v) ∷ m) =
      ground (arith, find_entry-without k j m, eq_iff i k, eq_iff i j, eq_iff k j)

abbrev pub filter_entry {ℓ} : {V : Type ℓ} → (String → V → Bool) → String → Option V → Option V
filter_entry p k none = none
filter_entry p k (some v) = if p k v then some v else none

module _ {ℓ} {V : Type ℓ} where
  find_entry-kept :
      (p : String → V → Bool) (j : String) (m : List (String × V))
      → find_entry j (kept p m) ≡ filter_entry p j (find_entry j m)
  unfolding find_entry kept
  find_entry-kept p j [] = refl
  find_entry-kept p j ((i, v) ∷ m) =
      ground (arith, find_entry-kept p j m, find_entry-without i j (kept p m), eq_iff i j)

-- The zero value where a key is missing.
abbrev pub value_or {ℓ} : {V : Type ℓ} → V → Option V → V
value_or d none = d
value_or d (some v) = v

pub record GoMap {ℓ} (V : Type ℓ) : Type ℓ where
  entries : List (String × V)

module _ {ℓ} {V : Type ℓ} where
  -- make(map[string]V)
  unfoldable pub empty : GoMap V
  unfolding find_entry without kept
  empty = record { entries = [] }

  -- v, ok := m[k]
  unfoldable pub lookup : GoMap V → String → Option V
  unfolding find_entry
  lookup m k = find_entry k m.entries

  -- delete(m, k)
  unfoldable pub delete : GoMap V → String → GoMap V
  unfolding without
  delete m k = record { entries = without k m.entries }

  -- m[k] = v
  unfoldable pub insert : GoMap V → String → V → GoMap V
  unfolding without
  insert m k v = record { entries = (k, v) ∷ without k m.entries }

  -- for k, v := range m { if !p(k, v) { delete(m, k) } }
  unfoldable pub retain : (String → V → Bool) → GoMap V → GoMap V
  unfolding kept without
  retain p m = record { entries = kept p m.entries }

  -- len(m)
  unfoldable pub size : GoMap V → ℕ
  size m = length m.entries

  pub lookup-delete :
      (m : GoMap V) (k j : String) → lookup (delete m k) j ≡ (if k == j then none else lookup m j)
  unfolding lookup delete
  lookup-delete m k j = find_entry-without k j m.entries

  pub lookup-insert :
      (m : GoMap V) (k j : String) (v : V)
      → lookup (insert m k v) j ≡ (if k == j then some v else lookup m j)
  unfolding lookup insert find_entry
  lookup-insert m k j v = ground (arith, find_entry-without k j m.entries, eq_iff k j)

  pub lookup-insert_self : (m : GoMap V) (k : String) (v : V) → lookup (insert m k v) k ≡ some v
  lookup-insert_self m k v = rw (lookup-insert, eq_refl k)

  pub lookup-retain :
      (p : String → V → Bool) (m : GoMap V) (j : String)
      → lookup (retain p m) j ≡ filter_entry p j (lookup m j)
  unfolding lookup retain
  lookup-retain p m j = find_entry-kept p j m.entries

pub lookup-empty {ℓ} : {V : Type ℓ} (k : String) → lookup (empty {V = V}) k ≡ none
unfolding lookup empty find_entry
lookup-empty k = refl

pub ruleset map_laws = (lookup-delete, lookup-insert, lookup-retain, lookup-empty)
