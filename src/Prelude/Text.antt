-- ===== src/Prelude/Text.antt =====
-- Go strings: UTF-8 texts with a length in bytes.
use Prim.Native.Char.{code}
use Prim.Native.Nat.{ℕ, ◌+◌, ◌-◌}
use Prim.Native.String.{String, ◌++◌, slice}
use Prim.Native.String
use mathlib.Core.Path.{◌≡◌}
use mathlib.Core.Logic.{◌≢◌, inl, inr}
use mathlib.Core.Bool.{Bool, true, false}
use native.Mathlib.Omega.{arith}
use text.Mathlib.Text.{◌==◌}
use text.Mathlib.TextLemmas.{append_cancel_left, cons-append}
use text.Mathlib.TextEquality.{eq_iff}
use text.Mathlib.TextPositions.{len-append, slice-append_right, eq_refl}
use wilt_key.Prelude.Tests.{leb, eqb, le→leb, Bool-cases, if◌then◌else◌}

-- len(s)
abbrev pub len : String → ℕ
len s = String.len s

-- s + t
abbrev pub concat : String → String → String
concat s t = s ++ t

-- s[n:]
abbrev pub slice_from : String → ℕ → String
slice_from s n = slice s n (len s)

-- strings.HasSuffix(s, t)
pub has_suffix : String → String → Bool
has_suffix s t = if leb (len t) (len s) then slice_from s (len s - len t) == t else false

pub len-concat : (s t : String) → len (concat s t) ≡ len s + len t
len-concat s t = len-append s t

pub concat_cancel_left : (s t u : String) → concat s t ≡ concat s u → t ≡ u
concat_cancel_left s t u = append_cancel_left s t u

-- The last bytes of a text that ends in `t` are `t`.
pub slice_from-concat : (s t : String) → slice_from (concat s t) (len (concat s t) - len t) ≡ t
slice_from-concat s t =
    let e : len (concat s t) - len t ≡ len s = omega (arith, len-concat s t) in
    rw (e, len-append s t) (slice-append_right s t)

pub has_suffix-concat : (s t : String) → has_suffix (concat s t) t ≡ true
unfolding has_suffix
has_suffix-concat s t =
    rw (le→leb (len t) (len (concat s t)) (omega (arith, len-concat s t)), slice_from-concat s t)
      (eq_refl t)

pub ne_of_test : (s t : String) → (s == t) ≡ false → s ≢ t
ne_of_test s t differ e = let same : (s == t) ≡ true = rw e (eq_refl t) in ground arith

-- Two texts that differ at a place both have, so that neither begins the other.
unfoldable pub differ : String → String → Bool
differ String.[] t = false
differ (String.◌∷◌ c s) String.[] = false
differ (String.◌∷◌ c s) (String.◌∷◌ d t) =
    let rest = differ s t in if eqb (code c) (code d) then rest else true

-- Keys of prefixes that differ are different.
pub prefixes_differ : (p q a b : String) → differ p q ≡ true → concat p a ≢ concat q b
unfolding differ
prefixes_differ String.[] q a b h e = ground arith
prefixes_differ (String.◌∷◌ c p) String.[] a b h e = ground arith
prefixes_differ (String.◌∷◌ c p) (String.◌∷◌ d q) a b h e =
    let e' : String.◌∷◌ c (concat p a) ≡ String.◌∷◌ d (concat q b) =
      rw (← cons-append c p a, ← cons-append d q b) e in
    elim (Bool-cases (eqb (code c) (code d))) [
      | inl same ↦ prefixes_differ p q a b (ground (arith)) cc
      | inr other ↦ let same : code c ≡ code d = cc in ground (arith)
    ]

pub concat_apart : (p q a b : String) → differ p q ≡ true → (concat p a == concat q b) ≡ false
concat_apart p q a b h =
    let apart : concat p a ≢ concat q b = prefixes_differ p q a b h in
    ground (arith, eq_iff (concat p a) (concat q b))

pub concat_same : (p a b : String) → (concat p a == concat p b) ≡ (a == b)
concat_same p a b = ground (
  arith,
  eq_iff (concat p a) (concat p b),
  eq_iff a b,
  concat_cancel_left p a b,
  eq_refl (concat p b),
)
