-- ===== src/Crypto/Hex.antt =====
-- hex.EncodeToString and hex.DecodeString, as wiltkey_server uses them for keys, signatures and
-- tokens.
use Prim.Native.Char.{code}
use text.Mathlib.TextLemmas.{nil-append, cons-append}
use wilt_key.Prelude.{
  ℕ, ◌+◌, ◌*◌, ◌/◌, ◌%◌, ◌<◌, ◌≡◌, ◌∙◌, refl, String, Bool, true, false, none, some, List, [], ◌∷◌,
  arith, eqb, All, all_below, all_below-lt,
}
use wilt_key.Prelude.Text.{concat}
use wilt_key.Crypto.{hex_digit, hex_encode, from_hex_char, hex_decode}

-- What hex_digit writes, and what it is read as.
abbrev is_digit_of : ℕ → String → Bool
is_digit_of n String.[] = false
is_digit_of n (String.◌∷◌ c String.[]) = elim (from_hex_char (code c)) [
  | none ↦ false
  | some m ↦ eqb m n
]
is_digit_of n (String.◌∷◌ c (String.◌∷◌ d s)) = false

digits_checked : all_below (λ n. is_digit_of n (hex_digit n)) 16 ≡ true
unfolding hex_digit from_hex_char
digits_checked = refl

digit_read : (n : ℕ) → n < 16 → is_digit_of n (hex_digit n) ≡ true
digit_read n l = all_below-lt (λ k. is_digit_of k (hex_digit k)) 16 n digits_checked l

-- Two digits in front are read as one byte.
read_byte :
    (a b : ℕ) (s t u : String)
    → is_digit_of a s ≡ true
    → is_digit_of b t ≡ true
    → hex_decode (concat s (concat t u))
      ≡ (elim (hex_decode u) [ none ↦ none | some rest ↦ some ((a * 16 + b) ∷ rest) ])
unfolding hex_decode
read_byte a b String.[] t u h k = ground arith
read_byte a b (String.◌∷◌ c (String.◌∷◌ d s)) t u h k = ground arith
read_byte a b (String.◌∷◌ c String.[]) String.[] u h k = ground arith
read_byte a b (String.◌∷◌ c String.[]) (String.◌∷◌ d (String.◌∷◌ e t)) u h k = ground arith
read_byte a b (String.◌∷◌ c String.[]) (String.◌∷◌ d String.[]) u h k =
    rw
      (
        cons-append c "" (concat (String.◌∷◌ d "") u),
        nil-append (concat (String.◌∷◌ d "") u),
        cons-append d "" u,
        nil-append u,
      )
      (ground arith)

-- The encoding of bytes, in lower case, is decoded to the same bytes.
pub hex_decode-encode : (b : List ℕ) → All (λ v. v < 256) b → hex_decode (hex_encode b) ≡ some b
unfolding hex_encode hex_decode
hex_decode-encode [] small = refl
hex_decode-encode (v ∷ b) (l, small) =
    let e =
      read_byte (v / 16) (v % 16) (hex_digit (v / 16)) (hex_digit (v % 16)) (hex_encode b)
        (digit_read (v / 16) (omega arith)) (digit_read (v % 16) (omega arith)) in
    let whole : v / 16 * 16 + v % 16 ≡ v = omega arith in
    e ∙ rw (hex_decode-encode b small, whole) refl
