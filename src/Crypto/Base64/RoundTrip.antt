-- ===== src/Crypto/Base64/RoundTrip.antt =====
-- The base64 encoding of wiltkey_server/play_integrity.go is read back.
use text.Mathlib.TextLemmas.{nil-append, cons-append}
use wilt_key.Prelude.{
  ℕ, ◌+◌, ◌*◌, ◌/◌, ◌%◌, ◌<◌, ◌≡◌, ◌∙◌, refl, ap, String, Bool, true, false, Option, none, some,
  List, [], ◌∷◌, ◌++◌, arith, eqb, All, all_below, all_below-lt,
}
use wilt_key.Prelude.Text.{concat}
use wilt_key.Crypto.Base64.{
  base64_digit, base64_encode, base64_value, codes, last_quantum, whole_quantum, decode_quanta,
  std_decode, pad,
}

-- What base64_digit writes: one character, no line end, which has the value that was written.
abbrev is_digit_of : ℕ → List ℕ → Bool
is_digit_of n (c ∷ []) = elim (base64_value 43 47 c) [ none ↦ false | some m ↦ eqb m n ]
is_digit_of n _ = false

digits_checked : all_below (λ n. is_digit_of n (codes (base64_digit n))) 64 ≡ true
unfolding base64_digit base64_value codes
digits_checked = refl

-- The code of a digit.
abbrev head : List ℕ → ℕ
head [] = 0
head (c ∷ cs) = c

digit_code : ℕ → ℕ
digit_code n = head (codes (base64_digit n))

one_digit :
    (n : ℕ) (cs : List ℕ)
    → is_digit_of n cs ≡ true
    → (cs ≡ head cs ∷ []) × (base64_value 43 47 (head cs) ≡ some n)
one_digit n [] h = ground arith
one_digit n (c ∷ []) h = ground arith
one_digit n (c ∷ d ∷ cs) h = ground arith

digit_read :
    (n : ℕ)
    → n < 64
    → (codes (base64_digit n) ≡ digit_code n ∷ []) × (base64_value 43 47 (digit_code n) ≡ some n)
unfolding digit_code
digit_read n l =
    one_digit n (codes (base64_digit n))
      (all_below-lt (λ k. is_digit_of k (codes (base64_digit k))) 64 n digits_checked l)

codes-concat : (s t : String) → codes (concat s t) ≡ codes s ++ codes t
unfolding codes
codes-concat String.[] t = rw nil-append
codes-concat (String.◌∷◌ c s) t = rw cons-append (ground (arith, codes-concat s t))

-- A digit in front.
codes-digit :
    (n : ℕ) (s : String) → n < 64 → codes (concat (base64_digit n) s) ≡ digit_code n ∷ codes s
codes-digit n s l = codes-concat (base64_digit n) s ∙ rw (digit_read n l).0

pad_is_none : base64_value 43 47 pad ≡ none
unfolding base64_value
pad_is_none = refl

decode_whole :
    (a b c d : ℕ) (rest : List ℕ)
    → a < 64
    → b < 64
    → c < 64
    → d < 64
    → decode_quanta
        (base64_value 43 47)
        (digit_code a ∷ digit_code b ∷ digit_code c ∷ digit_code d ∷ rest)
      ≡ (a * 4 + b / 16)
        ∷ (b % 16 * 16 + c / 4)
        ∷ (c % 4 * 64 + d)
        ∷ decode_quanta (base64_value 43 47) rest
unfolding decode_quanta
decode_whole a b c d rest la lb lc ld =
    rw
      (
        decode_quanta,
        (digit_read a la).1,
        (digit_read b lb).1,
        (digit_read c lc).1,
        (digit_read d ld).1,
      )
      refl

one_byte :
    (a b : ℕ) (va vb vc : Option ℕ)
    → va ≡ some a
    → vb ≡ some b
    → vc ≡ none
    → (elim (whole_quantum va vb vc vc) [
      | some bytes ↦ bytes ++ []
      | none ↦ last_quantum va vb vc pad pad
    ])
      ≡ (a * 4 + b / 16) ∷ []
one_byte a b va vb vc ea eb ec = ground arith

decode_one :
    (a b : ℕ)
    → a < 64
    → b < 64
    → decode_quanta (base64_value 43 47) (digit_code a ∷ digit_code b ∷ pad ∷ pad ∷ [])
      ≡ (a * 4 + b / 16) ∷ []
unfolding decode_quanta
decode_one a b la lb = one_byte a b _ _ _ (digit_read a la).1 (digit_read b lb).1 pad_is_none

two_padded :
    (a b c d : ℕ) (va vb vc vd : Option ℕ)
    → va ≡ some a
    → vb ≡ some b
    → vc ≡ some c
    → vd ≡ none
    → (elim (whole_quantum va vb vc vd) [
      | some bytes ↦ bytes ++ []
      | none ↦ last_quantum va vb vc d pad
    ])
      ≡ (a * 4 + b / 16) ∷ (b % 16 * 16 + c / 4) ∷ []
two_padded a b c d va vb vc vd ea eb ec ed = ground arith

decode_two :
    (a b c : ℕ)
    → a < 64
    → b < 64
    → c < 64
    → decode_quanta (base64_value 43 47) (digit_code a ∷ digit_code b ∷ digit_code c ∷ pad ∷ [])
      ≡ (a * 4 + b / 16) ∷ (b % 16 * 16 + c / 4) ∷ []
unfolding decode_quanta
decode_two a b c la lb lc =
    two_padded a b c (digit_code c) _ _ _ _ (digit_read a la).1 (digit_read b lb).1
      (digit_read c lc).1 pad_is_none

two_pads : codes "==" ≡ pad ∷ pad ∷ []
unfolding codes
two_pads = refl

one_pad : codes "=" ≡ pad ∷ []
unfolding codes
one_pad = refl

two_bytes :
    (a b : ℕ)
    → a < 256
    → b < 256
    → (a / 4 * 4 + (a % 4 * 16 + b / 16) / 16)
        ∷ ((a % 4 * 16 + b / 16) % 16 * 16 + b % 16 * 4 / 4)
        ∷ []
      ≡ a ∷ b ∷ []
two_bytes a b la lb =
    let x : a / 4 * 4 + (a % 4 * 16 + b / 16) / 16 ≡ a = omega arith in
    let y : (a % 4 * 16 + b / 16) % 16 * 16 + b % 16 * 4 / 4 ≡ b = omega arith in rw (x, y) refl

three_bytes :
    (a b c : ℕ) (rest : List ℕ)
    → a < 256
    → b < 256
    → c < 256
    → (a / 4 * 4 + (a % 4 * 16 + b / 16) / 16)
        ∷ ((a % 4 * 16 + b / 16) % 16 * 16 + (b % 16 * 4 + c / 64) / 4)
        ∷ ((b % 16 * 4 + c / 64) % 4 * 64 + c % 64)
        ∷ rest
      ≡ a ∷ b ∷ c ∷ rest
three_bytes a b c rest la lb lc =
    let x : a / 4 * 4 + (a % 4 * 16 + b / 16) / 16 ≡ a = omega arith in
    let y : (a % 4 * 16 + b / 16) % 16 * 16 + (b % 16 * 4 + c / 64) / 4 ≡ b = omega arith in
    let z : (b % 16 * 4 + c / 64) % 4 * 64 + c % 64 ≡ c = omega arith in rw (x, y, z) refl

-- What is encoded is decoded to the same bytes.
pub std_decode-encode : (b : List ℕ) → All (λ v. v < 256) b → std_decode (base64_encode b) ≡ b
unfolding std_decode base64_encode
std_decode-encode [] small = refl
std_decode-encode (a ∷ []) (la, small) =
    rw
      (
        codes-digit (a / 4) (concat (base64_digit (a % 4 * 16)) "==") (omega arith),
        codes-digit (a % 4 * 16) "==" (omega arith),
        two_pads,
        decode_one (a / 4) (a % 4 * 16) (omega arith) (omega arith),
      )
      (ap (λ n. n ∷ []) (omega arith))
std_decode-encode (a ∷ b ∷ []) (la, (lb, small)) =
    rw
      (
        codes-digit (a / 4)
            (concat (base64_digit (a % 4 * 16 + b / 16)) (concat (base64_digit (b % 16 * 4)) "="))
            (omega arith),
        codes-digit (a % 4 * 16 + b / 16) (concat (base64_digit (b % 16 * 4)) "=") (omega arith),
        codes-digit (b % 16 * 4) "=" (omega arith),
        one_pad,
        decode_two (a / 4) (a % 4 * 16 + b / 16) (b % 16 * 4) (omega arith) (omega arith)
            (omega arith),
      )
      (two_bytes a b la lb)
std_decode-encode (a ∷ b ∷ c ∷ rest) (la, (lb, (lc, small))) =
    rw
      (
        codes-digit (a / 4)
            (concat (base64_digit (a % 4 * 16 + b / 16)) (
              concat (base64_digit (b % 16 * 4 + c / 64))
                (concat (base64_digit (c % 64)) (base64_encode rest))))
            (omega arith),
        codes-digit (a % 4 * 16 + b / 16)
            (concat (base64_digit (b % 16 * 4 + c / 64))
              (concat (base64_digit (c % 64)) (base64_encode rest)))
            (omega arith),
        codes-digit (b % 16 * 4 + c / 64) (concat (base64_digit (c % 64)) (base64_encode rest))
            (omega arith),
        codes-digit (c % 64) (base64_encode rest) (omega arith),
        decode_whole (a / 4) (a % 4 * 16 + b / 16) (b % 16 * 4 + c / 64) (c % 64)
            (codes (base64_encode rest)) (omega arith) (omega arith) (omega arith) (omega arith),
        std_decode-encode rest small,
      )
      (three_bytes a b c rest la lb lc)
