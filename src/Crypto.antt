-- ===== src/Crypto.antt =====
-- wiltkey_server/auth.go, voucher.go, pow.go and internal/cryptoops/cryptoops.go. SHA-256 and
-- Ed25519 are a parameter.
pub mod Puzzle
pub mod Hex
pub mod Decimal
pub mod Base64
use Prim.Native.Char.{Char, code}
use Prim.Native.String.{slice}
use wilt_key.Prelude.{
  ℕ, zero, suc, ◌+◌, ◌-◌, ◌*◌, ◌/◌, ◌%◌, String, Bool, true, false, not, ◌&&◌, Option, none, some,
  List, [], ◌∷◌, ◌++◌, ◌==◌, ltb, leb, eqb, length, if◌then◌else◌,
}
use wilt_key.Prelude.Text.{concat}
use wilt_key.Prelude.GoMap.{value_or}
use wilt_key.Time.{unix}

-- A Go value with an error: `err` holds the error's text.
pub data Result {ℓ} (A : Type ℓ) : Type ℓ where
  ok : A → Result A
  err : String → Result A

-- sha256.Sum256, ed25519.Verify (public key, message, signature) and ed25519.Sign (private key,
-- message).
pub record Primitives : Type 0 where
  pub sha256 : List ℕ → List ℕ
  pub ed25519_verify : List ℕ → List ℕ → List ℕ → Bool
  pub ed25519_sign : List ℕ → List ℕ → List ℕ

-- []byte(s): the UTF-8 encoding of one code point, and of a text.
unfoldable pub utf8_char : ℕ → List ℕ
utf8_char c =
    if ltb c 128
    then c ∷ []
    else if ltb c 2048
    then (192 + c / 64) ∷ (128 + c % 64) ∷ []
    else if ltb c 65536
    then (224 + c / 4096) ∷ (128 + c / 64 % 64) ∷ (128 + c % 64) ∷ []
    else (240 + c / 262144) ∷ (128 + c / 4096 % 64) ∷ (128 + c / 64 % 64) ∷ (128 + c % 64) ∷ []

unfoldable pub bytes : String → List ℕ
unfolding utf8_char
bytes String.[] = []
bytes (String.◌∷◌ c s) = utf8_char (code c) ++ bytes s

-- hexDigits[n]
unfoldable pub hex_digit : ℕ → String
hex_digit n = slice "0123456789abcdef" n (n + 1)

unfoldable pub hex_encode : List ℕ → String
unfolding hex_digit
hex_encode [] = ""
hex_encode (v ∷ b) = concat (hex_digit (v / 16)) (concat (hex_digit (v % 16)) (hex_encode b))

-- The value of a hexadecimal digit, in either case.
unfoldable pub from_hex_char : ℕ → Option ℕ
from_hex_char c =
    if leb 48 c && leb c 57
    then some (c - 48)
    else if leb 97 c && leb c 102
    then some (c - 97 + 10)
    else if leb 65 c && leb c 70
    then some (c - 65 + 10)
    else none

abbrev push_byte : Option ℕ → Option ℕ → Option (List ℕ) → Option (List ℕ)
push_byte (some a) (some b) (some rest) = some ((a * 16 + b) ∷ rest)
push_byte _ _ _ = none

-- hex.DecodeString, `none` for its error.
unfoldable pub hex_decode : String → Option (List ℕ)
unfolding from_hex_char
hex_decode String.[] = some []
hex_decode (String.◌∷◌ c String.[]) = none
hex_decode (String.◌∷◌ c (String.◌∷◌ d s)) =
    push_byte (from_hex_char (code c)) (from_hex_char (code d)) (hex_decode s)

-- fmt's %d, least digit last. An int64 has at most nineteen digits.
unfoldable pub digits : ℕ → ℕ → String → String
unfolding hex_digit
digits zero n acc = acc
digits (suc fuel) n acc =
    let rest = digits fuel (n / 10) (concat (hex_digit (n % 10)) acc) in
    if ltb n 10 then concat (hex_digit n) acc else rest

unfoldable pub decimal : ℕ → String
unfolding digits
decimal n = digits 20 n ""

abbrev pub public_key_size : ℕ
public_key_size = 32

abbrev pub signature_size : ℕ
signature_size = 64

module _ (p : Primitives) where
  abbrev pub sha256_hex : List ℕ → String
  sha256_hex b = hex_encode (p.sha256 b)

  unfoldable pub generate_user_id : List ℕ → String
  generate_user_id pub_key_bytes = sha256_hex pub_key_bytes

  unfoldable pub verify_signature : String → String → List ℕ → Result Bool
  verify_signature pub_key_hex sig_hex message = elim (hex_decode pub_key_hex) [
    | none ↦ err "invalid public key hex"
    | some pub_key_bytes ↦
        if not (eqb (length pub_key_bytes) public_key_size)
        then err "invalid public key size for ed25519"
        else elim (hex_decode sig_hex) [
          | none ↦ err "invalid signature hex"
          | some sig_bytes ↦
              if not (eqb (length sig_bytes) signature_size)
              then err "invalid signature size for ed25519"
              else ok (p.ed25519_verify pub_key_bytes message sig_bytes)
        ]
  ]

pub record Voucher : Type 0 where
  pub recipient_public_key : String
  pub sender_key_hash : String
  pub expiry : ℕ
  pub signature : String

unfoldable pub verify_voucher : Primitives → ℕ → String → Voucher → Result Bool
unfolding verify_signature
verify_voucher p now recipient_id v =
    if ltb v.expiry (unix now)
    then err "voucher expired"
    else elim (hex_decode v.recipient_public_key) [
      | none ↦ err "invalid recipient public key format"
      | some pub_bytes ↦
          if not (sha256_hex p pub_bytes == recipient_id)
          then err "recipient public key does not match recipient ID"
          else verify_signature p v.recipient_public_key v.signature
              (bytes (concat v.sender_key_hash (concat ":" (decimal v.expiry))))
    ]

-- strings.Repeat("0", n)
unfoldable pub zeros : ℕ → String
zeros zero = ""
zeros (suc n) = concat "0" (zeros n)

-- strings.HasPrefix(s, p)
unfoldable pub has_prefix : String → String → Bool
has_prefix s String.[] = true
has_prefix String.[] (String.◌∷◌ d p) = false
has_prefix (String.◌∷◌ c s) (String.◌∷◌ d p) = eqb (code c) (code d) && has_prefix s p

unfoldable pub verify_pow : Primitives → String → ℕ → String → ℕ → Bool
unfolding zeros has_prefix
verify_pow p challenge nonce payload difficulty =
    has_prefix (sha256_hex p (bytes (concat challenge (concat (decimal nonce) payload))))
      (zeros difficulty)

abbrev pub puzzle_strips : ℕ
puzzle_strips = 5

-- sum[0]
abbrev pub head : List ℕ → ℕ
head [] = 0
head (b ∷ bs) = b

unfoldable pub puzzle_answer_from_seed : Primitives → String → ℕ → ℕ
puzzle_answer_from_seed p seed strips =
    if leb strips 0
    then 0
    else (let k = head (p.sha256 (bytes (concat seed "k"))) % strips in
        if eqb k 0 then 0 else strips - k)
