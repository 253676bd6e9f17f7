-- ===== src/Crypto/Base64.antt =====
-- Go's encoding/base64, as wiltkey_server/play_integrity.go calls it: the standard encoding, and the
-- decoding in either alphabet with its error ignored, which leaves the bytes decoded before the error.
pub mod RoundTrip
use Prim.Native.Char.{Char, code}
use Prim.Native.String.{slice}
use wilt_key.Prelude.{
  ℕ, ◌+◌, ◌-◌, ◌*◌, ◌/◌, ◌%◌, String, Bool, true, false, not, ◌&&◌, ◌||◌, Option, none, some, List,
  [], ◌∷◌, ◌++◌, leb, eqb, keep, if◌then◌else◌,
}
use wilt_key.Prelude.Text.{concat}

unfoldable pub base64_digit : ℕ → String
base64_digit n = slice "ABCDEFGHIJKLMNOPQRSTUVWXYZabcdefghijklmnopqrstuvwxyz0123456789+/" n (n + 1)

-- base64.StdEncoding.EncodeToString
unfoldable pub base64_encode : List ℕ → String
unfolding base64_digit
base64_encode [] = ""
base64_encode (a ∷ []) = concat (base64_digit (a / 4)) (concat (base64_digit (a % 4 * 16)) "==")
base64_encode (a ∷ b ∷ []) =
    concat (base64_digit (a / 4))
      (concat (base64_digit (a % 4 * 16 + b / 16)) (concat (base64_digit (b % 16 * 4)) "="))
base64_encode (a ∷ b ∷ c ∷ rest) = concat (base64_digit (a / 4)) (
    concat (base64_digit (a % 4 * 16 + b / 16)) (
      concat (base64_digit (b % 16 * 4 + c / 64))
        (concat (base64_digit (c % 64)) (base64_encode rest))))

-- The value of a character, by its code, given the two characters of the values 62 and 63.
unfoldable pub base64_value : ℕ → ℕ → ℕ → Option ℕ
base64_value c62 c63 c =
    if leb 65 c && leb c 90
    then some (c - 65)
    else if leb 97 c && leb c 122
    then some (c - 97 + 26)
    else if leb 48 c && leb c 57
    then some (c - 48 + 52)
    else if eqb c c62
    then some 62
    else if eqb c c63
    then some 63
    else none

abbrev pub pad : ℕ
pad = 61

-- The codes of the characters, without line ends.
unfoldable pub codes : String → List ℕ
codes String.[] = []
codes (String.◌∷◌ c s) =
    let rest = codes s in if eqb (code c) 10 || eqb (code c) 13 then rest else code c ∷ rest

-- The bytes of a last quantum, which is padded; none where it is malformed.
abbrev pub last_quantum : Option ℕ → Option ℕ → Option ℕ → ℕ → ℕ → List ℕ
last_quantum (some a) (some b) none c d =
    if eqb c pad && eqb d pad then (a * 4 + b / 16) ∷ [] else []
last_quantum (some a) (some b) (some v) c d =
    if eqb d pad then (a * 4 + b / 16) ∷ (b % 16 * 16 + v / 4) ∷ [] else []
last_quantum _ _ _ c d = []

abbrev pub whole_quantum : Option ℕ → Option ℕ → Option ℕ → Option ℕ → Option (List ℕ)
whole_quantum (some a) (some b) (some c) (some d) =
    some ((a * 4 + b / 16) ∷ (b % 16 * 16 + c / 4) ∷ (c % 4 * 64 + d) ∷ [])
whole_quantum _ _ _ _ = none

unfoldable pub decode_quanta : (ℕ → Option ℕ) → List ℕ → List ℕ
decode_quanta value (a ∷ b ∷ c ∷ d ∷ rest) =
    let more = decode_quanta value rest in
    elim (whole_quantum (value a) (value b) (value c) (value d)) [
      | some bytes ↦ bytes ++ more
      | none ↦ last_quantum (value a) (value b) (value c) c d
    ]
decode_quanta value _ = []

-- base64.StdEncoding.DecodeString and base64.URLEncoding.DecodeString
unfoldable pub std_decode : String → List ℕ
unfolding codes decode_quanta base64_value
std_decode s = decode_quanta (base64_value 43 47) (codes s)

unfoldable pub url_decode : String → List ℕ
unfolding codes decode_quanta base64_value
url_decode s = decode_quanta (base64_value 45 95) (codes s)
