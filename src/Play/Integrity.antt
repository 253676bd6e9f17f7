-- ===== src/Play/Integrity.antt =====
-- The verifier of wiltkey_server/play_integrity.go: its verdict on a token, its nonce, and the
-- attestations that it signs.
pub mod Attestation
use wilt_key.Prelude.{
  ℕ, ◌*◌, String, Bool, true, false, not, ◌&&◌, ◌||◌, Option, none, some, List, [], ◌∷◌, ◌==◌, eqb,
  any, if◌then◌else◌,
}
use wilt_key.Prelude.Text.{concat}
use wilt_key.Time.{day, minute}
use wilt_key.Crypto.{Primitives, Result, ok, err, decimal, bytes, hex_encode}
use wilt_key.Crypto.Base64.{base64_encode, std_decode, url_decode}
use wilt_key.Play.{Answer, unreachable, answered, IntegrityPayload, Google, TokenSource, get}

abbrev pub attestation_ttl : ℕ
attestation_ttl = 7 * day

abbrev pub challenge_ttl : ℕ
challenge_ttl = 5 * minute

pub record PlayIntegrityVerifier : Type 0 where
  pub enabled : Bool
  pub package_name : String
  pub tokens : TokenSource
  pub relay_priv : List ℕ
  pub relay_pub : List ℕ

unfoldable pub bytes_equal : List ℕ → List ℕ → Bool
bytes_equal [] [] = true
bytes_equal (a ∷ as_) (b ∷ bs) = eqb a b && bytes_equal as_ bs
bytes_equal _ _ = false

abbrev pub is_empty : List ℕ → Bool
is_empty [] = true
is_empty (b ∷ bs) = false

-- The bytes of a nonce in either alphabet.
unfoldable pub nonce_bytes : String → List ℕ
unfolding std_decode url_decode
nonce_bytes s = if is_empty (std_decode s) then url_decode s else std_decode s

unfoldable pub nonce_matches : String → String → Bool
unfolding nonce_bytes bytes_equal
nonce_matches actual expected =
    if actual == expected
    then true
    else not (
        is_empty (nonce_bytes actual)
        || (is_empty (nonce_bytes expected)
            || not (bytes_equal (nonce_bytes actual) (nonce_bytes expected))))

unfoldable pub meets_integrity : List String → Bool
meets_integrity verdicts =
    any
      (λ dv.
        dv == "MEETS_DEVICE_INTEGRITY"
        || (dv == "MEETS_STRONG_INTEGRITY" || dv == "MEETS_BASIC_INTEGRITY"))
      verdicts

-- fmt's %v of a list of texts, without the brackets.
unfoldable pub spaced : List String → String
spaced [] = ""
spaced (s ∷ []) = s
spaced (s ∷ t ∷ rest) = concat s (concat " " (spaced (t ∷ rest)))

-- The four checks of a decoded payload.
unfoldable pub check_payload : String → String → IntegrityPayload → Result Bool
unfolding nonce_matches meets_integrity spaced
check_payload package_name expected_nonce payload =
    if not (payload.request_package_name == package_name)
    then err (
        concat "package name mismatch: got "
          (concat payload.request_package_name (concat ", expected " package_name)))
    else if not (nonce_matches payload.nonce expected_nonce)
    then err
        (concat "nonce mismatch: got " (concat payload.nonce (concat ", expected " expected_nonce)))
    else if not (payload.app_recognition_verdict == "PLAY_RECOGNIZED")
    then err (
        concat "app recognition verdict is "
          (concat payload.app_recognition_verdict " (expected PLAY_RECOGNIZED)"))
    else if not (meets_integrity payload.device_recognition_verdict)
    then err (
        concat "device integrity failed: verdicts=["
          (concat (spaced payload.device_recognition_verdict) "]"))
    else ok true

abbrev pub check_decoded : String → String → Option IntegrityPayload → Result Bool
check_decoded package_name expected_nonce none = err "unmarshal response"
check_decoded package_name expected_nonce (some payload) = elim payload.error [
  | some (message, code) ↦ err (
      concat "play integrity error: "
        (concat message (concat " (code " (concat (decimal code) ")"))))
  | none ↦ check_payload package_name expected_nonce payload
]

unfoldable pub check_answer : String → String → Answer IntegrityPayload → Result Bool
unfolding check_payload
check_answer package_name expected_nonce (unreachable e) =
    err (concat "call play integrity api: " e)
check_answer package_name expected_nonce (answered status body (some e) decoded) =
    err (concat "read response: " e)
check_answer package_name expected_nonce (answered status body none decoded) =
    if not (eqb status 200)
    then err (concat "google api returned status " (concat (decimal status) (concat ": " body)))
    else check_decoded package_name expected_nonce decoded

abbrev pub ask : Google → PlayIntegrityVerifier → String → String → Result String → Result Bool
ask google v token expected_nonce (err e) = err (concat "failed to obtain Google access token: " e)
ask google v token expected_nonce (ok access_token) =
    check_answer v.package_name expected_nonce
      (google.decode_integrity_token v.package_name token access_token)

-- The verdict, and the verifier with what its token source caches.
unfoldable pub verify_integrity_token :
    Google → ℕ → PlayIntegrityVerifier → String → String → Result Bool × PlayIntegrityVerifier
unfolding get check_answer
verify_integrity_token google now v token expected_nonce =
    if not v.enabled then (err "play integrity verifier is not enabled on this relay", v) else (
      ask google v token expected_nonce (get google now v.tokens).0,
      record v { tokens = (get google now v.tokens).1 },
    )

-- The text that an attestation signs.
abbrev pub attestation_text : String → String → ℕ → ℕ → String
attestation_text user_id client_type issued_at expires_at = concat "WILTKEY_ATTESTATION:" (
    concat user_id (
      concat ":" (
        concat client_type
          (concat ":" (concat (decimal issued_at) (concat ":" (decimal expires_at)))))))

unfoldable pub sign_attestation :
    Primitives → PlayIntegrityVerifier → String → String → ℕ → ℕ → String
sign_attestation p v user_id client_type issued_at expires_at = hex_encode (
    p.ed25519_sign v.relay_priv (bytes (attestation_text user_id client_type issued_at expires_at)))

unfoldable pub public_key_hex : PlayIntegrityVerifier → String
public_key_hex v = hex_encode v.relay_pub

unfoldable pub compute_integrity_nonce : Primitives → String → String → String
unfolding base64_encode
compute_integrity_nonce p server_nonce key_hash =
    base64_encode (p.sha256 (bytes (concat server_nonce (concat ":" key_hash))))
