-- ===== src/Play/Integrity/Attestation.antt =====
-- What the attestations and the nonces of wiltkey_server/play_integrity.go are good for.
use wilt_key.Prelude.{ℕ, ◌≡◌, ◌<◌, String, true, List, arith, length, All}
use wilt_key.Prelude.Text.{concat}
use wilt_key.Crypto.{Primitives, ok, bytes, verify_signature}
use wilt_key.Crypto.Hex.{hex_decode-encode}
use wilt_key.Play.Integrity.{
  PlayIntegrityVerifier, attestation_text, sign_attestation, public_key_hex,
}

abbrev pub IsBytes : List ℕ → Type 0
IsBytes b = All (λ v. v < 256) b

-- The documented behaviour of ed25519 for the relay's keys: a public key has 32 bytes, a signature
-- 64, and what the private key signs verifies under the public key.
abbrev pub IsKeyPair : Primitives → PlayIntegrityVerifier → Type 0
IsKeyPair p v =
    IsBytes v.relay_pub
    × (length v.relay_pub ≡ 32)
    × ((m : List ℕ)
        → IsBytes (p.ed25519_sign v.relay_priv m)
          × (length (p.ed25519_sign v.relay_priv m) ≡ 64)
          × (p.ed25519_verify v.relay_pub m (p.ed25519_sign v.relay_priv m) ≡ true))

-- An attestation verifies under the hexadecimal key that the relay shows with it.
pub verify-sign_attestation :
    (p : Primitives) (v : PlayIntegrityVerifier) (user_id client_type : String)
    (issued_at expires_at : ℕ)
    → IsKeyPair p v
    → verify_signature p
        (public_key_hex v)
        (sign_attestation p v user_id client_type issued_at expires_at)
        (bytes (attestation_text user_id client_type issued_at expires_at))
      ≡ ok true
unfolding verify_signature sign_attestation public_key_hex
verify-sign_attestation p v user_id client_type issued_at expires_at (key, size, signs) =
    let m = bytes (attestation_text user_id client_type issued_at expires_at) in
    let (sig, sig_size, sound) = signs m in
    ground (
      arith,
      hex_decode-encode v.relay_pub key,
      hex_decode-encode (p.ed25519_sign v.relay_priv m) sig,
      size,
      sig_size,
      sound,
    )

-- The bytes that a nonce of the relay stands for.
abbrev pub nonce_digest : Primitives → String → String → List ℕ
nonce_digest p server_nonce key_hash = p.sha256 (bytes (concat server_nonce (concat ":" key_hash)))
