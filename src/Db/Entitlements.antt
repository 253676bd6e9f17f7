-- ===== src/Db/Entitlements.antt =====
-- The entitlements and client_attestations tables of wiltkey_server/db.go.
pub mod Rows
use wilt_key.Prelude.{ℕ, String, not, ◌&&◌, Option, ◌∷◌, ◌==◌, ltb, keep}
use wilt_key.Db.{Db, PgEntitlement, PgClientAttestation}
use wilt_key.Db.Messages.{first}

-- INSERT … ON CONFLICT (user_id) DO UPDATE
unfoldable pub store_entitlement : Db → String → String → ℕ → Db
store_entitlement db user_id verification_key_hash expires_at = record db {
  entitlements =
      record {
        user_id = user_id;
        verification_key_hash = verification_key_hash;
        expires_at = expires_at;
      }
      ∷ keep (λ e. not (e.user_id == user_id)) db.entitlements;
}

unfoldable pub get_entitlement : Db → ℕ → String → Option PgEntitlement
get_entitlement db now user_id =
    first (λ e. e.user_id == user_id && ltb now e.expires_at) db.entitlements

unfoldable pub store_client_attestation : Db → String → String → ℕ → ℕ → String → String → Db
store_client_attestation db user_id client_type issued_at expires_at cert_sig relay_pubkey =
    record db {
      client_attestations =
          record {
            user_id = user_id;
            client_type = client_type;
            issued_at = issued_at;
            expires_at = expires_at;
            cert_sig = cert_sig;
            relay_pubkey = relay_pubkey;
          }
          ∷ keep (λ a. not (a.user_id == user_id)) db.client_attestations;
    }

unfoldable pub get_client_attestation : Db → ℕ → String → Option PgClientAttestation
get_client_attestation db now user_id =
    first (λ a. a.user_id == user_id && ltb now a.expires_at) db.client_attestations
