-- ===== src/Db/Entitlements/Rows.antt =====
-- The rows of the entitlements and client_attestations tables of wiltkey_server/db.go are found
-- again.
use wilt_key.Prelude.{
  ℕ, ◌≡◌, refl, String, Bool, not, ◌&&◌, none, some, List, [], ◌∷◌, ◌==◌, eq_refl, arith, ltb, keep,
  if◌then◌else◌,
}
use wilt_key.Db.{Db, PgEntitlement, PgClientAttestation}
use wilt_key.Db.Messages.{first}
use wilt_key.Db.Entitlements.{
  store_entitlement, get_entitlement, store_client_attestation, get_client_attestation,
}

-- Among rows that are of other users, none is found.
first-others {ℓ} :
    {A : Type ℓ} (key : A → String) (fresh : A → Bool) (u : String) (rows : List A)
    → first (λ e. key e == u && fresh e) (keep (λ e. not (key e == u)) rows) ≡ none
first-others key fresh u [] = refl
first-others key fresh u (x ∷ rows) = ground (arith, first-others key fresh u rows)

-- The attestation that was stored last is found until it expires.
pub get-store_client_attestation :
    (db : Db) (later : ℕ) (user_id client_type : String) (issued_at expires_at : ℕ)
    (cert_sig relay_pubkey : String)
    → get_client_attestation
        (store_client_attestation db user_id client_type issued_at expires_at cert_sig relay_pubkey)
        later
        user_id
      ≡ (if ltb later expires_at
          then some (record {
            user_id = user_id;
            client_type = client_type;
            issued_at = issued_at;
            expires_at = expires_at;
            cert_sig = cert_sig;
            relay_pubkey = relay_pubkey;
          })
          else none)
unfolding get_client_attestation store_client_attestation
get-store_client_attestation db later user_id client_type issued_at expires_at cert_sig
      relay_pubkey =
    ground (
      arith,
      eq_refl user_id,
      first-others (λ (a : PgClientAttestation). a.user_id) (λ a. ltb later a.expires_at) user_id
          db.client_attestations,
    )

-- And so is the entitlement.
pub get-store_entitlement :
    (db : Db) (later : ℕ) (user_id hash : String) (expires_at : ℕ)
    → get_entitlement (store_entitlement db user_id hash expires_at) later user_id ≡ (
        if ltb later expires_at
        then some
            (record { user_id = user_id; verification_key_hash = hash; expires_at = expires_at })
        else none)
unfolding get_entitlement store_entitlement
get-store_entitlement db later user_id hash expires_at = ground (
  arith,
  eq_refl user_id,
  first-others (λ (e : PgEntitlement). e.user_id) (λ e. ltb later e.expires_at) user_id
      db.entitlements,
)
