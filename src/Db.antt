-- ===== src/Db.antt =====
-- The tables of wiltkey_server/db.go (runMigrations) as lists of rows, in the order of insertion,
-- which is that of `created_at`. Each statement is one step; what Postgres itself may refuse is the
-- fault of the call, which the handlers are given.
pub mod Messages
pub mod Entitlements
pub mod DeviceTokens
pub mod Social
use wilt_key.Prelude.{ℕ, String, Option, List, []}

pub record PgMessage : Type 0 where
  pub id : String
  pub recipient_id : String
  pub sender_id : String
  pub envelope : Option String
  pub bucket_url : Option String
  pub content_type : String
  pub expires_at : ℕ
  pub size_bytes : ℕ
  pub offer_meta : String

pub record PgEntitlement : Type 0 where
  pub user_id : String
  pub verification_key_hash : String
  pub expires_at : ℕ

pub record PgClientAttestation : Type 0 where
  pub user_id : String
  pub client_type : String
  pub issued_at : ℕ
  pub expires_at : ℕ
  pub cert_sig : String
  pub relay_pubkey : String

pub record PgStory : Type 0 where
  pub id : String
  pub sender_id : String
  pub story_type : String
  pub ciphertext_b64 : String
  pub bucket_url : Option String
  pub media_meta : String
  pub created_at : ℕ
  pub expires_at : ℕ
  pub bytes_used : ℕ

pub record PgStoryReaction : Type 0 where
  pub id : String
  pub story_id : String
  pub reactor_id : String
  pub emoji : String
  pub created_at : ℕ

pub record PgSocialBudget : Type 0 where
  pub user_id : String
  pub bytes_used : ℕ
  pub week_start : ℕ
  pub updated_at : ℕ

-- A row of device_tokens; `revoked_at` is NULL unless the token was revoked.
pub record DeviceToken : Type 0 where
  pub user_id : String
  pub token_hash : String
  pub prev_token_hash : String
  pub token_expires_at : ℕ
  pub prev_expires_at : ℕ
  pub created_at : ℕ
  pub last_seen_at : ℕ
  pub revoked_at : Option ℕ

pub record Db : Type 0 where
  pub messages : List PgMessage
  pub entitlements : List PgEntitlement
  pub client_attestations : List PgClientAttestation
  pub stories : List PgStory
  pub story_reactions : List PgStoryReaction
  pub social_budgets : List PgSocialBudget
  pub device_tokens : List DeviceToken

abbrev pub empty_db : Db
empty_db = record {
  messages = [];
  entitlements = [];
  client_attestations = [];
  stories = [];
  story_reactions = [];
  social_budgets = [];
  device_tokens = [];
}
