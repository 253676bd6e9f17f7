-- ===== src/Db/DeviceTokens.antt =====
-- The device tokens of wiltkey_server/db.go. A token is known by its SHA-256 in hexadecimal, which
-- the functions below take in the token's place as `token_hash`.
pub mod Lifecycle
use wilt_key.Prelude.{
  ℕ, ◌+◌, ◌-◌, ◌*◌, ◌/◌, String, Bool, true, false, not, ◌&&◌, Option, none, some, List, [], ◌∷◌,
  ◌==◌, ltb, leb, keep, min, max, if◌then◌else◌,
}
use wilt_key.Time.{day, hour}
use wilt_key.Db.{Db, DeviceToken}
use wilt_key.Db.Messages.{first, is_some}

abbrev pub device_token_ttl : ℕ
device_token_ttl = 60 * day

abbrev pub device_token_refresh_window : ℕ
device_token_refresh_window = 7 * day

abbrev pub device_token_overlap : ℕ
device_token_overlap = 24 * hour

-- The row of a user, whose id is the primary key.
unfoldable pub device_token : Db → String → Option DeviceToken
device_token db user_id = first (λ t. t.user_id == user_id) db.device_tokens

unfoldable pub put_device_token : Db → DeviceToken → Db
put_device_token db t = record db {
  device_tokens = t ∷ keep (λ o. not (o.user_id == t.user_id)) db.device_tokens;
}

-- The row that the statement leaves: a first insert, or the rotation.
unfoldable pub minted_row : ℕ → String → String → Option DeviceToken → DeviceToken
minted_row now user_id token_hash none = record {
  user_id = user_id;
  token_hash = token_hash;
  prev_token_hash = "";
  token_expires_at = now + device_token_ttl;
  prev_expires_at = now;
  created_at = now;
  last_seen_at = now;
  revoked_at = none;
}
minted_row now user_id token_hash (some old) = record old {
  user_id = user_id;
  prev_token_hash = old.token_hash;
  prev_expires_at = min (now + 24 * hour) (max old.token_expires_at now);
  token_hash = token_hash;
  token_expires_at = now + device_token_ttl;
  last_seen_at = now;
  revoked_at = none;
}

-- The new expiry, and the table.
unfoldable pub mint_device_token : Db → ℕ → String → String → ℕ × Db
unfolding minted_row put_device_token device_token
mint_device_token db now user_id token_hash = (
  now + device_token_ttl,
  put_device_token db (minted_row now user_id token_hash (device_token db user_id)),
)

-- Valid, and near expiry, by the user's row.
unfoldable pub verify_row : ℕ → String → DeviceToken → Bool × Bool
verify_row now token_hash t =
    if is_some t.revoked_at
    then (false, false)
    else if t.token_hash == token_hash
    then (if ltb now t.token_expires_at
        then (true, ltb (t.token_expires_at - now) device_token_refresh_window)
        else (false, false))
    else if not (t.prev_token_hash == "")
        && t.prev_token_hash == token_hash
        && ltb now t.prev_expires_at
    then (true, ltb (t.prev_expires_at - now) (device_token_overlap / 2))
    else (false, false)

unfoldable pub verify_device_token : Db → ℕ → String → String → Bool × Bool
unfolding verify_row device_token
verify_device_token db now user_id token_hash = elim (device_token db user_id) [
  | none ↦ (false, false)
  | some t ↦ verify_row now token_hash t
]

unfoldable pub touch_device_token : Db → ℕ → String → Db
unfolding put_device_token device_token
touch_device_token db now user_id = elim (device_token db user_id) [
  | none ↦ db
  | some t ↦ put_device_token db (record t { last_seen_at = now })
]

unfoldable pub revoke_device_token : Db → ℕ → String → Db
unfolding put_device_token device_token
revoke_device_token db now user_id = elim (device_token db user_id) [
  | none ↦ db
  | some t ↦ put_device_token db (record t { revoked_at = some now })
]
