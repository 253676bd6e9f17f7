-- ===== src/Db/DeviceTokens/Lifecycle.antt =====
-- The life of a device token.
use wilt_key.Prelude.{
  ℕ, ◌+◌, ◌*◌, ◌≤◌, ◌≡◌, ◌≢◌, ◌∙◌, ap, refl, String, true, false, not, ◌&&◌, Option, none, some,
  List, [], ◌∷◌, arith, ◌==◌, eq_iff, eq_refl, ltb, keep, if◌then◌else◌, Option-cases, inl, inr,
}
use wilt_key.Time.{hour}
use wilt_key.Db.{Db, DeviceToken}
use wilt_key.Db.Messages.{first}
use wilt_key.Db.DeviceTokens.{
  device_token_ttl, device_token_refresh_window, device_token, put_device_token, minted_row,
  mint_device_token, verify_row, verify_device_token, revoke_device_token,
}

first-keep :
    (u v : String) (ts : List DeviceToken)
    → u ≢ v
    → first (λ t. t.user_id == v) (keep (λ o. not (o.user_id == u)) ts)
      ≡ first (λ t. t.user_id == v) ts
first-keep u v [] h = refl
first-keep u v (t ∷ ts) h =
    ground (arith, first-keep u v ts h, eq_iff t.user_id u, eq_iff t.user_id v)

device_token-put :
    (db : Db) (t : DeviceToken) (v : String)
    → device_token (put_device_token db t) v
      ≡ (if t.user_id == v then some t else device_token db v)
unfolding device_token put_device_token
device_token-put db t v =
    ground (arith, first-keep t.user_id v db.device_tokens, eq_iff t.user_id v)

minted_row-user_id :
    (now : ℕ) (user_id token_hash : String) (o : Option DeviceToken)
    → (minted_row now user_id token_hash o).user_id ≡ user_id
unfolding minted_row
minted_row-user_id now user_id token_hash none = refl
minted_row-user_id now user_id token_hash (some t) = refl

pub device_token-mint :
    (db : Db) (now : ℕ) (user_id token_hash v : String)
    → device_token (mint_device_token db now user_id token_hash).1 v ≡ (
        if user_id == v
        then some (minted_row now user_id token_hash (device_token db user_id))
        else device_token db v)
device_token-mint db now user_id token_hash v =
    let row = minted_row now user_id token_hash (device_token db user_id) in
    unfold mint_device_token in
    device_token-put db row v
    ∙ ap (λ (u : String). if u == v then some row else device_token db v)
        (minted_row-user_id now user_id token_hash (device_token db user_id))

pub verify-row :
    (db : Db) (now : ℕ) (user_id token_hash : String) (t : DeviceToken)
    → device_token db user_id ≡ some t
    → verify_device_token db now user_id token_hash ≡ verify_row now token_hash t
verify-row db now user_id token_hash t e = unfold verify_device_token in ground arith

device_token-mint_self :
    (db : Db) (now : ℕ) (user_id token_hash : String)
    → device_token (mint_device_token db now user_id token_hash).1 user_id
      ≡ some (minted_row now user_id token_hash (device_token db user_id))
device_token-mint_self db now user_id token_hash =
    device_token-mint db now user_id token_hash user_id
    ∙ ap
        (λ b.
          if b
          then some (minted_row now user_id token_hash (device_token db user_id))
          else device_token db user_id)
        (eq_refl user_id)

fresh_row :
    (now later : ℕ) (user_id token_hash : String) (o : Option DeviceToken)
    → verify_row later token_hash (minted_row now user_id token_hash o) ≡ (
        if ltb later (now + device_token_ttl)
        then (true, ltb (now + device_token_ttl) (later + device_token_refresh_window))
        else (false, false))
unfolding verify_row minted_row
fresh_row now later user_id token_hash none = ground (arith, eq_refl token_hash)
fresh_row now later user_id token_hash (some t) = ground (arith, eq_refl token_hash)

-- A fresh token verifies for exactly sixty days from its mint, whatever was there before, and asks
-- for a refresh in the last seven of them.
pub verify-mint :
    (db : Db) (now later : ℕ) (user_id token_hash : String)
    → verify_device_token (mint_device_token db now user_id token_hash).1 later user_id token_hash
      ≡ (if ltb later (now + device_token_ttl)
          then (true, ltb (now + device_token_ttl) (later + device_token_refresh_window))
          else (false, false))
verify-mint db now later user_id token_hash =
    verify-row _ later user_id token_hash _ (device_token-mint_self db now user_id token_hash)
    ∙ fresh_row now later user_id token_hash (device_token db user_id)

rotated_row :
    (now later : ℕ) (user_id token_hash presented : String) (old : DeviceToken)
    → now ≤ later
    → presented ≢ token_hash
    → presented ≢ ""
    → (verify_row later presented (minted_row now user_id token_hash (some old))).0 ≡ (
        old.token_hash == presented
        && (ltb later (now + 24 * hour) && ltb later old.token_expires_at))
unfolding verify_row minted_row
rotated_row now later user_id token_hash presented old h fresh full =
    ground (
      arith,
      eq_iff token_hash presented,
      eq_iff old.token_hash presented,
      eq_iff old.token_hash "",
    )

-- After a rotation, a token other than the new one verifies exactly if it is the one rotated out,
-- within 24 hours of the rotation and before its own expiry: an expired token is not revived, and
-- an older one is dead at once.
pub verify-mint_old :
    (db : Db) (now later : ℕ) (user_id token_hash presented : String) (old : DeviceToken)
    → device_token db user_id ≡ some old
    → now ≤ later
    → presented ≢ token_hash
    → presented ≢ ""
    → (verify_device_token
        (mint_device_token db now user_id token_hash).1
        later
        user_id
        presented).0
      ≡ (old.token_hash == presented
          && (ltb later (now + 24 * hour) && ltb later old.token_expires_at))
verify-mint_old db now later user_id token_hash presented old e h fresh full =
    ap (λ r. r.0)
      (verify-row _ later user_id presented _ (
        device_token-mint_self db now user_id token_hash
        ∙ ap (λ o. some (minted_row now user_id token_hash o)) e))
    ∙ rotated_row now later user_id token_hash presented old h fresh full

revoked_row :
    (now at : ℕ) (token_hash : String) (t : DeviceToken)
    → verify_row now token_hash (record t { revoked_at = some at }) ≡ (false, false)
unfolding verify_row
revoked_row now at token_hash t = refl

first-user :
    (user_id : String) (ts : List DeviceToken) (t : DeviceToken)
    → first (λ o. o.user_id == user_id) ts ≡ some t
    → (t.user_id == user_id) ≡ true
first-user user_id [] t e = cc
first-user user_id (x ∷ ts) t e = ground (arith, first-user user_id ts t)

device_token-user :
    (db : Db) (user_id : String) (t : DeviceToken)
    → device_token db user_id ≡ some t
    → t.user_id ≡ user_id
unfolding device_token
device_token-user db user_id t e =
    (eq_iff t.user_id user_id).0 (first-user user_id db.device_tokens t e)

device_token-revoke :
    (db : Db) (now : ℕ) (user_id : String) (t : DeviceToken)
    → device_token db user_id ≡ some t
    → device_token (revoke_device_token db now user_id) user_id
      ≡ some (record t { revoked_at = some now })
device_token-revoke db now user_id t e =
    let same = device_token-user db user_id t e in
    let put = device_token-put db (record t { revoked_at = some now }) user_id in
    unfold revoke_device_token in ground (arith, put, same, e, eq_refl user_id)

-- After a revocation no token of the user verifies, at any time.
pub verify-revoke :
    (db : Db) (now later : ℕ) (user_id presented : String)
    → verify_device_token (revoke_device_token db now user_id) later user_id presented
      ≡ (false, false)
verify-revoke db now later user_id presented = elim (Option-cases (device_token db user_id)) [
  | inl e ↦ unfold verify_device_token revoke_device_token in ground arith
  | inr (t, e) ↦
      verify-row _ later user_id presented _ (device_token-revoke db now user_id t e)
      ∙ revoked_row later now presented t
]

-- Minting for one user changes no other user's verdicts.
pub verify-mint_other :
    (db : Db) (now later : ℕ) (user_id token_hash other presented : String)
    → user_id ≢ other
    → verify_device_token (mint_device_token db now user_id token_hash).1 later other presented
      ≡ verify_device_token db later other presented
unfolding verify_device_token
verify-mint_other db now later user_id token_hash other presented h =
    ground (arith, device_token-mint db now user_id token_hash other, eq_iff user_id other)
