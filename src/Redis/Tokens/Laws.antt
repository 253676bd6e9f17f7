-- ===== src/Redis/Tokens/Laws.antt =====
-- What a stored token resolves to, in wiltkey_server/redis.go.
use Prim.Native.Char.{Char}
use text.Mathlib.TextLemmas.{nil-append, cons-append}
use wilt_key.Prelude.{
  ℕ, ◌+◌, ◌≤◌, ◌≡◌, ◌∙◌, ap, String, none, some, arith, eq_refl, leb, if◌then◌else◌,
}
use wilt_key.Prelude.Text.{concat}
use wilt_key.Prelude.GoMap.{lookup, lookup-insert_self, lookup-delete}
use wilt_key.Redis.{RedisClient}
use wilt_key.Redis.Blocks.{block_queue, nuke_block_ttl}
use wilt_key.Redis.Tokens.{
  split_last_colon, store_file_token, get_file_token, file_token_ttl, store_entitlement,
  get_entitlement_hash, store_integrity_nonce, get_integrity_nonce, delete_integrity_nonce,
}

split-cons :
    (c : Char) (s a b : String)
    → split_last_colon s ≡ some (a, b)
    → split_last_colon (String.◌∷◌ c s) ≡ some (String.◌∷◌ c a, b)
unfolding split_last_colon
split-cons c s a b e = rw (e, split_last_colon)

colon-cons : (t : String) → concat ":" t ≡ String.◌∷◌ ":" t
colon-cons t = cons-append ":" "" t ∙ ap (String.◌∷◌ ":") (nil-append t)

split-colon :
    (t : String) → split_last_colon t ≡ none → split_last_colon (String.◌∷◌ ":" t) ≡ some ("", t)
unfolding split_last_colon
split-colon t h = rw (h, split_last_colon)

-- The last colon of `s:t` stands before a `t` with no colon.
pub split-concat :
    (s t : String)
    → split_last_colon t ≡ none
    → split_last_colon (concat s (concat ":" t)) ≡ some (s, t)
split-concat String.[] t h = rw (nil-append (concat ":" t), colon-cons t) (split-colon t h)
split-concat (String.◌∷◌ c s) t h =
    rw (cons-append c s (concat ":" t))
      (split-cons c (concat s (concat ":" t)) s t (split-concat s t h))

-- A download token resolves to the message and the user it was stored for through its ten minutes,
-- and to nothing after that. The user id has no colon.
pub get-store_file_token :
    (r : RedisClient) (now later : ℕ) (token message_id user_id : String)
    → split_last_colon user_id ≡ none
    → get_file_token (store_file_token r now token message_id user_id) later token
      ≡ (if leb later (now + file_token_ttl) then (message_id, user_id) else ("", ""))
unfolding get_file_token store_file_token
get-store_file_token r now later token message_id user_id h = ground (
  arith,
  lookup-insert_self r.memory_blocks (concat "filetok:" token) (now + file_token_ttl),
  lookup-insert_self r.memory_tunnels (concat "filetok:" token)
      (concat message_id (concat ":" user_id)),
  split-concat message_id user_id h,
)

-- A cached entitlement is returned through its time to live, and not after.
pub get-store_entitlement :
    (r : RedisClient) (now later : ℕ) (user_id hash : String) (ttl : ℕ)
    → get_entitlement_hash (store_entitlement r now user_id hash ttl) later user_id
      ≡ (if leb later (now + ttl) then hash else "")
unfolding get_entitlement_hash store_entitlement
get-store_entitlement r now later user_id hash ttl = ground (
  arith,
  lookup-insert_self r.memory_blocks (concat "entitlement:" user_id) (now + ttl),
  lookup-insert_self r.memory_entitlements user_id hash,
)

-- An integrity nonce is returned through its time to live, not after, and not once deleted.
pub get-store_integrity_nonce :
    (r : RedisClient) (now later : ℕ) (key_hash nonce : String) (ttl : ℕ)
    → get_integrity_nonce (store_integrity_nonce r now key_hash nonce ttl) later key_hash
      ≡ (if leb later (now + ttl) then nonce else "")
unfolding get_integrity_nonce store_integrity_nonce
get-store_integrity_nonce r now later key_hash nonce ttl = ground (
  arith,
  lookup-insert_self r.memory_blocks (concat "integrity_nonce:" key_hash) (now + ttl),
  lookup-insert_self r.memory_entitlements (concat "integrity_nonce:" key_hash) nonce,
)

pub get-delete_integrity_nonce :
    (r : RedisClient) (later : ℕ) (key_hash : String)
    → get_integrity_nonce (delete_integrity_nonce r key_hash) later key_hash ≡ ""
unfolding get_integrity_nonce delete_integrity_nonce
get-delete_integrity_nonce r later key_hash = ground (
  arith,
  lookup-delete r.memory_blocks (concat "integrity_nonce:" key_hash)
      (concat "integrity_nonce:" key_hash),
  eq_refl (concat "integrity_nonce:" key_hash),
)

-- Through its 24 hours, a nuke lock on the queue of the name `entitlement:U` renews the expired cache of U's entitlement:
-- the in-memory maps share one key space.
pub block-revives_entitlement :
    (r : RedisClient) (now later : ℕ) (user_id hash : String)
    → lookup r.memory_entitlements user_id ≡ some hash
    → later ≤ now + nuke_block_ttl
    → get_entitlement_hash (block_queue r now (concat "entitlement:" user_id)) later user_id ≡ hash
unfolding get_entitlement_hash block_queue
block-revives_entitlement r now later user_id hash e h = ground (
  arith,
  lookup-insert_self r.memory_blocks (concat "entitlement:" user_id) (now + nuke_block_ttl),
)
