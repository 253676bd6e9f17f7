-- ===== src/Redis/Server/Values.antt =====
-- The keyed values of wiltkey_server/redis.go over a Redis server.
use wilt_key.Prelude.{ℕ, ◌*◌, String, Option, none, some}
use wilt_key.Prelude.Text.{concat}
use wilt_key.Time.{hour}
use wilt_key.Redis.Tokens.{file_token_ttl, split_last_colon, or_empty}
use wilt_key.Redis.Server.{Commands}

abbrev pub push_token_ttl : ℕ
push_token_ttl = 60 * (24 * hour)

unfoldable pub set_push_token : {S : Type 0} → Commands S → S → ℕ → String → String → S
set_push_token c s now user_id token = c.set s now (concat "push:" user_id) token push_token_ttl

unfoldable pub get_push_token : {S : Type 0} → Commands S → S → ℕ → String → String
get_push_token c s now user_id = or_empty (c.get s now (concat "push:" user_id))

unfoldable pub delete_push_token : {S : Type 0} → Commands S → S → String → S
delete_push_token c s user_id = c.del s (concat "push:" user_id)

unfoldable pub store_pairing : {S : Type 0} → Commands S → S → ℕ → String → String → ℕ → S
store_pairing c s now pin payload ttl = c.set s now (concat "pair:" pin) payload ttl

-- `none` is the error "pairing expired or invalid".
unfoldable pub get_pairing : {S : Type 0} → Commands S → S → ℕ → String → Option String
get_pairing c s now pin = c.get s now (concat "pair:" pin)

unfoldable pub delete_pairing : {S : Type 0} → Commands S → S → String → S
delete_pairing c s pin = c.del s (concat "pair:" pin)

abbrev pub tunnel_key : String → String
tunnel_key pubkey = concat "tunnel:" pubkey

abbrev pub tunnel_bytes_key : String → String
tunnel_bytes_key tunnel_id = concat "tunnel_bytes:" tunnel_id

unfoldable pub create_tunnel : {S : Type 0} → Commands S → S → ℕ → String → String → ℕ → S
create_tunnel c s now pubkey_a pubkey_b ttl =
    c.set (c.set s now (tunnel_key pubkey_a) pubkey_b ttl) now (tunnel_key pubkey_b) pubkey_a ttl

-- `none` is the error "tunnel not found".
unfoldable pub get_tunnel_partner : {S : Type 0} → Commands S → S → ℕ → String → Option String
get_tunnel_partner c s now pubkey = c.get s now (tunnel_key pubkey)

unfoldable pub increment_tunnel_bytes : {S : Type 0} → Commands S → S → ℕ → String → ℕ → ℕ × S
increment_tunnel_bytes c s now tunnel_id bytes =
    let (total, s') = c.incr_by s now (tunnel_bytes_key tunnel_id) bytes in
    (total, c.expire s' now (tunnel_bytes_key tunnel_id) (1 * hour))

unfoldable pub delete_tunnel : {S : Type 0} → Commands S → S → String → String → S
delete_tunnel c s pubkey_a pubkey_b =
    let s' = c.del (c.del s (tunnel_key pubkey_a)) (tunnel_key pubkey_b) in
    c.del (c.del s' (tunnel_bytes_key (concat pubkey_a (concat ":" pubkey_b))))
      (tunnel_bytes_key (concat pubkey_b (concat ":" pubkey_a)))

unfoldable pub store_file_token : {S : Type 0} → Commands S → S → ℕ → String → String → String → S
store_file_token c s now token message_id user_id =
    c.set s now (concat "filetok:" token) (concat message_id (concat ":" user_id)) file_token_ttl

unfoldable pub get_file_token : {S : Type 0} → Commands S → S → ℕ → String → String × String
unfolding split_last_colon
get_file_token c s now token = elim (c.get s now (concat "filetok:" token)) [
  | none ↦ ("", "")
  | some val ↦ elim (split_last_colon val) [
    | none ↦ ("", "")
    | some (message_id, user_id) ↦ (message_id, user_id)
  ]
]

unfoldable pub store_entitlement : {S : Type 0} → Commands S → S → ℕ → String → String → ℕ → S
store_entitlement c s now user_id hash ttl = c.set s now (concat "entitlement:" user_id) hash ttl

unfoldable pub get_entitlement_hash : {S : Type 0} → Commands S → S → ℕ → String → String
get_entitlement_hash c s now user_id = or_empty (c.get s now (concat "entitlement:" user_id))

unfoldable pub store_integrity_nonce : {S : Type 0} → Commands S → S → ℕ → String → String → ℕ → S
store_integrity_nonce c s now key_hash nonce ttl =
    c.set s now (concat "integrity:nonce:" key_hash) nonce ttl

unfoldable pub get_integrity_nonce : {S : Type 0} → Commands S → S → ℕ → String → String
get_integrity_nonce c s now key_hash = or_empty (c.get s now (concat "integrity:nonce:" key_hash))

unfoldable pub delete_integrity_nonce : {S : Type 0} → Commands S → S → String → S
delete_integrity_nonce c s key_hash = c.del s (concat "integrity:nonce:" key_hash)
