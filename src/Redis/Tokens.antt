-- ===== src/Redis/Tokens.antt =====
-- The keyed values of wiltkey_server/redis.go: push tokens, pairings, tunnels, download tokens,
-- the entitlement cache and the integrity nonces.
pub mod Laws
use Prim.Native.Char.{Char, code}
use wilt_key.Prelude.{
  ℕ, suc, ◌+◌, ◌-◌, ◌*◌, String, Bool, true, false, Option, none, some, ltb, eqb, if◌then◌else◌,
}
use wilt_key.Prelude.Text.{concat, len}
use wilt_key.Prelude.GoMap.{value_or, lookup, insert, delete}
use wilt_key.Time.{minute}
use wilt_key.Redis.{RedisClient}

-- m[k], or "" where there is none
abbrev pub or_empty : Option String → String
or_empty = value_or ""

unfoldable pub set_push_token : RedisClient → String → String → RedisClient
set_push_token r user_id token = record r {
  memory_push_tokens = insert r.memory_push_tokens user_id token;
}

unfoldable pub get_push_token : RedisClient → String → String
get_push_token r user_id = or_empty (lookup r.memory_push_tokens user_id)

unfoldable pub delete_push_token : RedisClient → String → RedisClient
delete_push_token r user_id = record r { memory_push_tokens = delete r.memory_push_tokens user_id }

unfoldable pub store_pairing : RedisClient → ℕ → String → String → ℕ → RedisClient
store_pairing r now pin payload ttl = record r {
  memory_pairings =
      insert r.memory_pairings pin (record { payload = payload; expires = now + ttl });
}

-- `none` is the error "pairing expired or invalid".
unfoldable pub get_pairing : RedisClient → ℕ → String → Option String
get_pairing r now pin = elim (lookup r.memory_pairings pin) [
  | none ↦ none
  | some p ↦ if ltb p.expires now then none else some p.payload
]

unfoldable pub delete_pairing : RedisClient → String → RedisClient
delete_pairing r pin = record r { memory_pairings = delete r.memory_pairings pin }

-- The time to live is not kept in memory.
unfoldable pub create_tunnel : RedisClient → String → String → ℕ → RedisClient
create_tunnel r pubkey_a pubkey_b ttl = record r {
  memory_tunnels = insert (insert r.memory_tunnels pubkey_a pubkey_b) pubkey_b pubkey_a;
}

unfoldable pub get_tunnel_partner : RedisClient → String → Option String
get_tunnel_partner r pubkey = lookup r.memory_tunnels pubkey

unfoldable pub increment_tunnel_bytes : RedisClient → String → ℕ → ℕ × RedisClient
increment_tunnel_bytes r tunnel_id bytes =
    let total = value_or 0 (lookup r.memory_tunnel_bytes tunnel_id) + bytes in
    (total, record r { memory_tunnel_bytes = insert r.memory_tunnel_bytes tunnel_id total })

unfoldable pub delete_tunnel : RedisClient → String → String → RedisClient
delete_tunnel r pubkey_a pubkey_b = record r {
  memory_tunnels = delete (delete r.memory_tunnels pubkey_a) pubkey_b;
  memory_tunnel_bytes =
      delete (delete r.memory_tunnel_bytes (concat pubkey_a (concat ":" pubkey_b)))
        (concat pubkey_b (concat ":" pubkey_a));
}

abbrev pub file_token_ttl : ℕ
file_token_ttl = 10 * minute

unfoldable pub store_file_token : RedisClient → ℕ → String → String → String → RedisClient
store_file_token r now token message_id user_id = record r {
  memory_tunnels =
      insert r.memory_tunnels (concat "filetok:" token) (concat message_id (concat ":" user_id));
  memory_blocks = insert r.memory_blocks (concat "filetok:" token) (now + file_token_ttl);
}

-- A split at the last colon: strings.LastIndex(val, ":") and the two slices. `none` is index -1.
unfoldable pub split_last_colon : String → Option (String × String)
split_last_colon String.[] = none
split_last_colon (String.◌∷◌ c s) = elim (split_last_colon s) [
  | none ↦ if eqb (code c) 58 then some ("", s) else none
  | some (before, after) ↦ some (String.◌∷◌ c before, after)
]

-- ("", "") where the token is unknown, expired or malformed.
unfoldable pub get_file_token : RedisClient → ℕ → String → String × String
unfolding split_last_colon
get_file_token r now token = elim (lookup r.memory_blocks (concat "filetok:" token)) [
  | none ↦ ("", "")
  | some exp ↦
      if ltb exp now
      then ("", "")
      else elim (split_last_colon (or_empty (lookup r.memory_tunnels (concat "filetok:" token)))) [
        | none ↦ ("", "")
        | some (message_id, user_id) ↦ (message_id, user_id)
      ]
]

unfoldable pub store_entitlement : RedisClient → ℕ → String → String → ℕ → RedisClient
store_entitlement r now user_id hash ttl = record r {
  memory_entitlements = insert r.memory_entitlements user_id hash;
  memory_blocks = insert r.memory_blocks (concat "entitlement:" user_id) (now + ttl);
}

-- "" where nothing is cached or the cache has expired.
unfoldable pub get_entitlement_hash : RedisClient → ℕ → String → String
get_entitlement_hash r now user_id = elim (lookup r.memory_blocks (concat "entitlement:" user_id)) [
  | none ↦ ""
  | some expiry ↦ if ltb expiry now then "" else or_empty (lookup r.memory_entitlements user_id)
]

unfoldable pub store_integrity_nonce : RedisClient → ℕ → String → String → ℕ → RedisClient
store_integrity_nonce r now key_hash nonce ttl = record r {
  memory_entitlements = insert r.memory_entitlements (concat "integrity_nonce:" key_hash) nonce;
  memory_blocks = insert r.memory_blocks (concat "integrity_nonce:" key_hash) (now + ttl);
}

unfoldable pub get_integrity_nonce : RedisClient → ℕ → String → String
get_integrity_nonce r now key_hash =
    elim (lookup r.memory_blocks (concat "integrity_nonce:" key_hash)) [
      | none ↦ ""
      | some expiry ↦
          if ltb expiry now
          then ""
          else or_empty (lookup r.memory_entitlements (concat "integrity_nonce:" key_hash))
    ]

unfoldable pub delete_integrity_nonce : RedisClient → String → RedisClient
delete_integrity_nonce r key_hash = record r {
  memory_entitlements = delete r.memory_entitlements (concat "integrity_nonce:" key_hash);
  memory_blocks = delete r.memory_blocks (concat "integrity_nonce:" key_hash);
}
