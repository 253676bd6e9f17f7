-- ===== src/Db/Messages.antt =====
-- The messages table of wiltkey_server/db.go.
pub mod Counting
use wilt_key.Prelude.{
  ℕ, ◌+◌, String, Bool, true, false, not, ◌&&◌, Option, none, some, List, [], ◌∷◌, ◌++◌, ◌==◌, ltb,
  leb, eqb, keep, count, any, if◌then◌else◌,
}
use wilt_key.Db.{Db, PgMessage}

-- The first row that passes: QueryRow.
abbrev pub first {ℓ} : {A : Type ℓ} → (A → Bool) → List A → Option A
first p [] = none
first p (x ∷ xs) = let rest = first p xs in if p x then some x else rest

abbrev pub is_some {ℓ} : {A : Type ℓ} → Option A → Bool
is_some none = false
is_some (some a) = true

-- bucket_url = url, which a NULL does not meet
abbrev pub has_url : String → PgMessage → Bool
has_url url m = elim m.bucket_url [ none ↦ false | some u ↦ u == url ]

-- The row that an insertion adds.
abbrev pub message_row :
    ℕ
    → String
    → String
    → String
    → Option String
    → Option String
    → String
    → ℕ
    → ℕ
    → String
    → PgMessage
message_row now id recipient_id sender_id envelope bucket_url content_type ttl size meta = record {
  id = id;
  recipient_id = recipient_id;
  sender_id = sender_id;
  envelope = envelope;
  bucket_url = bucket_url;
  content_type = content_type;
  expires_at = now + ttl;
  size_bytes = size;
  offer_meta = meta;
}

-- `id` is the fresh UUID of the row.
unfoldable pub store_message_sized :
    Db → ℕ → String → String → String → Option String → Option String → String → ℕ → ℕ → String → Db
store_message_sized db now id recipient_id sender_id envelope bucket_url content_type ttl size
      meta =
    record db {
      messages =
          db.messages
          ++ message_row now id recipient_id sender_id envelope bucket_url content_type ttl size
              meta
            ∷ [];
    }

unfoldable pub store_message :
    Db → ℕ → String → String → String → Option String → Option String → String → ℕ → Db
unfolding store_message_sized
store_message db now id recipient_id sender_id envelope bucket_url content_type ttl =
    store_message_sized db now id recipient_id sender_id envelope bucket_url content_type ttl 0 ""

unfoldable pub get_file_message : Db → ℕ → String → String → Option PgMessage
get_file_message db now id recipient_id =
    first
      (λ m.
        m.id == id
        && m.recipient_id == recipient_id
        && is_some m.bucket_url
        && ltb now m.expires_at)
      db.messages

unfoldable pub get_pending_messages : Db → ℕ → String → List PgMessage
get_pending_messages db now recipient_id =
    keep (λ m. m.recipient_id == recipient_id && ltb now m.expires_at) db.messages

unfoldable pub delete_message : Db → String → Db
delete_message db id = record db { messages = keep (λ m. not (m.id == id)) db.messages }

unfoldable pub count_messages_by_bucket : Db → String → ℕ
count_messages_by_bucket db bucket_url = count (has_url bucket_url) db.messages

unfoldable pub delete_inline_messages : Db → String → Db
delete_inline_messages db recipient_id = record db {
  messages = keep (λ m. not (m.recipient_id == recipient_id && is_some m.envelope)) db.messages;
}

abbrev pub is_expired : ℕ → PgMessage → Bool
is_expired now m = leb m.expires_at now

abbrev pub contains : String → List String → Bool
contains s = any (λ x. x == s)

-- SELECT DISTINCT bucket_url … WHERE bucket_url IS NOT NULL
unfoldable pub distinct_urls : List PgMessage → List String
distinct_urls [] = []
distinct_urls (m ∷ ms) =
    let rest = distinct_urls ms in
    elim m.bucket_url [ none ↦ rest | some u ↦ if contains u rest then rest else u ∷ rest ]

-- The URLs that no row refers to any more, and the table without its expired rows. A count that
-- fails (`count_fails`) keeps the object.
unfoldable pub prune_expired_messages : (String → Bool) → Db → ℕ → List String × Db
unfolding distinct_urls count_messages_by_bucket
prune_expired_messages count_fails db now =
    let candidates = distinct_urls (keep (is_expired now) db.messages) in
    let db' = record db { messages = keep (λ m. not (is_expired now m)) db.messages } in
    (
      keep (λ url. not (count_fails url) && eqb (count_messages_by_bucket db' url) 0) candidates,
      db',
    )
