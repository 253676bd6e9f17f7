-- ===== src/Storage.antt =====
-- Object storage: the URLs of wiltkey_server/storage.go and storageKeyFromURL of
-- wiltkey_server/main.go. The objects themselves are a map from keys to bodies; the S3 client and
-- the file system are not modelled.
pub mod Keys
use Prim.Native.Char.{Char, code}
use wilt_key.Prelude.{String, Bool, true, false, ◌||◌, Option, none, some, eqb, if◌then◌else◌}
use wilt_key.Prelude.Text.{concat}

-- NewLocalStorage, or NewS3Storage with useSSL, the endpoint and the bucket.
pub data StorageClient : Type 0 where
  local : StorageClient
  s3 : Bool → String → String → StorageClient

-- The URL that Upload returns for a key.
unfoldable pub upload_url : StorageClient → String → String
upload_url local key = concat "local://" key
upload_url (s3 use_ssl endpoint bucket_name) key =
    concat (if use_ssl then "https" else "http")
      (concat "://" (concat endpoint (concat "/" (concat bucket_name (concat "/" key)))))

-- strings.HasPrefix and strings.TrimPrefix: the rest behind the prefix, if it is there.
unfoldable pub strip_prefix : String → String → Option String
strip_prefix String.[] s = some s
strip_prefix (String.◌∷◌ d p) String.[] = none
strip_prefix (String.◌∷◌ d p) (String.◌∷◌ c s) =
    let rest = strip_prefix p s in if eqb (code c) (code d) then rest else none

abbrev pub is_slash : Char → Bool
is_slash c = eqb (code c) 47

unfoldable pub has_slash : String → Bool
has_slash String.[] = false
has_slash (String.◌∷◌ c s) = is_slash c || has_slash s

-- The last element of strings.Split(s, "/").
unfoldable pub last_part : String → String
unfolding has_slash
last_part String.[] = ""
last_part (String.◌∷◌ c s) =
    let rest = last_part s in if has_slash s then rest else if is_slash c then s else String.◌∷◌ c s

unfoldable pub storage_key_from_url : String → String
unfolding strip_prefix last_part
storage_key_from_url raw_url = elim (strip_prefix "local://" raw_url) [
  | some key ↦ key
  | none ↦ last_part raw_url
]
