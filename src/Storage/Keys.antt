-- ===== src/Storage/Keys.antt =====
-- The key of an uploaded object is read back from its URL.
use Prim.Native.Char.{Char}
use text.Mathlib.TextLemmas.{nil-append, cons-append}
use wilt_key.Prelude.{◌≡◌, ◌∙◌, refl, ap, String, true, false, none, some, arith}
use wilt_key.Prelude.Text.{concat}
use wilt_key.Storage.{
  StorageClient, local, s3, upload_url, strip_prefix, has_slash, last_part, storage_key_from_url,
}

strip_prefix-concat : (p s : String) → strip_prefix p (concat p s) ≡ some s
unfolding strip_prefix
strip_prefix-concat String.[] s = rw (nil-append s)
strip_prefix-concat (String.◌∷◌ c p) s =
    rw (cons-append c p s) (ground (arith, strip_prefix-concat p s))

last_part-cons_slash : (s : String) → has_slash s ≡ false → last_part (String.◌∷◌ "/" s) ≡ s
unfolding last_part
last_part-cons_slash s h = rw h

has_slash-cons : (c : Char) (s : String) → has_slash s ≡ true → has_slash (String.◌∷◌ c s) ≡ true
unfolding has_slash
has_slash-cons c s h = ground arith

last_part-cons :
    (c : Char) (s : String) → has_slash s ≡ true → last_part (String.◌∷◌ c s) ≡ last_part s
unfolding last_part
last_part-cons c s h = rw h

slash-cons : (t : String) → concat "/" t ≡ String.◌∷◌ "/" t
slash-cons t = cons-append "/" "" t ∙ ap (String.◌∷◌ "/") (nil-append t)

has_slash-concat : (a t : String) → has_slash (concat a (concat "/" t)) ≡ true
unfolding has_slash
has_slash-concat String.[] t = rw (nil-append (concat "/" t), slash-cons t)
has_slash-concat (String.◌∷◌ c a) t =
    rw (cons-append c a (concat "/" t)) (ground (arith, has_slash-concat a t))

-- The part behind the last slash, where it has none itself.
last_part-concat : (a t : String) → has_slash t ≡ false → last_part (concat a (concat "/" t)) ≡ t
last_part-concat String.[] t h =
    rw (nil-append (concat "/" t), slash-cons t) (last_part-cons_slash t h)
last_part-concat (String.◌∷◌ c a) t h =
    rw
      (
        cons-append c a (concat "/" t),
        last_part-cons c (concat a (concat "/" t)) (has_slash-concat a t),
      )
      (last_part-concat a t h)

strip_prefix-http : (s : String) → strip_prefix "local://" (concat "http" s) ≡ none
unfolding strip_prefix
strip_prefix-http s = rw (cons-append "h" "ttp" s) (ground arith)

strip_prefix-https : (s : String) → strip_prefix "local://" (concat "https" s) ≡ none
unfolding strip_prefix
strip_prefix-https s = rw (cons-append "h" "ttps" s) (ground arith)

has_slash-suffix : (a t : String) → has_slash t ≡ true → has_slash (concat a t) ≡ true
has_slash-suffix String.[] t h = rw (nil-append t) h
has_slash-suffix (String.◌∷◌ c a) t h =
    rw (cons-append c a t) (has_slash-cons c (concat a t) (has_slash-suffix a t h))

last_part-suffix : (a t : String) → has_slash t ≡ true → last_part (concat a t) ≡ last_part t
last_part-suffix String.[] t h = rw (nil-append t) refl
last_part-suffix (String.◌∷◌ c a) t h =
    rw (cons-append c a t, last_part-cons c (concat a t) (has_slash-suffix a t h))
      (last_part-suffix a t h)

key_of_remote :
    (scheme endpoint bucket_name key : String)
    → has_slash key ≡ false
    → last_part (
        concat scheme
          (concat "://" (concat endpoint (concat "/" (concat bucket_name (concat "/" key))))))
      ≡ key
key_of_remote scheme endpoint bucket_name key h =
    let tail = has_slash-concat bucket_name key in
    let rest = has_slash-concat endpoint (concat bucket_name (concat "/" key)) in
    last_part-suffix scheme _ (has_slash-suffix "://" _ rest)
    ∙ last_part-suffix "://" _ rest
    ∙ last_part-suffix endpoint _ (has_slash-suffix "/" _ tail)
    ∙ last_part-suffix "/" _ tail
    ∙ last_part-concat bucket_name key h

-- The key of an object is read back from the URL that its upload returned, whichever store holds
-- it, where the key has no slash.
pub storage_key_from_url-upload_url :
    (st : StorageClient) (key : String)
    → has_slash key ≡ false
    → storage_key_from_url (upload_url st key) ≡ key
unfolding storage_key_from_url upload_url
storage_key_from_url-upload_url local key h =
    rw (strip_prefix-concat "local://" key, storage_key_from_url) refl
storage_key_from_url-upload_url (s3 true endpoint bucket_name) key h =
    rw (storage_key_from_url, strip_prefix-https, key_of_remote "https" endpoint bucket_name key h)
      refl
storage_key_from_url-upload_url (s3 false endpoint bucket_name) key h =
    rw (storage_key_from_url, strip_prefix-http, key_of_remote "http" endpoint bucket_name key h)
      refl
