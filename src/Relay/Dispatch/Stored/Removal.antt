-- ===== src/Relay/Dispatch/Stored/Removal.antt =====
-- The removal of objects: handleFileReceived and the rollbacks of wiltkey_server/handlers.go, and
-- startCleanupWorker of main.go.
use wilt_key.Prelude.{
  ℕ, ◌≡◌, ◌≢◌, refl, sym, ap, ◌∙◌, subst, String, Bool, false, not, Option, none, some, List, [],
  ◌∷◌, ◌==◌, eq_iff, ltb, count, All, arith, if_case, if_split, Bool-cases, inl, inr, option_split,
}
use wilt_key.Prelude.GoMap.{GoMap, delete, lookup-delete}
use wilt_key.Db.{PgMessage}
use wilt_key.Db.Messages.{first, has_url, count_messages_by_bucket, delete_message}
use wilt_key.Storage.{upload_url, storage_key_from_url}
use wilt_key.Storage.Keys.{storage_key_from_url-upload_url}
use wilt_key.Relay.{Env, World, Client, WsMessage, Op, send_json, remove_stored}
use wilt_key.Relay.Files.{reclaim, drop_row, acknowledge, handle_file_received}
use wilt_key.Relay.Dispatch.Stored.{Present, UrlPresent, HasObject, Sound, Names}
use wilt_key.Relay.Dispatch.Stored.Untouched.{Untouched-Sound}
use wilt_key.Relay.Dispatch.Stored.Writing.{keep_rows-Sound}

-- No row points to `url`.
abbrev pub Unused : String → List PgMessage → Type 0
Unused url ms = All (λ m. has_url url m ≡ false) ms

pub count-Unused : (url : String) (ms : List PgMessage) → count (has_url url) ms ≡ 0 → Unused url ms
count-Unused url [] h = tt
count-Unused url (m ∷ ms) h = ground (arith, count-Unused url ms)

-- The object under the drawn name `i` goes; another URL's is another object.
Present-delete :
    (env : Env) (bucket : GoMap String) (n i : ℕ) (url : String)
    → url ≢ upload_url env.storage (env.uuid i)
    → Present env bucket n url
    → Present env (delete bucket (env.uuid i)) n url
unfolding Present
Present-delete env bucket n i url other (k, l, e, p) = (
  k,
  l,
  e,
  elim (Bool-cases (env.uuid i == env.uuid k)) [
    | inl same ↦
        elim (other (
          e
          ∙ ap (upload_url env.storage)
              (sym (ground (arith, eq_iff (env.uuid i) (env.uuid k)))))) [ ]
    | inr differ ↦ ground (arith, lookup-delete bucket (env.uuid i) (env.uuid k))
  ],
)

UrlPresent-delete :
    (env : Env) (bucket : GoMap String) (n i : ℕ) (u : Option String)
    → (elim u [ none ↦ false | some v ↦ v == upload_url env.storage (env.uuid i) ]) ≡ false
    → UrlPresent env bucket n u
    → UrlPresent env (delete bucket (env.uuid i)) n u
UrlPresent-delete env bucket n i none h p = tt
UrlPresent-delete env bucket n i (some url) h p =
    Present-delete env bucket n i url
      (λ e. ground (arith, eq_iff url (upload_url env.storage (env.uuid i)))) p

HasObject-delete :
    (env : Env) (bucket : GoMap String) (n i : ℕ) (ms : List PgMessage)
    → Unused (upload_url env.storage (env.uuid i)) ms
    → All (HasObject env bucket n) ms
    → All (HasObject env (delete bucket (env.uuid i)) n) ms
HasObject-delete env bucket n i [] us hs = tt
HasObject-delete env bucket n i (m ∷ ms) (u, us) (p, hs) =
    (UrlPresent-delete env bucket n i m.bucket_url u p, HasObject-delete env bucket n i ms us hs)

pub remove_stored-Sound :
    (env : Env) (w : World) (i : ℕ)
    → Unused (upload_url env.storage (env.uuid i)) w.db.messages
    → Sound env w
    → Sound env (remove_stored env w (env.uuid i))
unfolding remove_stored Sound
remove_stored-Sound env w i us (hm, hs) =
    if_case (Sound env) (env.fails Op.remove_object (env.uuid i)) (hm, hs)
      (HasObject-delete env w.bucket w.draws i w.db.messages us hm, hs)

-- An object whose URL is that of a drawn name goes only when no row is left.
pub reclaim-Sound :
    (env : Env) (w : World) (url : String) (i : ℕ)
    → Names env
    → url ≡ upload_url env.storage (env.uuid i)
    → Sound env w
    → Sound env (reclaim env w url)
unfolding reclaim count_messages_by_bucket
reclaim-Sound env w url i (differ, plain) e h =
    let same : storage_key_from_url url ≡ env.uuid i =
      rw e (storage_key_from_url-upload_url env.storage (env.uuid i) (plain i)) in
    let kept = λ (n : count_messages_by_bucket w.db url ≡ 0). count-Unused url w.db.messages n in
    if_case (Sound env) (storage_key_from_url url == "") h (
      if_case (Sound env) (env.fails Op.count_bucket url) h (
        if_split (Sound env) (ltb 0 (count_messages_by_bucket w.db url)) (λ _. h)
          (λ none_left. rw same (
            remove_stored-Sound env w i
              (subst (λ u. Unused u w.db.messages) e (kept (ground arith))) h))))

drop_row-Sound : (env : Env) (w : World) (id : String) → Sound env w → Sound env (drop_row env w id)
unfolding drop_row delete_message
drop_row-Sound env w id h =
    if_case (Sound env) (env.fails Op.remove_message id) h
      (keep_rows-Sound env w _ (λ m. not (m.id == id)) refl refl refl (ground arith) h)

-- A row that was found in a sound table points to an object that is there.
first-HasObject :
    (env : Env) (bucket : GoMap String) (n : ℕ) (p : PgMessage → Bool) (ms : List PgMessage)
    → All (HasObject env bucket n) ms
    → (found : PgMessage) → first p ms ≡ some found
    → HasObject env bucket n found
first-HasObject env bucket n p [] hs found e = ground arith
first-HasObject env bucket n p (m ∷ ms) (h, hs) found e = elim (Bool-cases (p m)) [
  | inl hit ↦ let same : m ≡ found = ground arith in subst (HasObject env bucket n) same h
  | inr miss ↦ first-HasObject env bucket n p ms hs found (ground arith)
]

acknowledge-Sound :
    (env : Env) (w : World) (c : Client) (found : PgMessage) (u : Option String)
    → Names env
    → UrlPresent env w.bucket w.draws u
    → Sound env w
    → Sound env (acknowledge env w c found u)
unfolding acknowledge Present
acknowledge-Sound env w c found none names p h = h
acknowledge-Sound env w c found (some url) names (k, l, e, p) h =
    if_case (Sound env) (not (found.recipient_id == c.id))
      (unfold send_json in Untouched-Sound env w _ (refl, refl, refl, ground arith) h)
      (reclaim-Sound env (drop_row env w found.id) url k names e (drop_row-Sound env w found.id h))

pub handle_file_received-Sound :
    (env : Env) (w : World) (c : Client) (msg : WsMessage)
    → Names env
    → Sound env w
    → Sound env (handle_file_received env w c msg)
unfolding handle_file_received Sound
handle_file_received-Sound env w c msg names (hm, hs) =
    let h : Sound env w = (hm, hs) in
    if_case (Sound env) (msg.message_id == "") h (
      if_case (Sound env) (not env.has_pg) h (
        if_case (Sound env) (env.fails Op.query_message msg.message_id) h (
          option_split (Sound env) (first (λ m. m.id == msg.message_id) w.db.messages) (λ _. h)
            (λ found e.
              acknowledge-Sound env w c found found.bucket_url names
                (first-HasObject env w.bucket w.draws (λ m. m.id == msg.message_id) w.db.messages hm
                  found e)
                h))))
