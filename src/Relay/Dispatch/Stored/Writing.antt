-- ===== src/Relay/Dispatch/Stored/Writing.antt =====
-- New rows of messages and new objects: handleSendMessage and routeSmallMessage of
-- wiltkey_server/handlers.go.
use wilt_key.Prelude.{
  ℕ, suc, ◌≡◌, ◌≤◌, refl, String, Bool, Option, none, some, List, [], ◌∷◌, ◌++◌, if_case,
  option_case, keep, not, ◌&&◌, ◌==◌, eq_refl, All, All-append, All-keep_sub, arith,
}
use wilt_key.Prelude.GoMap.{GoMap, lookup, insert, lookup-insert}
use wilt_key.Prelude.Text.{len}
use wilt_key.Redis.Queue.{add_message_to_queue}
use wilt_key.Db.{PgMessage}
use wilt_key.Db.Messages.{
  is_some, get_pending_messages, message_row, store_message, store_message_sized, delete_message,
  delete_inline_messages,
}
use wilt_key.Storage.{upload_url}
use wilt_key.Relay.{
  Env, World, Client, WsMessage, Frame, Op, add_to_queue, new_message, remove_message, send_json,
  start_wake, notify,
}
use wilt_key.Relay.Send.{park_inline, route_small_message, point_and_notify, put_object, or_blank}
use wilt_key.Relay.Files.{deliver_redis, deliver_postgres, deliver_offline_queue, send_pending}
use wilt_key.Relay.Dispatch.Stored.{Present, UrlPresent, HasObject, Sound}
use wilt_key.Relay.Dispatch.Stored.Untouched.{
  Untouched, Untouched-Sound, HasObject-later, deliver_redis-Untouched, send_pending-Untouched,
}

-- A row more, which points to nothing or to an object that is there.
add_row-Sound :
    (env : Env) (w w' : World) (m : PgMessage)
    → w'.db.messages ≡ w.db.messages ++ m ∷ []
    → w'.db.stories ≡ w.db.stories
    → w'.bucket ≡ w.bucket
    → w.draws ≤ w'.draws
    → HasObject env w.bucket w.draws m
    → Sound env w
    → Sound env w'
unfolding Sound
add_row-Sound env w w' m em es eb l p (hm, hs) = (
  rw (em, eb)
      (HasObject-later env w.bucket w.draws w'.draws (w.db.messages ++ m ∷ []) l
        (All-append (HasObject env w.bucket w.draws) w.db.messages (m ∷ []) hm (p, tt))),
  rw es hs,
)

-- Rows less.
pub keep_rows-Sound :
    (env : Env) (w w' : World) (p : PgMessage → Bool)
    → w'.db.messages ≡ keep p w.db.messages
    → w'.db.stories ≡ w.db.stories
    → w'.bucket ≡ w.bucket
    → w.draws ≤ w'.draws
    → Sound env w
    → Sound env w'
unfolding Sound
keep_rows-Sound env w w' p em es eb l (hm, hs) = (
  rw (em, eb)
      (HasObject-later env w.bucket w.draws w'.draws (keep p w.db.messages) l
        (All-keep_sub (HasObject env w.bucket w.draws) p w.db.messages hm)),
  rw es hs,
)

Present-insert :
    (env : Env) (bucket : GoMap String) (n : ℕ) (k body url : String)
    → Present env bucket n url
    → Present env (insert bucket k body) n url
unfolding Present
Present-insert env bucket n k body url (i, l, e, p) =
    (i, l, e, ground (arith, lookup-insert bucket k (env.uuid i) body))

UrlPresent-insert :
    (env : Env) (bucket : GoMap String) (n : ℕ) (k body : String) (u : Option String)
    → UrlPresent env bucket n u
    → UrlPresent env (insert bucket k body) n u
UrlPresent-insert env bucket n k body none p = tt
UrlPresent-insert env bucket n k body (some url) p = Present-insert env bucket n k body url p

HasObject-insert :
    (env : Env) (bucket : GoMap String) (n : ℕ) (k body : String) (ms : List PgMessage)
    → All (HasObject env bucket n) ms
    → All (HasObject env (insert bucket k body) n) ms
HasObject-insert env bucket n k body [] hs = tt
HasObject-insert env bucket n k body (m ∷ ms) (p, hs) = (
  UrlPresent-insert env bucket n k body m.bucket_url p,
  HasObject-insert env bucket n k body ms hs,
)

pub put_object-Sound :
    (env : Env) (w : World) (body : String) → Sound env w → Sound env (put_object env w body)
unfolding Sound put_object
put_object-Sound env w body (hm, hs) = (
  HasObject-later env (insert w.bucket (env.uuid w.draws) body) w.draws (suc w.draws) w.db.messages
      (ground arith)
      (HasObject-insert env w.bucket w.draws (env.uuid w.draws) body w.db.messages hm),
  hs,
)

pub put_object-Present :
    (env : Env) (w : World) (body : String)
    → Present env
        (put_object env w body).bucket
        (put_object env w body).draws
        (upload_url env.storage (env.uuid w.draws))
unfolding Present put_object
put_object-Present env w body = (
  w.draws,
  ground arith,
  refl,
  ground (
    arith,
    lookup-insert w.bucket (env.uuid w.draws) (env.uuid w.draws) body,
    eq_refl (env.uuid w.draws),
  ),
)

notify-Untouched :
    (w : World) (rid sender content_type : String) (f : Frame)
    → Untouched w (notify w rid sender content_type f)
unfolding notify send_json start_wake
notify-Untouched w rid sender content_type f = ground arith

pub point_and_notify-Sound :
    (env : Env) (w : World) (c : Client) (msg : WsMessage) (rid url : String) (ttl : ℕ)
    → Present env w.bucket w.draws url
    → Sound env w
    → Sound env (point_and_notify env w c msg rid url ttl)
unfolding point_and_notify store_message_sized
point_and_notify-Sound env w c msg rid url ttl p h =
    let meta = env.offer_meta msg.envelope in
    let id = env.uuid w.draws in
    let stored : World = record w {
      db =
          store_message_sized w.db env.now id rid c.id none (some url) msg.content_type ttl
            (len msg.envelope) (or_blank meta);
      draws = suc w.draws;
    } in
    Untouched-Sound env stored _ (notify-Untouched stored rid c.id msg.content_type _) (
      add_row-Sound env w stored
        (message_row env.now id rid c.id none (some url) msg.content_type ttl (len msg.envelope)
          (or_blank meta))
        refl refl refl (ground arith) p h)

park_inline-Sound :
    (env : Env) (w : World) (c : Client) (rid envelope content_type : String) (ttl : ℕ)
    → Sound env w
    → Sound env (park_inline env w c rid envelope content_type ttl)
unfolding park_inline store_message store_message_sized send_json start_wake delete_message
park_inline-Sound env w c rid envelope content_type ttl h =
    let id = env.uuid w.draws in
    let stored : World = record w {
      db = store_message w.db env.now id rid c.id (some envelope) none content_type ttl;
      draws = suc w.draws;
    } in
    let sound =
      add_row-Sound env w stored
        (message_row env.now id rid c.id (some envelope) none content_type ttl 0 "") refl refl refl
        (ground arith) tt h in
    let sent : Client → World =
      λ target. send_json stored target (new_message c.id envelope content_type "") in
    option_case (Sound env) (lookup w.clients rid)
      (Untouched-Sound env stored (start_wake stored rid c.id content_type)
        (refl, refl, refl, ground arith) sound)
      (λ target.
        if_case (Sound env) (env.fails remove_message id)
          (Untouched-Sound env stored (sent target) (refl, refl, refl, ground arith) sound)
          (keep_rows-Sound env stored (record (sent target) { db = delete_message stored.db id })
            (λ m. not (m.id == id)) refl refl refl (ground arith) sound))

pub route_small-Sound :
    (env : Env) (w : World) (c : Client) (rid envelope content_type : String) (ttl : ℕ)
    → Sound env w
    → Sound env (route_small_message env w c rid envelope content_type ttl).1
unfolding route_small_message
route_small-Sound env w c rid envelope content_type ttl h =
    let P : Option String × World → Type 0 = λ r. Sound env r.1 in
    let queued : World = record w {
      redis = add_message_to_queue w.redis env.now rid c.id envelope content_type ttl;
    } in
    if_case P (env.has_pg && env.high_ram)
      (if_case P (env.fails Op.store_message rid) h
        (park_inline-Sound env w c rid envelope content_type ttl h))
      (option_case P (lookup w.clients rid)
        (if_case P (env.fails add_to_queue rid) h (
          unfold start_wake in
          Untouched-Sound env w (start_wake queued rid c.id content_type)
            (refl, refl, refl, ground arith) h))
        (λ target.
          unfold send_json in
          Untouched-Sound env w (send_json w target (new_message c.id envelope content_type ""))
            (refl, refl, refl, ground arith) h))

deliver_postgres-Sound :
    (env : Env) (w : World) (c : Client) → Sound env w → Sound env (deliver_postgres env w c)
unfolding deliver_postgres delete_inline_messages
deliver_postgres-Sound env w c h =
    let pending = get_pending_messages w.db env.now c.id in
    let sent = Untouched-Sound env w _ (send_pending-Untouched w c pending) h in
    let w' = send_pending w c pending in
    let swept =
      keep_rows-Sound env w' (record w' { db = delete_inline_messages w'.db c.id })
        (λ r. not (r.recipient_id == c.id && is_some r.envelope)) refl refl refl (ground arith)
        sent in
    ground (arith, h, sent, swept)

pub deliver-Sound :
    (env : Env) (w : World) (c : Client) → Sound env w → Sound env (deliver_offline_queue env w c)
unfolding deliver_offline_queue
deliver-Sound env w c h =
    deliver_postgres-Sound env (deliver_redis env w c) c
      (Untouched-Sound env w _ (deliver_redis-Untouched env w c) h)
