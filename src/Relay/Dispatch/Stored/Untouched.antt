-- ===== src/Relay/Dispatch/Stored/Untouched.antt =====
-- Handlers of wiltkey_server that leave the rows of messages and the stored objects alone.
use wilt_key.Prelude.{ℕ, ◌≡◌, ◌≤◌, String, Option, none, some, List, [], ◌∷◌, All, arith}
use wilt_key.Prelude.GoMap.{GoMap}
use wilt_key.Redis.Queue.{Queued, fetch_and_clear_queue}
use wilt_key.Db.{PgMessage}
use wilt_key.Db.Messages.{get_pending_messages}
use wilt_key.Db.Social.{add_or_update_story_reaction}
use wilt_key.Relay.{Env, World, Client, WsMessage, new_message, send_json}
use wilt_key.Relay.Premium.{
  entitled_by_row, check_premium_subscription, hold_ttl_for_recipient, premium_gate, cooldown_gate,
  sender_gates,
}
use wilt_key.Relay.Files.{
  issue_token, handle_request_file, send_queued, send_row, send_pending, offer_row, send_offers,
  deliver_redis, resend_pending_file_offers,
}
use wilt_key.Relay.Control.{
  send_if_online, handle_typing_status, nuke, handle_nuke_recipient, handle_ack_nuke,
}
use wilt_key.Relay.Stories.{
  throttle, handle_fetch_stories, handle_story_react, handle_story_reactions,
}
use wilt_key.Relay.Dispatch.Stored.{Present, UrlPresent, HasObject, Sound}

-- The same rows, objects and stories.
abbrev pub Untouched : World → World → Type 0
Untouched w w' =
    (w'.db.messages ≡ w.db.messages)
    × (w'.db.stories ≡ w.db.stories)
    × (w'.bucket ≡ w.bucket)
    × (w.draws ≤ w'.draws)

-- More draws do no harm.
pub Present-later :
    (env : Env) (bucket : GoMap String) (n n' : ℕ) (url : String)
    → n ≤ n'
    → Present env bucket n url
    → Present env bucket n' url
unfolding Present
Present-later env bucket n n' url h (k, l, e, p) = (k, ground arith, e, p)

UrlPresent-later :
    (env : Env) (bucket : GoMap String) (n n' : ℕ) (u : Option String)
    → n ≤ n'
    → UrlPresent env bucket n u
    → UrlPresent env bucket n' u
UrlPresent-later env bucket n n' none h p = tt
UrlPresent-later env bucket n n' (some url) h p = Present-later env bucket n n' url h p

pub HasObject-later :
    (env : Env) (bucket : GoMap String) (n n' : ℕ) (ms : List PgMessage)
    → n ≤ n'
    → All (HasObject env bucket n) ms
    → All (HasObject env bucket n') ms
HasObject-later env bucket n n' [] h hs = tt
HasObject-later env bucket n n' (m ∷ ms) h (p, hs) =
    (UrlPresent-later env bucket n n' m.bucket_url h p, HasObject-later env bucket n n' ms h hs)

pub Untouched-Sound : (env : Env) (w w' : World) → Untouched w w' → Sound env w → Sound env w'
unfolding Sound
Untouched-Sound env w w' (em, es, eb, l) (hm, hs) =
    (rw (em, eb) (HasObject-later env w.bucket w.draws w'.draws w.db.messages l hm), rw es hs)

pub check_premium-Untouched :
    (env : Env) (w : World) (u : String) → Untouched w (check_premium_subscription env w u).1
unfolding check_premium_subscription entitled_by_row
check_premium-Untouched env w u = ground arith

pub hold_ttl-Untouched :
    (env : Env) (w : World) (u : String) → Untouched w (hold_ttl_for_recipient env w u).1
unfolding hold_ttl_for_recipient
hold_ttl-Untouched env w u = check_premium-Untouched env w u

pub sender_gates-Untouched :
    (env : Env) (w : World) (c : Client) (n : ℕ) → Untouched w (sender_gates env w c n).1
unfolding sender_gates premium_gate cooldown_gate
sender_gates-Untouched env w c n = ground (arith, check_premium-Untouched env w c.id)

pub handle_nuke-Untouched :
    (env : Env) (w : World) (c : Client) (msg : WsMessage)
    → Untouched w (handle_nuke_recipient env w c msg)
unfolding handle_nuke_recipient nuke send_if_online send_json
handle_nuke-Untouched env w c msg = ground arith

pub handle_ack_nuke-Untouched :
    (env : Env) (w : World) (c : Client) → Untouched w (handle_ack_nuke env w c)
unfolding handle_ack_nuke send_json
handle_ack_nuke-Untouched env w c = ground arith

pub handle_typing-Untouched :
    (w : World) (c : Client) (msg : WsMessage) → Untouched w (handle_typing_status w c msg)
unfolding handle_typing_status send_if_online send_json
handle_typing-Untouched w c msg = ground arith

pub handle_request_file-Untouched :
    (env : Env) (w : World) (c : Client) (msg : WsMessage)
    → Untouched w (handle_request_file env w c msg)
unfolding handle_request_file issue_token send_json
handle_request_file-Untouched env w c msg = ground arith

send_offers-Untouched :
    (w : World) (c : Client) (ms : List PgMessage) → Untouched w (send_offers w c ms)
unfolding send_offers send_json
send_offers-Untouched w c [] = ground arith
send_offers-Untouched w c (m ∷ ms) = ground (arith, send_offers-Untouched (offer_row w c m) c ms)

pub resend-Untouched :
    (env : Env) (w : World) (c : Client) → Untouched w (resend_pending_file_offers env w c)
unfolding resend_pending_file_offers
resend-Untouched env w c =
    ground (arith, send_offers-Untouched w c (get_pending_messages w.db env.now c.id))

pub fetch_stories-Untouched :
    (env : Env) (w : World) (c : Client) (msg : WsMessage)
    → Untouched w (handle_fetch_stories env w c msg)
unfolding handle_fetch_stories throttle send_json
fetch_stories-Untouched env w c msg = ground arith

pub story_react-Untouched :
    (env : Env) (w : World) (c : Client) (msg : WsMessage)
    → Untouched w (handle_story_react env w c msg)
unfolding handle_story_react throttle send_json add_or_update_story_reaction
story_react-Untouched env w c msg = ground arith

pub story_reactions-Untouched :
    (env : Env) (w : World) (c : Client) (msg : WsMessage)
    → Untouched w (handle_story_reactions env w c msg)
unfolding handle_story_reactions send_json
story_reactions-Untouched env w c msg = ground arith

send_queued-Untouched :
    (w : World) (c : Client) (ms : List Queued) → Untouched w (send_queued w c ms)
unfolding send_queued send_json
send_queued-Untouched w c [] = ground arith
send_queued-Untouched w c (m ∷ ms) = ground (
  arith,
  send_queued-Untouched (send_json w c (new_message m.sender_id m.envelope m.content_type "")) c ms,
)

pub deliver_redis-Untouched :
    (env : Env) (w : World) (c : Client) → Untouched w (deliver_redis env w c)
unfolding deliver_redis
deliver_redis-Untouched env w c =
    let (messages, redis') = fetch_and_clear_queue w.redis env.now c.id in
    ground (arith, send_queued-Untouched (record w { redis = redis' }) c messages)

pub send_pending-Untouched :
    (w : World) (c : Client) (ms : List PgMessage) → Untouched w (send_pending w c ms)
unfolding send_pending send_json
send_pending-Untouched w c [] = ground arith
send_pending-Untouched w c (m ∷ ms) = ground (arith, send_pending-Untouched (send_row w c m) c ms)
