-- ===== src/Relay/Dispatch/Stored/History.antt =====
-- The rows and objects of the relay over its histories.
use wilt_key.Prelude.{
  ℕ, ◌≡◌, ◌≤◌, refl, Bool, not, ◌&&◌, ◌||◌, none, List, [], ◌∷◌, ◌++◌, ◌==◌, ltb, All-append,
  All-keep_sub, arith, if_case,
}
use wilt_key.Prelude.Text.{len}
use wilt_key.Db.{PgStory}
use wilt_key.Db.Social
use wilt_key.Relay.{Env, World, Client, WsMessage, Op}
use wilt_key.Relay.Premium.{check_premium_subscription, holds}
use wilt_key.Relay.Stories.{
  store_story, charge_story, handle_post_story, handle_fetch_stories, handle_story_react,
  handle_story_reactions, handle_delete_story, story_bytes, story_ttl, max_media_meta_bytes,
}
use wilt_key.Relay.Files.{handle_request_file, resend_pending_file_offers}
use wilt_key.Relay.Control.{handle_typing_status, handle_nuke_recipient, handle_ack_nuke}
use wilt_key.Relay.Dispatch.{
  Event, Moment, frame, connected, tick, serve, at_moment, history, handle_ws_message,
  handle_story_message, handle_stored_message,
}
use wilt_key.Relay.Dispatch.Stored.{NoUrl, Sound, Names}
use wilt_key.Relay.Dispatch.Stored.Untouched
use wilt_key.Relay.Dispatch.Stored.Untouched.{Untouched, Untouched-Sound, HasObject-later}
use wilt_key.Relay.Dispatch.Stored.Writing.{deliver-Sound}
use wilt_key.Relay.Dispatch.Stored.Removal.{handle_file_received-Sound}
use wilt_key.Relay.Dispatch.Stored.Pruning.{cleanup_tick-Sound}
use wilt_key.Relay.Dispatch.Stored.Sending.{handle_send-Sound, send_json-Sound}
use wilt_key.Relay.Dispatch.Stored.Broadcasting.{handle_broadcast-Sound}

add_story-Sound :
    (env : Env) (w w' : World) (s : PgStory)
    → NoUrl s
    → w'.db.messages ≡ w.db.messages
    → w'.db.stories ≡ w.db.stories ++ s ∷ []
    → w'.bucket ≡ w.bucket
    → w.draws ≤ w'.draws
    → Sound env w
    → Sound env w'
unfolding Sound
add_story-Sound env w w' s p em es eb l (hm, hs) = (
  rw (em, eb) (HasObject-later env w.bucket w.draws w'.draws w.db.messages l hm),
  rw es (All-append NoUrl w.db.stories (s ∷ []) hs (p, tt)),
)

drop_stories-Sound :
    (env : Env) (w : World) (gone : PgStory → Bool)
    → Sound env w
    → Sound env (record w { db = Social.drop_stories gone w.db })
unfolding Sound Social.drop_stories
drop_stories-Sound env w gone (hm, hs) =
    (hm, All-keep_sub NoUrl (λ s. not (gone s)) w.db.stories hs)

store_story-Sound :
    (env : Env) (w : World) (c : Client) (msg : WsMessage) (used max_bytes : ℕ)
    → Sound env w
    → Sound env (store_story env w c msg used max_bytes)
unfolding store_story Social.post_story
store_story-Sound env w c msg used max_bytes h =
    if_case (Sound env) (env.fails Op.post_story c.id) (send_json-Sound env w c _ h) (
      send_json-Sound env _ c _ (
        add_story-Sound env w _
          (Social.story_row env.now (env.uuid w.draws) c.id msg.story_type msg.ciphertext_b64 none
            msg.media_meta (story_bytes msg) story_ttl)
          refl refl refl refl (ground arith) h))

charge_story-Sound :
    (env : Env) (w : World) (c : Client) (msg : WsMessage) (is_plus : Bool)
    → Sound env w
    → Sound env (charge_story env w c msg is_plus)
unfolding charge_story
charge_story-Sound env w c msg is_plus h =
    let (reply, db') = Social.consume_social_budget w.db env.now c.id (story_bytes msg) is_plus in
    let charged : World = record w { db = db' } in
    let same : Untouched w charged =
      unfold Social.consume_social_budget Social.get_or_create_social_budget
        Social.put_social_budget in
      ground arith in
    let h' = Untouched-Sound env w charged same h in
    if_case (Sound env) (env.fails Op.consume_budget c.id) (send_json-Sound env w c _ h) (
      if_case (Sound env) (not reply.allowed) (send_json-Sound env charged c _ h')
        (store_story-Sound env charged c msg reply.used reply.max_bytes h'))

post_story-Sound :
    (env : Env) (w : World) (c : Client) (msg : WsMessage)
    → Sound env w
    → Sound env (handle_post_story env w c msg)
unfolding handle_post_story
post_story-Sound env w c msg h =
    let (is_plus, w') = check_premium_subscription env w c.id in
    if_case (Sound env) (msg.story_type == "" || msg.ciphertext_b64 == "")
      (send_json-Sound env w c _ h)
      (if_case (Sound env) (ltb max_media_meta_bytes (len msg.media_meta))
        (send_json-Sound env w c _ h)
        (if_case (Sound env) (not env.has_pg) (send_json-Sound env w c _ h) (
          charge_story-Sound env w' c msg (holds is_plus)
            (Untouched-Sound env w w' (Untouched.check_premium-Untouched env w c.id) h))))

delete_story-Sound :
    (env : Env) (w : World) (c : Client) (msg : WsMessage)
    → Sound env w
    → Sound env (handle_delete_story env w c msg)
unfolding handle_delete_story Social.delete_story
delete_story-Sound env w c msg h =
    if_case (Sound env) (msg.story_id == "") (send_json-Sound env w c _ h) (
      if_case (Sound env) (not env.has_pg) (send_json-Sound env w c _ h) (
        if_case (Sound env) (env.fails Op.remove_story msg.story_id) (send_json-Sound env w c _ h) (
          send_json-Sound env _ c _
            (drop_stories-Sound env w (λ s. s.id == msg.story_id && s.sender_id == c.id) h))))

story_message-Sound :
    (env : Env) (w : World) (c : Client) (msg : WsMessage)
    → Sound env w
    → Sound env (handle_story_message env w c msg)
unfolding handle_story_message
story_message-Sound env w c msg h =
    let by = λ (w' : World) (u : Untouched w w'). Untouched-Sound env w w' u h in
    if_case (Sound env) (msg.type == "POST_STORY") (post_story-Sound env w c msg h) (
      if_case (Sound env) (msg.type == "FETCH_STORIES")
        (by (handle_fetch_stories env w c msg) (Untouched.fetch_stories-Untouched env w c msg))
        (if_case (Sound env) (msg.type == "STORY_REACT")
          (by (handle_story_react env w c msg) (Untouched.story_react-Untouched env w c msg))
          (if_case (Sound env) (msg.type == "FETCH_STORY_REACTIONS")
            (by (handle_story_reactions env w c msg)
              (Untouched.story_reactions-Untouched env w c msg))
            (if_case (Sound env) (msg.type == "DELETE_STORY") (delete_story-Sound env w c msg h)
              h))))

stored_message-Sound :
    (env : Env) (w : World) (c : Client) (msg : WsMessage)
    → Names env
    → Sound env w
    → Sound env (handle_stored_message env w c msg)
unfolding handle_stored_message
stored_message-Sound env w c msg names h =
    let by = λ (w' : World) (u : Untouched w w'). Untouched-Sound env w w' u h in
    if_case (Sound env) (msg.type == "FILE_RECEIVED")
      (handle_file_received-Sound env w c msg names h)
      (if_case (Sound env) (msg.type == "REQUEST_FILE")
        (by (handle_request_file env w c msg) (Untouched.handle_request_file-Untouched env w c msg))
        (if_case (Sound env) (msg.type == "REQUEST_PENDING_FILES")
          (by (resend_pending_file_offers env w c) (Untouched.resend-Untouched env w c))
          (story_message-Sound env w c msg h)))

ws_message-Sound :
    (env : Env) (w : World) (c : Client) (msg : WsMessage)
    → Names env
    → Sound env w
    → Sound env (handle_ws_message env w c msg)
unfolding handle_ws_message
ws_message-Sound env w c msg names h =
    let by = λ (w' : World) (u : Untouched w w'). Untouched-Sound env w w' u h in
    if_case (Sound env) (msg.type == "SEND_MESSAGE") (handle_send-Sound env w c msg names h) (
      if_case (Sound env) (msg.type == "BROADCAST_GROUP_MESSAGE")
        (handle_broadcast-Sound env w c msg names h)
        (if_case (Sound env) (msg.type == "TYPING_STATUS")
          (by (handle_typing_status w c msg) (Untouched.handle_typing-Untouched w c msg))
          (if_case (Sound env) (msg.type == "NUKE_RECIPIENT")
            (by (handle_nuke_recipient env w c msg) (Untouched.handle_nuke-Untouched env w c msg))
            (if_case (Sound env) (msg.type == "ACK_NUKE")
              (by (handle_ack_nuke env w c) (Untouched.handle_ack_nuke-Untouched env w c))
              (stored_message-Sound env w c msg names h)))))

serve-Sound :
    (env : Env) (w : World) (e : Event) → Names env → Sound env w → Sound env (serve env w e)
serve-Sound env w (frame c msg) names h = ws_message-Sound env w c msg names h
serve-Sound env w (connected c) names h = deliver-Sound env w c h
serve-Sound env w tick names h = cleanup_tick-Sound env w names h

-- Whatever frames, connections and cleanup ticks the relay serves, with whatever faults of Redis,
-- Postgres and the object store on the way: if the names it draws differ and have no slash, then
-- every row of messages that points to an object still points to one that is in the store, under
-- a name that the relay drew, when it did so at the start and no story had an object.
pub history-Sound :
    (env : Env) (w : World) (ms : List Moment)
    → Names env
    → Sound env w
    → Sound env (history env w ms)
unfolding history Sound
history-Sound env w [] names h = h
history-Sound env w (m ∷ ms) names h =
    history-Sound env (serve (at_moment env m) w m.event) ms names
      (serve-Sound (at_moment env m) w m.event names h)
