-- ===== src/Relay/Dispatch.antt =====
-- handleWSMessage of wiltkey_server/websocket.go, and histories of the relay: the frames of clients,
-- the connections that find their offline queue, and the ticks of the cleanup worker, in the order
-- in which they take effect. Of the handlers, each is one step.
pub mod Stored
use wilt_key.Prelude.{
  ℕ, suc, ◌+◌, String, Bool, Option, none, some, List, [], ◌∷◌, ◌==◌, if◌then◌else◌,
}
use wilt_key.Relay.{Env, World, Client, WsMessage, Op}
use wilt_key.Relay.Send.{handle_send_message}
use wilt_key.Relay.Broadcast.{handle_broadcast_group_message}
use wilt_key.Relay.Files.{
  handle_request_file, handle_file_received, deliver_offline_queue, resend_pending_file_offers,
}
use wilt_key.Relay.Control.{handle_typing_status, handle_nuke_recipient, handle_ack_nuke}
use wilt_key.Relay.Cleanup.{cleanup_tick}
use wilt_key.Relay.Stories.{
  handle_post_story, handle_fetch_stories, handle_story_react, handle_story_reactions,
  handle_delete_story,
}

-- The handlers of stories.
unfoldable pub handle_story_message : Env → World → Client → WsMessage → World
unfolding handle_post_story handle_fetch_stories handle_story_react handle_story_reactions
    handle_delete_story
handle_story_message env w c msg =
    if msg.type == "POST_STORY"
    then handle_post_story env w c msg
    else if msg.type == "FETCH_STORIES"
    then handle_fetch_stories env w c msg
    else if msg.type == "STORY_REACT"
    then handle_story_react env w c msg
    else if msg.type == "FETCH_STORY_REACTIONS"
    then handle_story_reactions env w c msg
    else if msg.type == "DELETE_STORY"
    then handle_delete_story env w c msg
    else w

-- The handlers of stored files, and on to those of stories.
unfoldable pub handle_stored_message : Env → World → Client → WsMessage → World
unfolding handle_file_received handle_request_file resend_pending_file_offers handle_story_message
handle_stored_message env w c msg =
    if msg.type == "FILE_RECEIVED"
    then handle_file_received env w c msg
    else if msg.type == "REQUEST_FILE"
    then handle_request_file env w c msg
    else if msg.type == "REQUEST_PENDING_FILES"
    then resend_pending_file_offers env w c
    else handle_story_message env w c msg

unfoldable pub handle_ws_message : Env → World → Client → WsMessage → World
unfolding handle_send_message handle_broadcast_group_message handle_typing_status
    handle_nuke_recipient handle_ack_nuke handle_stored_message
handle_ws_message env w c msg =
    if msg.type == "SEND_MESSAGE"
    then handle_send_message env w c msg
    else if msg.type == "BROADCAST_GROUP_MESSAGE"
    then (handle_broadcast_group_message env w c msg).1
    else if msg.type == "TYPING_STATUS"
    then handle_typing_status w c msg
    else if msg.type == "NUKE_RECIPIENT"
    then handle_nuke_recipient env w c msg
    else if msg.type == "ACK_NUKE"
    then handle_ack_nuke env w c
    else handle_stored_message env w c msg

-- What happens, with the clock, the load and the faults that it meets.
pub data Event : Type 0 where
  frame : Client → WsMessage → Event
  connected : Client → Event
  tick : Event

pub record Moment : Type 0 where
  pub now : ℕ
  pub high_ram : Bool
  pub fails : Op → String → Bool
  pub event : Event

abbrev pub serve : Env → World → Event → World
serve env w (frame c msg) = handle_ws_message env w c msg
serve env w (connected c) = deliver_offline_queue env w c
serve env w tick = cleanup_tick env w

abbrev pub at_moment : Env → Moment → Env
at_moment env m = record env { now = m.now; high_ram = m.high_ram; fails = m.fails }

unfoldable pub history : Env → World → List Moment → World
unfolding handle_ws_message deliver_offline_queue cleanup_tick
history env w [] = w
history env w (m ∷ ms) = history env (serve (at_moment env m) w m.event) ms
