-- ===== src/Relay/Dispatch/Stored/Broadcasting.antt =====
-- The rows and objects over handleBroadcastGroupMessage of wiltkey_server/handlers.go.
use wilt_key.Prelude.{
  ℕ, ◌≡◌, ◌≤◌, refl, ◌∙◌, String, Bool, false, not, List, [], ◌∷◌, eqb, ltb, leb, length, arith,
  if_case, if_split, option_case,
}
use wilt_key.Prelude.Text.{len}
use wilt_key.Redis.Blocks
use wilt_key.Db.Messages.{store_message_sized}
use wilt_key.Storage.{upload_url}
use wilt_key.Relay.{
  Env, World, Client, WsMessage, Op, send_json, start_wake, notify, large_payload_threshold,
  max_broadcast_recipients, error,
}
use wilt_key.Relay.Premium.{hold_ttl_for_recipient, sender_gates}
use wilt_key.Relay.Send.{put_object, point_and_notify}
use wilt_key.Relay.Broadcast.{
  distinct_recipients, fan_out_one, fan_out, point_one, point_all, broadcast_large_file,
  deliver_to_group, handle_broadcast_group_message,
}
use wilt_key.Relay.Dispatch.Stored.{Present, Sound, Names}
use wilt_key.Relay.Dispatch.Stored.Untouched.{
  Present-later, Untouched-Sound, hold_ttl-Untouched, sender_gates-Untouched,
}
use wilt_key.Relay.Dispatch.Stored.Writing.{
  put_object-Sound, put_object-Present, point_and_notify-Sound, route_small-Sound,
}
use wilt_key.Relay.Dispatch.Stored.Sending.{send_json-Sound, draw-Sound, rollback-Sound}

fan_out_one-Sound :
    (env : Env) (w : World) (c : Client) (msg : WsMessage) (rid : String)
    → Sound env w
    → Sound env (fan_out_one env w c msg rid)
unfolding fan_out_one
fan_out_one-Sound env w c msg rid h =
    let (ttl, w') = hold_ttl_for_recipient env w rid in
    if_case (Sound env) (env.fails Op.queue_blocked rid) h (
      if_case (Sound env) (Blocks.is_queue_blocked w.redis env.now rid) h (
        route_small-Sound env w' c rid msg.envelope msg.content_type ttl
          (Untouched-Sound env w w' (hold_ttl-Untouched env w rid) h)))

fan_out-Sound :
    (env : Env) (w : World) (c : Client) (msg : WsMessage) (rids : List String)
    → Sound env w
    → Sound env (fan_out env w c msg rids)
unfolding fan_out
fan_out-Sound env w c msg [] h = h
fan_out-Sound env w c msg (rid ∷ rids) h =
    fan_out-Sound env (fan_out_one env w c msg rid) c msg rids (fan_out_one-Sound env w c msg rid h)

-- A turn of the loop over pointers keeps the objects, and the rows where it stores none.
point_one-keeps :
    (env : Env) (w : World) (c : Client) (msg : WsMessage) (url rid : String)
    → ((point_one env w c msg url rid).1.bucket ≡ w.bucket)
      × (w.draws ≤ (point_one env w c msg url rid).1.draws)
      × ((point_one env w c msg url rid).0 ≡ false
          → (point_one env w c msg url rid).1.db.messages ≡ w.db.messages)
unfolding point_one point_and_notify notify send_json start_wake store_message_sized
point_one-keeps env w c msg url rid = ground (arith, hold_ttl-Untouched env w rid)

point_one-Sound :
    (env : Env) (w : World) (c : Client) (msg : WsMessage) (url rid : String)
    → Present env w.bucket w.draws url
    → Sound env w
    → Sound env (point_one env w c msg url rid).1
unfolding point_one
point_one-Sound env w c msg url rid p h =
    let P : Bool × World → Type 0 = λ r. Sound env r.1 in
    let (ttl, w') = hold_ttl_for_recipient env w rid in
    let (em, es, eb, l) = hold_ttl-Untouched env w rid in
    let h' = Untouched-Sound env w w' (em, es, eb, l) h in
    if_case P (env.fails Op.queue_blocked rid) h (
      if_case P (Blocks.is_queue_blocked w.redis env.now rid) h (
        if_case P (env.fails Op.store_message rid) h' (
          point_and_notify-Sound env w' c msg rid url ttl
            (rw eb (Present-later env w.bucket w.draws w'.draws url l p)) h')))

point_all-Sound :
    (env : Env) (w : World) (c : Client) (msg : WsMessage) (url : String) (rids : List String)
    → Present env w.bucket w.draws url
    → Sound env w
    → Sound env (point_all env w c msg url rids).1
unfolding point_all
point_all-Sound env w c msg url [] p h = h
point_all-Sound env w c msg url (rid ∷ rids) p h =
    let w' = (point_one env w c msg url rid).1 in
    let (eb, l, quiet) = point_one-keeps env w c msg url rid in
    point_all-Sound env w' c msg url rids
      (rw eb (Present-later env w.bucket w.draws w'.draws url l p))
      (point_one-Sound env w c msg url rid p h)

-- Where no pointer was stored, the rows are as before.
point_all-none :
    (env : Env) (w : World) (c : Client) (msg : WsMessage) (url : String) (rids : List String)
    → (point_all env w c msg url rids).0 ≡ 0
    → (point_all env w c msg url rids).1.db.messages ≡ w.db.messages
unfolding point_all
point_all-none env w c msg url [] e = refl
point_all-none env w c msg url (rid ∷ rids) e =
    let (stored, w') = point_one env w c msg url rid in
    let (eb, l, quiet) = point_one-keeps env w c msg url rid in
    point_all-none env w' c msg url rids (ground arith) ∙ quiet (ground arith)

broadcast_large-Sound :
    (env : Env) (w : World) (c : Client) (msg : WsMessage) (rids : List String)
    → Names env
    → Sound env w
    → Sound env (broadcast_large_file env w c msg rids)
unfolding broadcast_large_file
broadcast_large-Sound env w c msg rids names h =
    let w1 = put_object env w msg.envelope in
    let url = upload_url env.storage (env.uuid w.draws) in
    let all =
      point_all-Sound env w1 c msg url rids (put_object-Present env w msg.envelope)
        (put_object-Sound env w msg.envelope h) in
    let (delivered, w2) = point_all env w1 c msg url rids in
    if_case (Sound env) (not env.has_pg) (send_json-Sound env w c _ h) (
      if_case (Sound env) (env.fails Op.upload (env.uuid w.draws))
        (send_json-Sound env _ c _ (draw-Sound env w h))
        (if_split (Sound env) (eqb delivered 0)
          (λ nobody.
            rollback-Sound env w w2 msg.envelope names h
              (point_all-none env w1 c msg url rids (ground arith) ∙ (unfold put_object in refl))
              all)
          (λ _. all)))

pub handle_broadcast-Sound :
    (env : Env) (w : World) (c : Client) (msg : WsMessage)
    → Names env
    → Sound env w
    → Sound env (handle_broadcast_group_message env w c msg).1
unfolding handle_broadcast_group_message deliver_to_group
handle_broadcast-Sound env w c msg names h =
    let P : ℕ × World → Type 0 = λ r. Sound env r.1 in
    let rids = distinct_recipients c.id [] msg.recipients in
    let (refusal, w') = sender_gates env w c (len msg.envelope) in
    let h' = Untouched-Sound env w w' (sender_gates-Untouched env w c (len msg.envelope)) h in
    if_case P (eqb (length rids) 0) (send_json-Sound env w c _ h) (
      if_case P (ltb max_broadcast_recipients (length rids)) (send_json-Sound env w c _ h) (
        option_case (Sound env) refusal
          (if_case (Sound env) (leb large_payload_threshold (len msg.envelope))
            (broadcast_large-Sound env w' c msg rids names h') (fan_out-Sound env w' c msg rids h'))
          (λ e. send_json-Sound env w' c (error e) h')))
