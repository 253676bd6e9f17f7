-- ===== src/Relay/Dispatch/Stored/Sending.antt =====
-- The rows and objects over handleSendMessage and handleBroadcastGroupMessage of
-- wiltkey_server/handlers.go.
use wilt_key.Prelude.{
  ℕ, suc, ◌≡◌, refl, sym, ap, ◌∙◌, String, false, not, Option, none, some, List, [], ◌∷◌, ◌==◌,
  eq_iff, leb, All, arith, if_case, option_case, Bool-cases, inl, inr,
}
use wilt_key.Prelude.Text.{len}
use wilt_key.Prelude.GoMap.{GoMap}
use wilt_key.Redis.Blocks
use wilt_key.Db.{PgMessage}
use wilt_key.Storage.{upload_url, storage_key_from_url}
use wilt_key.Storage.Keys.{storage_key_from_url-upload_url}
use wilt_key.Relay.{
  Env, World, Client, WsMessage, Frame, Op, send_json, remove_stored, large_payload_threshold,
  error,
}
use wilt_key.Relay.Premium.{hold_ttl_for_recipient, sender_gates}
use wilt_key.Relay.Send.{put_object, send_large, route_message, handle_send_message}
use wilt_key.Relay.Dispatch.Stored.{Present, UrlPresent, HasObject, Sound, Names}
use wilt_key.Relay.Dispatch.Stored.Untouched.{
  Untouched-Sound, hold_ttl-Untouched, sender_gates-Untouched,
}
use wilt_key.Relay.Dispatch.Stored.Writing.{
  put_object-Sound, put_object-Present, point_and_notify-Sound, route_small-Sound,
}
use wilt_key.Relay.Dispatch.Stored.Removal.{Unused, remove_stored-Sound}

-- A URL of a name not drawn yet is no row's.
fresh_url :
    (env : Env) (bucket : GoMap String) (n : ℕ) (u : Option String)
    → Names env
    → UrlPresent env bucket n u
    → (elim u [ none ↦ false | some v ↦ v == upload_url env.storage (env.uuid n) ]) ≡ false
unfolding Present
fresh_url env bucket n none names p = refl
fresh_url env bucket n (some v) (differ, plain) (k, l, e, q) =
    elim (Bool-cases (v == upload_url env.storage (env.uuid n))) [
      | inr other ↦ other
      | inl same ↦
          let urls : upload_url env.storage (env.uuid k) ≡ upload_url env.storage (env.uuid n) =
            sym e ∙ ground (arith, eq_iff v (upload_url env.storage (env.uuid n))) in
          let keys =
            sym (storage_key_from_url-upload_url env.storage (env.uuid k) (plain k))
            ∙ ap storage_key_from_url urls
            ∙ storage_key_from_url-upload_url env.storage (env.uuid n) (plain n) in
          let index = differ k n keys in ground arith
    ]

fresh-Unused :
    (env : Env) (bucket : GoMap String) (n : ℕ) (ms : List PgMessage)
    → Names env
    → All (HasObject env bucket n) ms
    → Unused (upload_url env.storage (env.uuid n)) ms
fresh-Unused env bucket n [] names hs = tt
fresh-Unused env bucket n (m ∷ ms) names (p, hs) =
    (fresh_url env bucket n m.bucket_url names p, fresh-Unused env bucket n ms names hs)

pub send_json-Sound :
    (env : Env) (w : World) (c : Client) (f : Frame) → Sound env w → Sound env (send_json w c f)
unfolding send_json
send_json-Sound env w c f h = Untouched-Sound env w _ (refl, refl, refl, ground arith) h

pub draw-Sound :
    (env : Env) (w : World) → Sound env w → Sound env (record w { draws = suc w.draws })
draw-Sound env w h = Untouched-Sound env w _ (refl, refl, refl, ground arith) h

-- An upload that is taken back before a row points to it.
pub rollback-Sound :
    (env : Env) (w w' : World) (body : String)
    → Names env
    → Sound env w
    → w'.db.messages ≡ w.db.messages
    → Sound env w'
    → Sound env (remove_stored env w' (env.uuid w.draws))
unfolding Sound
rollback-Sound env w w' body names (hm, hs) e h' =
    remove_stored-Sound env w' w.draws
      (rw e (fresh-Unused env w.bucket w.draws w.db.messages names hm)) h'

send_large-Sound :
    (env : Env) (w : World) (c : Client) (msg : WsMessage) (ttl : ℕ)
    → Names env
    → Sound env w
    → Sound env (send_large env w c msg ttl)
unfolding send_large
send_large-Sound env w c msg ttl names h =
    let w' = put_object env w msg.envelope in
    let stored = put_object-Sound env w msg.envelope h in
    if_case (Sound env) (not env.has_pg) (send_json-Sound env w c _ h) (
      if_case (Sound env) (env.fails Op.upload (env.uuid w.draws))
        (send_json-Sound env _ c _ (draw-Sound env w h))
        (if_case (Sound env) (env.fails Op.store_message msg.recipient_id)
          (send_json-Sound env _ c _
            (rollback-Sound env w w' msg.envelope names h (unfold put_object in refl) stored))
          (point_and_notify-Sound env w' c msg msg.recipient_id _ ttl
            (put_object-Present env w msg.envelope) stored)))

route_message-Sound :
    (env : Env) (w : World) (c : Client) (msg : WsMessage)
    → Names env
    → Sound env w
    → Sound env (route_message env w c msg)
unfolding route_message
route_message-Sound env w c msg names h =
    let (ttl, w') = hold_ttl_for_recipient env w msg.recipient_id in
    let h' = Untouched-Sound env w w' (hold_ttl-Untouched env w msg.recipient_id) h in
    let small = route_small-Sound env w' c msg.recipient_id msg.envelope msg.content_type ttl h' in
    if_case (Sound env) (leb large_payload_threshold (len msg.envelope))
      (send_large-Sound env w' c msg ttl names h')
      (option_case (Sound env) _ small (λ e. send_json-Sound env _ c _ small))

pub handle_send-Sound :
    (env : Env) (w : World) (c : Client) (msg : WsMessage)
    → Names env
    → Sound env w
    → Sound env (handle_send_message env w c msg)
unfolding handle_send_message
handle_send-Sound env w c msg names h =
    let (refusal, w') = sender_gates env w c (len msg.envelope) in
    let h' = Untouched-Sound env w w' (sender_gates-Untouched env w c (len msg.envelope)) h in
    if_case (Sound env) (msg.recipient_id == "") (send_json-Sound env w c _ h) (
      if_case (Sound env) (env.fails Op.queue_blocked msg.recipient_id)
        (send_json-Sound env w c _ h)
        (if_case (Sound env) (Blocks.is_queue_blocked w.redis env.now msg.recipient_id)
          (send_json-Sound env w c _ h)
          (option_case (Sound env) refusal (route_message-Sound env w' c msg names h')
            (λ e. send_json-Sound env w' c (error e) h'))))
