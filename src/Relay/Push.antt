-- ===== src/Relay/Push.antt =====
-- Wake-ups: pushWorthyContentType and sendWakePush of wiltkey_server/push.go. What the push service
-- answers (fcm.go) is a parameter.
use wilt_key.Prelude.{
  ◌≡◌, refl, String, Bool, true, false, not, ◌||◌, List, [], ◌∷◌, ◌==◌, eq_refl, sym, ◌∙◌, if_case,
  if_split, arith, if◌then◌else◌,
}
use wilt_key.Prelude.GoMap.{lookup-delete}
use wilt_key.Redis.{RedisClient}
use wilt_key.Redis.Queue.{notifiable_content_types, is_notifiable}
use wilt_key.Redis.Tokens
use wilt_key.Relay.{Env, Wake, Op, get_push}

unfoldable pub push_worthy_content_type : String → Bool
push_worthy_content_type ct =
    ct == ""
    || (ct == "text"
        || (ct == "image" || (ct == "voice" || (ct == "group_message" || ct == "emergency_chat"))))

-- What PushSender.Send returns: nil, errTokenUnregistered, or another error.
pub data PushResult : Type 0 where
  delivered unregistered failed : PushResult

-- The pushes sent (token, sender, content type) and the state of Redis. `enabled` is
-- h.push.Enabled(), and `send` the service.
unfoldable pub send_wake_push :
    Env
    → Bool
    → (String → PushResult)
    → RedisClient
    → Wake
    → List (String × String × String) × RedisClient
unfolding push_worthy_content_type
send_wake_push env enabled send r wake =
    if not enabled
    then ([], r)
    else if not (push_worthy_content_type wake.content_type)
    then ([], r)
    else if env.fails get_push wake.recipient_id
    then ([], r)
    else (let token = Tokens.get_push_token r wake.recipient_id in
        if token == "" then ([], r) else (
          (token, wake.sender_id, wake.content_type) ∷ [],
          elim (send token) [
            | delivered ↦ r
            | unregistered ↦
                if env.fails Op.delete_push wake.recipient_id
                then r
                else Tokens.delete_push_token r wake.recipient_id
            | failed ↦ r
          ],
        ))

-- A device is woken for exactly the content types that the passive poll counts.
pub push_worthy-is_notifiable : (ct : String) → push_worthy_content_type ct ≡ is_notifiable ct
unfolding push_worthy_content_type is_notifiable notifiable_content_types
push_worthy-is_notifiable ct = ground arith

deletes_unregistered :
    (env : Env) (send : String → PushResult) (r : RedisClient) (wake : Wake)
    → (push_worthy_content_type wake.content_type ≡ true)
    → env.fails get_push wake.recipient_id ≡ false
    → env.fails Op.delete_push wake.recipient_id ≡ false
    → send (Tokens.get_push_token r wake.recipient_id) ≡ unregistered
    → (Tokens.get_push_token r wake.recipient_id == "") ≡ false
    → (send_wake_push env true send r wake).1 ≡ Tokens.delete_push_token r wake.recipient_id
unfolding send_wake_push
deletes_unregistered env send r wake worthy reads deletes gone has =
    rw (worthy, reads, has, gone, deletes) refl

silent_without_token :
    (env : Env) (enabled : Bool) (send : String → PushResult) (r : RedisClient) (wake : Wake)
    → Tokens.get_push_token r wake.recipient_id ≡ ""
    → (send_wake_push env enabled send r wake).0 ≡ []
unfolding send_wake_push
silent_without_token env enabled send r wake none_left =
    let P : List (String × String × String) × RedisClient → Type 0 = λ x. x.0 ≡ [] in
    if_case P (not enabled) refl (
      if_case P (not (push_worthy_content_type wake.content_type)) refl (
        if_case P (env.fails get_push wake.recipient_id) refl (
          if_split P (Tokens.get_push_token r wake.recipient_id == "") (λ _. refl)
            (λ has.
              let yes' : (Tokens.get_push_token r wake.recipient_id == "") ≡ true =
                rw none_left (eq_refl "") in
              let absurd : true ≡ false = sym yes' ∙ has in ground arith))))

get-delete_push_token :
    (r : RedisClient) (user_id : String)
    → Tokens.get_push_token (Tokens.delete_push_token r user_id) user_id ≡ ""
unfolding Tokens.get_push_token Tokens.delete_push_token
get-delete_push_token r user_id =
    ground (arith, lookup-delete r.memory_push_tokens user_id user_id, eq_refl user_id)

-- A token that the service calls unregistered, on a worthy wake-up with no failure of Redis, is
-- dropped: no further wake-up of that user is sent to the service, whatever its sender and content
-- type.
pub unregistered_dropped :
    (env later : Env) (enabled : Bool) (send send' : String → PushResult) (r : RedisClient)
    (wake : Wake) (sender_id content_type : String)
    → push_worthy_content_type wake.content_type ≡ true
    → env.fails get_push wake.recipient_id ≡ false
    → env.fails Op.delete_push wake.recipient_id ≡ false
    → send (Tokens.get_push_token r wake.recipient_id) ≡ unregistered
    → (Tokens.get_push_token r wake.recipient_id == "") ≡ false
    → (send_wake_push later enabled send'
        (send_wake_push env true send r wake).1
        (record wake { sender_id = sender_id; content_type = content_type })).0
      ≡ []
unregistered_dropped env later enabled send send' r wake sender_id content_type worthy reads deletes
      gone has =
    silent_without_token later enabled send' _ _ (
      rw (deletes_unregistered env send r wake worthy reads deletes gone has)
        (get-delete_push_token r wake.recipient_id))
