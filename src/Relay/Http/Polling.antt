-- ===== src/Relay/Http/Polling.antt =====
-- Push registration and passive polling: handlePushRegister and handlePushUnregister of
-- wiltkey_server/push.go, handleQueueStatus of main.go.
use wilt_key.Prelude.{ℕ, String, Bool, not, ◌||◌, Option, none, some, ◌==◌, ltb, if◌then◌else◌}
use wilt_key.Prelude.Text.{concat}
use wilt_key.Redis.Queue
use wilt_key.Redis.Blocks
use wilt_key.Redis.Tokens
use wilt_key.Crypto.{Primitives, decimal}
use wilt_key.Relay.{Env, World, set_push, delete_push, queue_blocked, queue_count}
use wilt_key.Relay.Http.{
  Reply, reply, Claim, check_claim, verify_push_identity, verify_device_token_gate,
}

pub record PushRequest : Type 0 where
  pub id : String
  pub pubkey : String
  pub timestamp : ℕ
  pub sig : String
  pub token : String
  pub device_token : String

abbrev pub push_claim : PushRequest → String → Claim
push_claim req signed = record {
  id = req.id;
  pubkey = req.pubkey;
  timestamp = req.timestamp;
  sig = req.sig;
  signed = signed;
}

-- id:timestamp
abbrev pub bound : String → ℕ → String
bound id timestamp = concat id (concat ":" (decimal timestamp))

-- `none` is a body that does not decode.
unfoldable pub handle_push_register :
    Env → Primitives → World → String → String → Option PushRequest → Reply × World
unfolding verify_push_identity verify_device_token_gate
handle_push_register env p w method ip none = (
  if not (method == "POST")
      then reply 405 "Method not allowed"
      else reply 400 "Invalid request body",
  w,
)
handle_push_register env p w method ip (some req) =
    if not (method == "POST")
    then (reply 405 "Method not allowed", w)
    else if req.token == ""
    then (reply 400 "Missing token", w)
    else elim (verify_push_identity env p w ip
        (push_claim req (concat (bound req.id req.timestamp) (concat ":" req.token)))) [
          | some refusal ↦ refusal
          | none ↦ elim (verify_device_token_gate env p w req.id req.device_token) [
            | some refusal ↦ (refusal, w)
            | none ↦
                if env.fails set_push req.id
                then (reply 500 "Database error storing token", w)
                else (
                  reply 200 "registered",
                  record w { redis = Tokens.set_push_token w.redis req.id req.token },
                )
          ]
        ]

unfoldable pub handle_push_unregister :
    Env → Primitives → World → String → String → Option PushRequest → Reply × World
unfolding verify_push_identity verify_device_token_gate
handle_push_unregister env p w method ip none = (
  if not (method == "POST")
      then reply 405 "Method not allowed"
      else reply 400 "Invalid request body",
  w,
)
handle_push_unregister env p w method ip (some req) =
    if not (method == "POST")
    then (reply 405 "Method not allowed", w)
    else elim (verify_push_identity env p w ip (push_claim req (bound req.id req.timestamp))) [
      | some refusal ↦ refusal
      | none ↦ elim (verify_device_token_gate env p w req.id req.device_token) [
        | some refusal ↦ (refusal, w)
        | none ↦
            if env.fails delete_push req.id
            then (reply 500 "Database error clearing token", w)
            else (
              reply 200 "unregistered",
              record w { redis = Tokens.delete_push_token w.redis req.id },
            )
      ]
    ]

-- The query of a status request; `timestamp` is `none` where the text is no number.
pub record StatusQuery : Type 0 where
  pub id : String
  pub timestamp_str : String
  pub timestamp : Option ℕ
  pub sig : String
  pub pubkey : String
  pub device_token : String

pub data Status : Type 0 where
  refused : Reply → Status
  queue_status : Bool → Bool → Status

abbrev pub refuse : Reply × World → Status × World
refuse (r, w) = (refused r, w)

-- Behind the checks: whether there is a payload, and whether the queue is blocked.
unfoldable pub poll_queue : Env → World → String → Status × World
poll_queue env w id =
    if env.fails queue_blocked id
    then (refused (reply 500 "Database error checking block status"), w)
    else if env.fails queue_count id
    then (refused (reply 500 "Database error fetching queue count"), w)
    else (
      queue_status (ltb 0 (Queue.get_notifiable_queue_count w.redis env.now id))
          (Blocks.is_queue_blocked w.redis env.now id),
      w,
    )

unfoldable pub handle_queue_status :
    Env → Primitives → World → String → String → StatusQuery → Status × World
unfolding check_claim verify_device_token_gate poll_queue
handle_queue_status env p w method ip q =
    if not (method == "GET")
    then (refused (reply 405 "Method not allowed"), w)
    else if q.id == "" || (q.timestamp_str == "" || (q.sig == "" || q.pubkey == ""))
    then (refused (reply 400 "Missing query parameters"), w)
    else elim q.timestamp [
      | none ↦ (refused (reply 400 "Invalid timestamp"), w)
      | some timestamp ↦
          elim (check_claim env p w ip 30 "Invalid pubkey hex format" "identity public key mismatch"
            "invalid authentication signature"
            (record {
              id = q.id;
              pubkey = q.pubkey;
              timestamp = timestamp;
              sig = q.sig;
              signed = bound q.id timestamp;
            })) [
              | some refusal ↦ refuse refusal
              | none ↦ elim (verify_device_token_gate env p w q.id q.device_token) [
                | some refusal ↦ (refused refusal, w)
                | none ↦ poll_queue env w q.id
              ]
            ]
    ]
