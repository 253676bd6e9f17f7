-- ===== src/Examples/Traffic.antt =====
-- Concrete inputs to the laws of the handlers.
use text.Mathlib.TextLemmas.{nil-append, cons-append}
use wilt_key.Prelude.{ℕ, zero, suc, ◌+◌, ◌≡◌, ap, refl, true, false, some, List, [], ◌∷◌, arith}
use wilt_key.Prelude.Text.{len, len-concat}
use wilt_key.Prelude.GoMap.{lookup, insert, empty}
use wilt_key.Time.{minute}
use wilt_key.Redis.Tokens.{split_last_colon}
use wilt_key.Db.Messages.{get_file_message}
use wilt_key.Storage.{upload_url, has_slash, storage_key_from_url}
use wilt_key.Crypto.{Voucher}
use wilt_key.Redis.Once.{get_pow_challenge_difficulty, store_pow_challenge}
use wilt_key.Relay.{World, Client, WsMessage, send_json, file_error}
use Prim.Native.String.{String}
use wilt_key.Relay.Files.{handle_request_file, handle_file_received, served}
use wilt_key.Relay.Files.Access.{request_file_refused, received_by_other}
use wilt_key.Relay.Dispatch.{Moment, frame, tick, history}
use wilt_key.Relay.Dispatch.Stored.{Present, Sound}
use wilt_key.Relay.Dispatch.Stored.History.{history-Sound}
use wilt_key.Relay.Http.{reply, Claim}
use wilt_key.Relay.Http.Protection.{PostMessageRequest, check_spam_protection}
use wilt_key.Relay.Http.Queue.{handle_post_queue}
use wilt_key.Relay.Http.Social.{handle_file_download}
use wilt_key.Relay.Http.Guards.{download_after_request}
use wilt_key.Relay.Http.Posting.{with_marks, post_refused}
use wilt_key.Redis.{RedisClient}
use wilt_key.Db.{PgMessage}
use wilt_key.Relay.{Wake}
use wilt_key.Redis.Tokens.{set_push_token}
use wilt_key.Time.{hour}
use wilt_key.Examples.{stored_row, noon, env, ann, world, frame_to, hashes, name}

len-name : (n : ℕ) → len (name n) ≡ suc n
unfolding name
len-name zero = refl
len-name (suc n) = rw (len-concat "x" (name n)) (omega (arith, len-name n))

name-inj : (i j : ℕ) → name i ≡ name j → i ≡ j
name-inj i j e = omega (arith, len-name i, len-name j, ap (λ s. len s) e)

name-plain : (n : ℕ) → has_slash (name n) ≡ false
unfolding name has_slash
name-plain zero = refl
name-plain (suc n) =
    rw (cons-append "x" "" (name n), nil-append (name n)) (ground (arith, name-plain n))

world-Sound : Sound env world
unfolding Sound Present name upload_url lookup insert empty
world-Sound = (((0, omega arith, refl, refl), tt), tt)

abbrev moments : List Moment
moments =
    record {
      now = noon + 5;
      high_ram = true;
      fails = λ op k. false;
      event = frame ann (frame_to "SEND_MESSAGE" "bob");
    }
    ∷ record { now = noon + 9; high_ram = false; fails = λ op k. false; event = tick }
    ∷ []

history-Sound_example : Sound env (history env world moments)
history-Sound_example = history-Sound env world moments (name-inj, name-plain) world-Sound

abbrev eve : Client
eve = record { id = "eve"; conn = 2 }

abbrev ask : WsMessage
ask = record (frame_to "REQUEST_FILE" "") { message_id = "m1" }

request_file_refused_example :
    (reason : String) × (handle_request_file env world eve ask
      ≡ send_json world eve (file_error "m1" reason))
request_file_refused_example = request_file_refused env world eve ask (refl, tt)

received_by_other_example :
    ((handle_file_received env world eve ask).db ≡ world.db)
    × ((handle_file_received env world eve ask).bucket ≡ world.bucket)
    × ((handle_file_received env world eve ask).redis ≡ world.redis)
received_by_other_example = received_by_other env world eve ask (refl, tt)

-- The identity of the empty key, by the digest of `hashes`.
abbrev claim : Claim
claim = record {
  id = "000000";
  pubkey = "0000000000000000000000000000000000000000000000000000000000000000";
  timestamp = 1000010;
  sig =
      "00000000000000000000000000000000000000000000000000000000000000000000000000000000000000000000000000000000000000000000000000000000";
  signed = "hello";
}

abbrev ticket : Voucher
ticket = record { recipient_public_key = ""; sender_key_hash = "vip"; expiry = 0; signature = "" }

abbrev post : PostMessageRequest
post = record {
  recipient_id = "ann";
  envelope = "hi";
  challenge = "c1";
  nonce = 7;
  voucher = some ticket;
}

post_refused_example :
    let w' = (handle_post_queue env hashes world "POST" "10.0.0.1" "pow" (some post)).1 in
    w' ≡ record world { redis = with_marks world.redis w'.redis }
unfolding check_spam_protection lookup empty get_pow_challenge_difficulty
post_refused_example =
    post_refused env hashes world "POST" "10.0.0.1" "pow" post
      (reply 400 "Validation failed: invalid/expired challenge") refl

-- Ann's relay with an open challenge.
abbrev challenged : World
challenged = record world { redis = store_pow_challenge world.redis noon "c1" 5 }

abbrev wanted : PgMessage
wanted = stored_row "m1" "ann" "local://x" (noon + hour)

download_after_request_example :
    handle_file_download
      (record env { now = noon + minute })
      (handle_request_file env world ann ask)
      "GET"
      (name 1)
    ≡ served "hello" 5
unfolding get_file_message split_last_colon name storage_key_from_url lookup insert empty
download_after_request_example =
    download_after_request env world ann ask (record env { now = noon + minute }) wanted "local://x"
      "hello" refl refl refl refl refl refl refl refl refl refl (omega arith) refl refl refl refl
      refl refl

abbrev registered : RedisClient
registered = set_push_token world.redis "bob" "t1"

abbrev wake : Wake
wake = record { recipient_id = "bob"; sender_id = "ann"; content_type = "text" }
