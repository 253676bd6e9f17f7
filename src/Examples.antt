-- ===== src/Examples.antt =====
-- Concrete inputs: the store of a relay, its users and their messages.
pub mod Store
pub mod Rows
pub mod Traffic
pub mod Sockets
pub mod Puzzles
pub mod Servers
pub mod Modes
pub mod Handshakes
pub mod Floods
pub mod Purchases
pub mod Attestations
use wilt_key.Prelude.{
  ℕ, ◌+◌, ◌*◌, zero, suc, String, Bool, true, false, Option, none, some, List, [], ◌∷◌,
  if◌then◌else◌,
}
use wilt_key.Prelude.Text.{concat}
use wilt_key.Prelude.GoMap.{empty, insert}
use wilt_key.Time.{second, hour}
use wilt_key.Redis.{RedisClient, MemoryZ, new_redis_client}
use wilt_key.Db.{Db, PgMessage, empty_db}
use wilt_key.Storage.{local}
use wilt_key.Crypto.{Primitives}
use wilt_key.Relay.{Env, World, Client, WsMessage}

abbrev pub noon : ℕ
noon = 1000000 * second

abbrev pub greeting : MemoryZ
greeting = record { sender_id = "bob"; envelope = "hi"; content_type = "text"; expires = 0 }

abbrev pub repeat : ℕ → ℕ → List ℕ
repeat zero b = []
repeat (suc n) b = b ∷ repeat n b

-- A digest of three bytes; every signature verifies, and one of 64 bytes is made.
abbrev pub hashes : Primitives
hashes = record {
  sha256 = λ b. 0 ∷ 0 ∷ 0 ∷ [];
  ed25519_verify = λ k m s. true;
  ed25519_sign = λ k m. repeat 64 7;
}

abbrev pub stored_row : String → String → String → ℕ → PgMessage
stored_row id recipient_id url expires_at = record {
  id = id;
  recipient_id = recipient_id;
  sender_id = "bob";
  envelope = none;
  bucket_url = some url;
  content_type = "file";
  expires_at = expires_at;
  size_bytes = 5;
  offer_meta = "";
}

-- x, xx, xxx, …
unfoldable pub name : ℕ → String
name zero = "x"
name (suc n) = concat "x" (name n)

abbrev pub env : Env
env = record {
  now = noon;
  has_pg = true;
  high_ram = false;
  fails = λ op k. false;
  storage = local;
  uuid = name;
  offer_meta = λ envelope. none;
}

abbrev pub ann : Client
ann = record { id = "ann"; conn = 1 }

abbrev pub frame_to : String → String → WsMessage
frame_to type recipient_id = record {
  type = type;
  recipient_id = recipient_id;
  envelope = "hi";
  content_type = "text";
  status = "";
  recipients = [];
  nuke_envelope = "gone";
  message_id = "";
  story_type = "";
  ciphertext_b64 = "";
  media_meta = "";
  story_id = "";
  contacts = [];
  emoji = "";
}

-- Ann is online; an object is stored under the first name, and a row to Ann points to it.
abbrev pub world : World
world = record {
  redis = new_redis_client;
  db = record empty_db { messages = stored_row "m1" "ann" "local://x" (noon + hour) ∷ [] };
  bucket = insert empty "x" "hello";
  clients = insert empty "ann" ann;
  draws = 1;
  sent = [];
  wakes = [];
}
