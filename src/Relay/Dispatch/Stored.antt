-- ===== src/Relay/Dispatch/Stored.antt =====
-- The rows of messages and the objects that they point to, over the handlers of wiltkey_server.
pub mod Untouched
pub mod Writing
pub mod Removal
pub mod Pruning
pub mod Sending
pub mod Broadcasting
pub mod History
use wilt_key.Prelude.{
  ℕ, ◌≡◌, ◌≤◌, ◌<◌, String, Bool, true, false, Option, none, some, List, [], ◌∷◌, ◌++◌, All, arith,
  if◌then◌else◌,
}
use wilt_key.Prelude.GoMap.{GoMap, lookup}
use wilt_key.Db.{PgMessage, PgStory}
use wilt_key.Db.Messages.{is_some}
use wilt_key.Storage.{upload_url, has_slash}
use wilt_key.Relay.{Env, World}

-- The object at `url` is there: one that an upload of this relay put under a name that it drew.
unfoldable pub Present : Env → GoMap String → ℕ → String → Type 0
Present env bucket draws url =
    (k : ℕ) × (k < draws)
    × (url ≡ upload_url env.storage (env.uuid k))
    × (is_some (lookup bucket (env.uuid k)) ≡ true)

-- A row that points to an object points to one that is there.
abbrev pub UrlPresent : Env → GoMap String → ℕ → Option String → Type 0
UrlPresent env bucket draws none = Unit
UrlPresent env bucket draws (some url) = Present env bucket draws url

abbrev pub HasObject : Env → GoMap String → ℕ → PgMessage → Type 0
HasObject env bucket draws m = UrlPresent env bucket draws m.bucket_url

abbrev pub NoUrl : PgStory → Type 0
NoUrl s = s.bucket_url ≡ none

-- No row dangles, and no story has an object.
unfoldable pub Sound : Env → World → Type 0
unfolding Present
Sound env w = All (HasObject env w.bucket w.draws) w.db.messages × All NoUrl w.db.stories

-- The names drawn differ, and have no slash.
abbrev pub Names : Env → Type 0
Names env =
    ((i j : ℕ) → env.uuid i ≡ env.uuid j → i ≡ j) × ((i : ℕ) → has_slash (env.uuid i) ≡ false)
