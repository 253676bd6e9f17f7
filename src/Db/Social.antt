-- ===== src/Db/Social.antt =====
-- The stories, story_reactions and social_budgets tables of wiltkey_server/db.go.
pub mod Budget
use wilt_key.Prelude.{
  ℕ, ◌+◌, ◌-◌, ◌*◌, String, Bool, true, false, not, ◌&&◌, ◌||◌, Option, none, some, List, [], ◌∷◌,
  ◌++◌, ◌==◌, ltb, leb, keep, take, any, if◌then◌else◌,
}
use wilt_key.Time.{day}
use wilt_key.Db.{Db, PgStory, PgStoryReaction, PgSocialBudget}
use wilt_key.Db.Messages.{first, contains}

abbrev pub week : ℕ
week = 7 * day

unfoldable pub social_budget : Db → String → Option PgSocialBudget
social_budget db user_id = first (λ b. b.user_id == user_id) db.social_budgets

unfoldable pub put_social_budget : Db → PgSocialBudget → Db
put_social_budget db b = record db {
  social_budgets = b ∷ keep (λ o. not (o.user_id == b.user_id)) db.social_budgets;
}

-- The budget that applies now: a new row, the row of a week that is over set back to zero, or the
-- row as it is.
unfoldable pub current_budget : ℕ → String → Option PgSocialBudget → PgSocialBudget
current_budget now user_id none = record {
  user_id = user_id;
  bytes_used = 0;
  week_start = now;
  updated_at = now;
}
current_budget now user_id (some b) =
    if leb week (now - b.week_start)
    then record b { bytes_used = 0; week_start = now; updated_at = now }
    else b

unfoldable pub get_or_create_social_budget : Db → ℕ → String → PgSocialBudget × Db
unfolding current_budget put_social_budget social_budget
get_or_create_social_budget db now user_id =
    let b = current_budget now user_id (social_budget db user_id) in (b, put_social_budget db b)

abbrev pub max_budget : Bool → ℕ
max_budget is_plus = if is_plus then 100 * 1024 * 1024 else 10 * 1024 * 1024

-- What ConsumeSocialBudget returns: allowed, the bytes used, the limit.
pub record Consumed : Type 0 where
  pub allowed : Bool
  pub used : ℕ
  pub max_bytes : ℕ

unfoldable pub consume_social_budget : Db → ℕ → String → ℕ → Bool → Consumed × Db
unfolding get_or_create_social_budget
consume_social_budget db now user_id bytes is_plus =
    let (b, db') = get_or_create_social_budget db now user_id in
    let total = b.bytes_used + bytes in
    if leb total (max_budget is_plus)
    then (
      record { allowed = true; used = total; max_bytes = max_budget is_plus },
      put_social_budget db' (record b { bytes_used = total; updated_at = now }),
    )
    else (record { allowed = false; used = b.bytes_used; max_bytes = max_budget is_plus }, db')

abbrev pub story_row :
    ℕ → String → String → String → String → Option String → String → ℕ → ℕ → PgStory
story_row now id sender_id story_type ciphertext_b64 bucket_url media_meta bytes_used ttl = record {
  id = id;
  sender_id = sender_id;
  story_type = story_type;
  ciphertext_b64 = ciphertext_b64;
  bucket_url = bucket_url;
  media_meta = media_meta;
  created_at = now;
  expires_at = now + ttl;
  bytes_used = bytes_used;
}

-- `id` is the fresh UUID of the story.
unfoldable pub post_story :
    Db → ℕ → String → String → String → String → Option String → String → ℕ → ℕ → Db
post_story db now id sender_id story_type ciphertext_b64 bucket_url media_meta bytes_used ttl =
    record db {
      stories =
          db.stories
          ++ story_row now id sender_id story_type ciphertext_b64 bucket_url media_meta bytes_used
              ttl
            ∷ [];
    }

unfoldable pub get_stories_feed : Db → ℕ → List String → List PgStory
get_stories_feed db now senders =
    take 500 (keep (λ s. contains s.sender_id senders && ltb now s.expires_at) db.stories)

unfoldable pub get_story : Db → ℕ → String → Option PgStory
get_story db now id = first (λ s. s.id == id && ltb now s.expires_at) db.stories

-- ON DELETE CASCADE: the reactions of a story go with it.
unfoldable pub drop_stories : (PgStory → Bool) → Db → Db
drop_stories gone db = record db {
  stories = keep (λ s. not (gone s)) db.stories;
  story_reactions =
      keep (λ r. not (any (λ s. gone s && s.id == r.story_id) db.stories)) db.story_reactions;
}

unfoldable pub delete_story : Db → String → String → Db
unfolding drop_stories
delete_story db id user_id = drop_stories (λ s. s.id == id && s.sender_id == user_id) db

abbrev pub same_reaction : String → String → PgStoryReaction → Bool
same_reaction story_id reactor_id r = r.story_id == story_id && r.reactor_id == reactor_id

-- The row that ON CONFLICT updates in place, or the new one. The order by `created_at` is kept, as
-- an update moves the row to the end.
unfoldable pub add_or_update_story_reaction : Db → ℕ → String → String → String → String → Db
add_or_update_story_reaction db now id story_id reactor_id emoji =
    let row_id : String = elim (first (same_reaction story_id reactor_id) db.story_reactions) [
      | none ↦ id
      | some r ↦ r.id
    ] in
    record db {
      story_reactions =
          keep (λ r. not (same_reaction story_id reactor_id r)) db.story_reactions
          ++ record {
            id = row_id;
            story_id = story_id;
            reactor_id = reactor_id;
            emoji = emoji;
            created_at = now;
          }
            ∷ [];
    }

unfoldable pub get_story_reactions : Db → String → List PgStoryReaction
get_story_reactions db story_id = keep (λ r. r.story_id == story_id) db.story_reactions

-- The bucket URLs that RETURNING yields, empty ones left out.
unfoldable pub story_urls : List PgStory → List String
story_urls [] = []
story_urls (s ∷ ss) =
    let rest = story_urls ss in
    elim s.bucket_url [ none ↦ rest | some u ↦ if u == "" then rest else u ∷ rest ]

unfoldable pub wipe_user_social_data : Db → String → List String × Db
unfolding drop_stories story_urls
wipe_user_social_data db user_id =
    let db' = drop_stories (λ s. s.sender_id == user_id) db in
    (
      story_urls (keep (λ s. s.sender_id == user_id) db.stories),
      record db' {
        story_reactions = keep (λ r. not (r.reactor_id == user_id)) db'.story_reactions;
        social_budgets = keep (λ b. not (b.user_id == user_id)) db'.social_budgets;
      },
    )

unfoldable pub prune_expired_stories : Db → ℕ → List String × Db
unfolding drop_stories story_urls
prune_expired_stories db now = (
  story_urls (keep (λ s. leb s.expires_at now) db.stories),
  drop_stories (λ s. leb s.expires_at now) db,
)
