-- ===== src/Relay/Stories.antt =====
-- The story frames of wiltkey_server/handlers.go.
use Prim.Native.String.{count as rune_count}
use wilt_key.Prelude.{
  ℕ, suc, ◌+◌, ◌*◌, String, Bool, true, not, ◌||◌, Option, none, some, ◌∷◌, ◌==◌, ltb, length,
  if◌then◌else◌,
}
use wilt_key.Prelude.Text.{len, concat}
use wilt_key.Time.{hour, second, unix}
use wilt_key.Redis.Blocks
use wilt_key.Db.{PgStory}
use wilt_key.Db.Social
use wilt_key.Relay.{
  Env, World, Client, WsMessage, send_json, consume_budget, post_story, allow_action, get_feed,
  get_story, react, get_reactions, remove_story, post_story_ok, post_story_error, stories_feed,
  stories_error, story_react_ok, story_react_error, story_reactions, story_reactions_error,
  delete_story_ok, delete_story_error,
}
use wilt_key.Relay.Premium.{check_premium_subscription, holds}

abbrev pub max_media_meta_bytes : ℕ
max_media_meta_bytes = 2048

abbrev pub story_ttl : ℕ
story_ttl = 24 * hour

-- The bytes that a story is charged for.
abbrev pub story_bytes : WsMessage → ℕ
story_bytes msg = len msg.ciphertext_b64 + len msg.media_meta

unfoldable pub store_story : Env → World → Client → WsMessage → ℕ → ℕ → World
unfolding send_json
store_story env w c msg used max_bytes =
    if env.fails post_story c.id
    then send_json w c (post_story_error "Failed to store story" 0 0)
    else (let id = env.uuid w.draws in
        send_json
          (record w {
            db =
                Social.post_story w.db env.now id c.id msg.story_type msg.ciphertext_b64 none
                  msg.media_meta (story_bytes msg) story_ttl;
            draws = suc w.draws;
          })
          c (post_story_ok id used max_bytes (unix (env.now + story_ttl))))

unfoldable pub charge_story : Env → World → Client → WsMessage → Bool → World
unfolding store_story send_json
charge_story env w c msg is_plus =
    if env.fails consume_budget c.id
    then send_json w c (post_story_error "Database error checking weekly budget" 0 0)
    else (let (reply, db') =
          Social.consume_social_budget w.db env.now c.id (story_bytes msg) is_plus in
        let w' = record w { db = db' } in
        if not reply.allowed
        then send_json w' c
            (post_story_error "Weekly social budget quota exceeded" reply.used reply.max_bytes)
        else store_story env w' c msg reply.used reply.max_bytes)

unfoldable pub handle_post_story : Env → World → Client → WsMessage → World
unfolding charge_story check_premium_subscription send_json
handle_post_story env w c msg =
    if msg.story_type == "" || msg.ciphertext_b64 == ""
    then send_json w c (post_story_error "Missing story_type or ciphertext_b64" 0 0)
    else if ltb max_media_meta_bytes (len msg.media_meta)
    then send_json w c (post_story_error "Media metadata too large" 0 0)
    else if not env.has_pg
    then send_json w c (post_story_error "PostgreSQL storage unavailable" 0 0)
    else (let (is_plus, w') = check_premium_subscription env w c.id in
        charge_story env w' c msg (holds is_plus))

abbrev pub max_feed_contacts : ℕ
max_feed_contacts = 500

-- Whether a gate of two seconds lets the call through, and the state. A failed check allows.
unfoldable pub throttle : Env → World → String → Bool × World
throttle env w key =
    if env.fails allow_action key
    then (true, w)
    else (let (allowed, redis') = Blocks.allow_action w.redis env.now key (2 * second) in
        (allowed, record w { redis = redis' }))

unfoldable pub handle_fetch_stories : Env → World → Client → WsMessage → World
unfolding throttle send_json
handle_fetch_stories env w c msg =
    if ltb max_feed_contacts (length msg.contacts)
    then send_json w c (stories_error "Too many contacts")
    else (let (allowed, w') = throttle env w (concat "storyfeed:" c.id) in
        if not allowed
        then send_json w' c (stories_error "Fetching too fast — slow down")
        else if not env.has_pg
        then send_json w' c (stories_error "PostgreSQL storage unavailable")
        else if env.fails get_feed c.id
        then send_json w' c (stories_error "Failed to fetch feed")
        else send_json w' c
            (stories_feed (Social.get_stories_feed w'.db env.now (c.id ∷ msg.contacts))))

-- A query that fails finds no story.
abbrev pub found_story : Env → World → String → Option PgStory
found_story env w id = if env.fails get_story id then none else Social.get_story w.db env.now id

abbrev pub max_emoji_runes : ℕ
max_emoji_runes = 16

unfoldable pub handle_story_react : Env → World → Client → WsMessage → World
unfolding throttle send_json
handle_story_react env w c msg =
    if msg.story_id == "" || msg.emoji == ""
    then send_json w c (story_react_error "Missing story_id or emoji")
    else if ltb max_emoji_runes (rune_count msg.emoji)
    then send_json w c (story_react_error "Emoji too long")
    else if not env.has_pg
    then send_json w c (story_react_error "PostgreSQL storage unavailable")
    else (let (allowed, w') =
          throttle env w (concat "storyreact:" (concat c.id (concat ":" msg.story_id))) in
        if not allowed
        then send_json w' c (story_react_error "Reacting too fast — slow down")
        else elim (found_story env w' msg.story_id) [
          | none ↦ send_json w' c (story_react_error "Story not found or expired")
          | some story ↦
              if env.fails react msg.story_id
              then send_json w' c (story_react_error "Failed to record reaction")
              else send_json
                  (record w' {
                    db =
                        Social.add_or_update_story_reaction w'.db env.now (env.uuid w'.draws)
                          msg.story_id c.id msg.emoji;
                    draws = suc w'.draws;
                  })
                  c story_react_ok
        ])

unfoldable pub handle_story_reactions : Env → World → Client → WsMessage → World
unfolding send_json
handle_story_reactions env w c msg =
    if msg.story_id == ""
    then send_json w c (story_reactions_error "Missing story_id")
    else if not env.has_pg
    then send_json w c (story_reactions_error "PostgreSQL unavailable")
    else elim (found_story env w msg.story_id) [
      | none ↦ send_json w c (story_reactions_error "Story not found or expired")
      | some story ↦
          if not (story.sender_id == c.id)
          then send_json w c (story_reactions_error "Only story author can inspect reactions")
          else if env.fails get_reactions msg.story_id
          then send_json w c (story_reactions_error "Failed to query reactions")
          else send_json w c
              (story_reactions msg.story_id (Social.get_story_reactions w.db msg.story_id))
    ]

unfoldable pub handle_delete_story : Env → World → Client → WsMessage → World
unfolding send_json
handle_delete_story env w c msg =
    if msg.story_id == ""
    then send_json w c (delete_story_error "Missing story_id")
    else if not env.has_pg
    then send_json w c (delete_story_error "PostgreSQL unavailable")
    else if env.fails remove_story msg.story_id
    then send_json w c (delete_story_error "Failed to delete story")
    else send_json (record w { db = Social.delete_story w.db msg.story_id c.id }) c
        (delete_story_ok msg.story_id)
