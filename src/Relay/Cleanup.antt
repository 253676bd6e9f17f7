-- ===== src/Relay/Cleanup.antt =====
-- One tick of startCleanupWorker of wiltkey_server/main.go.
use wilt_key.Prelude.{String, not, List, [], ◌∷◌, ◌==◌, if◌then◌else◌}
use wilt_key.Db.Messages
use wilt_key.Db.Social
use wilt_key.Storage.{storage_key_from_url}
use wilt_key.Relay.{Env, World, remove_stored, prune_messages, prune_stories, count_bucket}

unfoldable pub remove_one : Env → World → String → World
unfolding remove_stored
remove_one env w url =
    let key = storage_key_from_url url in if key == "" then w else remove_stored env w key

unfoldable pub remove_all : Env → World → List String → World
unfolding remove_one
remove_all env w [] = w
remove_all env w (url ∷ urls) = remove_all env (remove_one env w url) urls

unfoldable pub prune_stored_stories : Env → World → World
unfolding remove_all
prune_stored_stories env w =
    if env.fails prune_stories ""
    then w
    else (let (urls, db') = Social.prune_expired_stories w.db env.now in
        remove_all env (record w { db = db' }) urls)

unfoldable pub cleanup_tick : Env → World → World
unfolding remove_all prune_stored_stories
cleanup_tick env w =
    if not env.has_pg
    then w
    else if env.fails prune_messages ""
    then w
    else (let (urls, db') = Messages.prune_expired_messages (env.fails count_bucket) w.db env.now in
        prune_stored_stories env (remove_all env (record w { db = db' }) urls))
