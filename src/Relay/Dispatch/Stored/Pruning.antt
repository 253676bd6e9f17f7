-- ===== src/Relay/Dispatch/Stored/Pruning.antt =====
-- The tick of startCleanupWorker of wiltkey_server/main.go, over the rows and their objects.
use wilt_key.Prelude.{
  ℕ, ◌≡◌, refl, subst, String, Bool, not, ◌&&◌, Option, none, some, List, [], ◌∷◌, ◌==◌, eqb, leb,
  keep, count, All, All-keep_sub, arith, if◌then◌else◌, if_case, if_split,
}
use wilt_key.Prelude.GoMap.{GoMap}
use wilt_key.Db.{PgMessage, PgStory}
use wilt_key.Db.Messages.{
  has_url, count_messages_by_bucket, is_expired, distinct_urls, prune_expired_messages, contains,
}
use wilt_key.Db.Social.{story_urls, prune_expired_stories, drop_stories}
use wilt_key.Storage.{upload_url, storage_key_from_url}
use wilt_key.Storage.Keys.{storage_key_from_url-upload_url}
use wilt_key.Relay.{Env, World, Op, remove_stored}
use wilt_key.Relay.Cleanup.{remove_one, remove_all, prune_stored_stories, cleanup_tick}
use wilt_key.Relay.Dispatch.Stored.{Present, UrlPresent, HasObject, NoUrl, Sound, Names}
use wilt_key.Relay.Dispatch.Stored.Removal.{Unused, count-Unused, remove_stored-Sound}

-- The URL of a name that was drawn.
Drawn : Env → String → Type 0
Drawn env url = (i : ℕ) × (url ≡ upload_url env.storage (env.uuid i))

-- A URL that no row has.
Garbage : Env → List PgMessage → String → Type 0
unfolding Drawn
Garbage env ms url = Drawn env url × Unused url ms

add_url-Drawn :
    (env : Env) (bucket : GoMap String) (n : ℕ) (urls : List String) (u : Option String)
    → UrlPresent env bucket n u
    → All (Drawn env) urls
    → All (Drawn env) (elim u [ none ↦ urls | some v ↦ if contains v urls then urls else v ∷ urls ])
unfolding Drawn Present
add_url-Drawn env bucket n urls none p ds = ds
add_url-Drawn env bucket n urls (some v) (k, l, e, q) ds =
    if_case (All (Drawn env)) (contains v urls) ds ((k, e), ds)

distinct_urls-Drawn :
    (env : Env) (bucket : GoMap String) (n : ℕ) (ms : List PgMessage)
    → All (HasObject env bucket n) ms
    → All (Drawn env) (distinct_urls ms)
unfolding distinct_urls
distinct_urls-Drawn env bucket n [] hs = tt
distinct_urls-Drawn env bucket n (m ∷ ms) (p, hs) =
    add_url-Drawn env bucket n (distinct_urls ms) m.bucket_url p
      (distinct_urls-Drawn env bucket n ms hs)

unused_candidates-Garbage :
    (env : Env) (failed : String → Bool) (ms : List PgMessage) (urls : List String)
    → All (Drawn env) urls
    → All (Garbage env ms) (keep (λ u. not (failed u) && eqb (count (has_url u) ms) 0) urls)
unfolding Garbage
unused_candidates-Garbage env failed ms [] ds = tt
unused_candidates-Garbage env failed ms (u ∷ urls) (d, ds) =
    let rest = unused_candidates-Garbage env failed ms urls ds in
    if_split (All (Garbage env ms)) (not (failed u) && eqb (count (has_url u) ms) 0)
      (λ ok. ((d, count-Unused u ms (ground arith)), rest)) (λ _. rest)

remove_one-Sound :
    (env : Env) (w : World) (url : String)
    → Names env
    → Garbage env w.db.messages url
    → Sound env w
    → Sound env (remove_one env w url)
unfolding remove_one Garbage Drawn
remove_one-Sound env w url (differ, plain) ((i, e), us) h =
    let same : storage_key_from_url url ≡ env.uuid i =
      rw e (storage_key_from_url-upload_url env.storage (env.uuid i) (plain i)) in
    if_case (Sound env) (storage_key_from_url url == "") h
      (rw same (remove_stored-Sound env w i (subst (λ u. Unused u w.db.messages) e us) h))

remove_one-messages :
    (env : Env) (w : World) (url : String) → (remove_one env w url).db.messages ≡ w.db.messages
unfolding remove_one remove_stored
remove_one-messages env w url = ground arith

remove_all-Sound :
    (env : Env) (w : World) (urls : List String)
    → Names env
    → All (Garbage env w.db.messages) urls
    → Sound env w
    → Sound env (remove_all env w urls)
unfolding remove_all
remove_all-Sound env w [] names gs h = h
remove_all-Sound env w (url ∷ urls) names (g, gs) h =
    remove_all-Sound env (remove_one env w url) urls names (rw (remove_one-messages env w url) gs)
      (remove_one-Sound env w url names g h)

story_urls-none : (ss : List PgStory) → All NoUrl ss → story_urls ss ≡ []
unfolding story_urls
story_urls-none [] hs = refl
story_urls-none (s ∷ ss) (h, hs) = ground (arith, story_urls-none ss hs, h)

prune_stories-Sound : (env : Env) (w : World) → Sound env w → Sound env (prune_stored_stories env w)
unfolding prune_stored_stories prune_expired_stories drop_stories Sound remove_all
prune_stories-Sound env w (hm, hs) =
    let expired : PgStory → Bool = λ s. leb s.expires_at env.now in
    if_case (Sound env) (env.fails Op.prune_stories "") (hm, hs)
      (rw (story_urls-none (keep expired w.db.stories) (All-keep_sub NoUrl expired w.db.stories hs))
        (hm, All-keep_sub NoUrl (λ s. not (expired s)) w.db.stories hs))

pub cleanup_tick-Sound :
    (env : Env) (w : World) → Names env → Sound env w → Sound env (cleanup_tick env w)
unfolding cleanup_tick prune_expired_messages count_messages_by_bucket Sound
cleanup_tick-Sound env w names (hm, hs) =
    let P = HasObject env w.bucket w.draws in
    let live = keep (λ m. not (is_expired env.now m)) w.db.messages in
    let candidates = distinct_urls (keep (is_expired env.now) w.db.messages) in
    let pruned : World = record w { db = record w.db { messages = live } } in
    let drawn =
      distinct_urls-Drawn env w.bucket w.draws (keep (is_expired env.now) w.db.messages)
        (All-keep_sub P (is_expired env.now) w.db.messages hm) in
    if_case (Sound env) (not env.has_pg) (hm, hs)
      (if_case (Sound env) (env.fails Op.prune_messages "") (hm, hs)
        (prune_stories-Sound env _ (
          remove_all-Sound env pruned _ names
            (unused_candidates-Garbage env (env.fails Op.count_bucket) live candidates drawn)
            (All-keep_sub P (λ m. not (is_expired env.now m)) w.db.messages hm, hs))))
