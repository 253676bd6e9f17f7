-- ===== src/Db/Messages/Counting.antt =====
-- Which objects PruneExpiredMessages of wiltkey_server/db.go hands over for deletion.
use wilt_key.Prelude.{
  ℕ, ◌≡◌, refl, String, Bool, true, false, not, ◌&&◌, Option, none, some, List, [], ◌∷◌, ◌==◌,
  eq_iff, eqb, keep, count, any, arith, if◌then◌else◌,
}
use wilt_key.Db.{Db, PgMessage}
use wilt_key.Db.Messages.{
  has_url, is_expired, contains, distinct_urls, count_messages_by_bucket, prune_expired_messages,
}

contains-add :
    (url : String) (u : Option String) (urls : List String)
    → contains url (elim u [ none ↦ urls | some v ↦ if contains v urls then urls else v ∷ urls ])
      ≡ (if (elim u [ none ↦ false | some v ↦ v == url ]) then true else contains url urls)
contains-add url none urls = refl
contains-add url (some v) urls = ground (arith, eq_iff v url)

contains-distinct_urls :
    (url : String) (ms : List PgMessage) → contains url (distinct_urls ms) ≡ any (has_url url) ms
unfolding distinct_urls
contains-distinct_urls url [] = refl
contains-distinct_urls url (m ∷ ms) =
    ground (arith, contains-add url m.bucket_url (distinct_urls ms), contains-distinct_urls url ms)

contains-keep :
    (url : String) (p : String → Bool) (urls : List String)
    → contains url (keep p urls) ≡ (contains url urls && p url)
contains-keep url p [] = refl
contains-keep url p (u ∷ urls) = ground (arith, contains-keep url p urls, eq_iff u url)

count-any : (p : PgMessage → Bool) (ms : List PgMessage) → eqb (count p ms) 0 ≡ not (any p ms)
count-any p [] = refl
count-any p (m ∷ ms) = ground (arith, count-any p ms)

any-keep :
    (p q : PgMessage → Bool) (ms : List PgMessage) → any p (keep q ms) ≡ any (λ m. q m && p m) ms
any-keep p q [] = refl
any-keep p q (m ∷ ms) = ground (arith, any-keep p q ms)

-- An object is handed over for deletion exactly if an expired row had it, no row that remains has
-- it, and the count of those rows did not fail.
pub contains-prune_expired_messages :
    (count_fails : String → Bool) (db : Db) (now : ℕ) (url : String)
    → contains url (prune_expired_messages count_fails db now).0 ≡ (
        any (λ m. is_expired now m && has_url url m) db.messages
        && (not (count_fails url)
            && not (any (λ m. not (is_expired now m) && has_url url m) db.messages)))
unfolding prune_expired_messages count_messages_by_bucket
contains-prune_expired_messages count_fails db now url =
    rw
      (
        contains-keep,
        contains-distinct_urls,
        count-any,
        any-keep (has_url url) (is_expired now) db.messages,
        any-keep (has_url url) (λ m. not (is_expired now m)) db.messages,
      )
      refl
