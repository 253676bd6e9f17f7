-- ===== src/Examples/Rows.antt =====
-- Concrete inputs to the laws of the tables, the storage and the puzzle.
use wilt_key.Prelude.{
  ◌+◌, ◌-◌, ◌*◌, ◌≤◌, ◌≡◌, refl, true, false, not, ◌&&◌, none, List, [], ◌∷◌, ◌==◌, ltb, any, arith,
}
use wilt_key.Prelude.Text.{ne_of_test}
use wilt_key.Time.{hour}
use wilt_key.Db.{Db, DeviceToken, PgSocialBudget, empty_db}
use wilt_key.Db.Messages.{is_expired, has_url, contains, prune_expired_messages}
use wilt_key.Db.Messages.Counting.{contains-prune_expired_messages}
use wilt_key.Db.DeviceTokens.{device_token, mint_device_token, verify_device_token, minted_row}
use wilt_key.Db.DeviceTokens.Lifecycle.{verify-mint_old}
use wilt_key.Db.Social.{max_budget, social_budget}
use wilt_key.Db.Social.Budget.{Spend, spent, spent-le-max}
use wilt_key.Examples.{noon, stored_row}

abbrev two_rows : Db
two_rows = record empty_db {
  messages =
      stored_row "m1" "ann" "local://k1" (noon - 1)
      ∷ stored_row "m2" "eve" "local://k1" (noon + 1)
      ∷ [];
}

contains-prune_expired_messages_example :
    contains "local://k1" (prune_expired_messages (λ u. false) two_rows noon).0 ≡ (
      any (λ m. is_expired noon m && has_url "local://k1" m) two_rows.messages
      && (not false
          && not (any (λ m. not (is_expired noon m) && has_url "local://k1" m) two_rows.messages)))
contains-prune_expired_messages_example =
    contains-prune_expired_messages (λ u. false) two_rows noon "local://k1"

abbrev held : DeviceToken
held = minted_row noon "ann" "old" none

abbrev one_token : Db
one_token = record empty_db { device_tokens = held ∷ [] }

verify-mint_old_example :
    (verify_device_token
      (mint_device_token one_token noon "ann" "new").1
      (noon + hour)
      "ann"
      "old").0
    ≡ (held.token_hash == "old"
        && (ltb (noon + hour) (noon + 24 * hour) && ltb (noon + hour) held.token_expires_at))
unfolding device_token minted_row
verify-mint_old_example =
    verify-mint_old one_token noon (noon + hour) "ann" "new" "old" held refl (omega arith)
      (ne_of_test "old" "new" refl) (ne_of_test "old" "" refl)

abbrev quota : PgSocialBudget
quota = record { user_id = "ann"; bytes_used = 1000; week_start = noon; updated_at = noon }

abbrev one_quota : Db
one_quota = record empty_db { social_budgets = quota ∷ [] }

abbrev spends : List Spend
spends = record { at = noon + 1; user_id = "ann"; bytes = 500; is_plus = true } ∷ []

spent-le-max_example : spent one_quota "ann" spends + quota.bytes_used ≤ max_budget true
unfolding social_budget
spent-le-max_example =
    spent-le-max one_quota "ann" quota spends refl (omega arith, tt) (omega arith)
