-- ===== src/Db/Social/Budget.antt =====
-- The weekly budget of wiltkey_server/db.go.
use wilt_key.Prelude.{
  ℕ, ◌+◌, ◌≤◌, ◌<◌, ◌≡◌, ◌≢◌, ◌∙◌, ap, refl, sym, String, Bool, true, not, Option, none, some, List,
  [], ◌∷◌, arith, All, ◌==◌, eq_iff, eq_refl, leb, keep, if◌then◌else◌,
}
use wilt_key.Db.{Db, PgSocialBudget}
use wilt_key.Db.Messages.{first}
use wilt_key.Db.Social.{
  week, social_budget, put_social_budget, current_budget, max_budget, consume_social_budget,
  wipe_user_social_data,
}

first-keep :
    (u v : String) (bs : List PgSocialBudget)
    → u ≢ v
    → first (λ b. b.user_id == v) (keep (λ o. not (o.user_id == u)) bs)
      ≡ first (λ b. b.user_id == v) bs
first-keep u v [] h = refl
first-keep u v (b ∷ bs) h =
    ground (arith, first-keep u v bs h, eq_iff b.user_id u, eq_iff b.user_id v)

first-keep_self :
    (u : String) (bs : List PgSocialBudget)
    → first (λ b. b.user_id == u) (keep (λ o. not (o.user_id == u)) bs) ≡ none
first-keep_self u [] = refl
first-keep_self u (b ∷ bs) = ground (arith, first-keep_self u bs)

social_budget-put :
    (db : Db) (b : PgSocialBudget) (v : String)
    → social_budget (put_social_budget db b) v
      ≡ (if b.user_id == v then some b else social_budget db v)
unfolding social_budget put_social_budget
social_budget-put db b v =
    ground (arith, first-keep b.user_id v db.social_budgets, eq_iff b.user_id v)

-- The bytes that count against the user now.
unfoldable pub used_now : Db → ℕ → String → ℕ
used_now db now user_id = (current_budget now user_id (social_budget db user_id)).bytes_used

current_budget-user :
    (now : ℕ) (user_id : String) (o : Option PgSocialBudget)
    → ((b : PgSocialBudget) → o ≡ some b → b.user_id ≡ user_id)
    → (current_budget now user_id o).user_id ≡ user_id
unfolding current_budget
current_budget-user now user_id none h = refl
current_budget-user now user_id (some b) h = ground (arith, h b refl)

first-user :
    (user_id : String) (bs : List PgSocialBudget) (b : PgSocialBudget)
    → first (λ o. o.user_id == user_id) bs ≡ some b
    → b.user_id ≡ user_id
first-user user_id [] b e = cc
first-user user_id (x ∷ bs) b e = ground (arith, eq_iff x.user_id user_id, first-user user_id bs b)

social_budget-user :
    (db : Db) (user_id : String) (b : PgSocialBudget)
    → social_budget db user_id ≡ some b
    → b.user_id ≡ user_id
unfolding social_budget
social_budget-user db user_id b e = first-user user_id db.social_budgets b e

-- The row that a call leaves for its user.
row_after :
    (db : Db) (now : ℕ) (user_id : String) (bytes : ℕ) (is_plus : Bool)
    → let b = current_budget now user_id (social_budget db user_id) in
      social_budget (consume_social_budget db now user_id bytes is_plus).1 user_id
      ≡ some (
          if leb (b.bytes_used + bytes) (max_budget is_plus)
          then record b { bytes_used = b.bytes_used + bytes; updated_at = now }
          else b)
row_after db now user_id bytes is_plus =
    let b = current_budget now user_id (social_budget db user_id) in
    let same : b.user_id ≡ user_id =
      current_budget-user now user_id (social_budget db user_id) (social_budget-user db user_id) in
    let kept = social_budget-put db b user_id in
    let spent =
      social_budget-put (put_social_budget db b)
        (record b { bytes_used = b.bytes_used + bytes; updated_at = now }) user_id in
    unfold consume_social_budget in ground (arith, same, kept, spent, eq_refl user_id)

consume-allowed :
    (db : Db) (now : ℕ) (user_id : String) (bytes : ℕ) (is_plus : Bool)
    → (consume_social_budget db now user_id bytes is_plus).0.allowed
      ≡ leb (used_now db now user_id + bytes) (max_budget is_plus)
unfolding consume_social_budget used_now
consume-allowed db now user_id bytes is_plus = ground arith

current_budget-stable :
    (now : ℕ) (user_id : String) (o : Option PgSocialBudget) (bytes at : ℕ)
    → (current_budget now user_id (
        some (record (current_budget now user_id o) {
          bytes_used = bytes;
          updated_at = at;
        }))).bytes_used
      ≡ bytes
unfolding current_budget
current_budget-stable now user_id none bytes at = ground arith
current_budget-stable now user_id (some b) bytes at = ground arith

current_budget_idem :
    (now : ℕ) (user_id : String) (o : Option PgSocialBudget)
    → (current_budget now user_id (some (current_budget now user_id o))).bytes_used
      ≡ (current_budget now user_id o).bytes_used
current_budget_idem now user_id o =
    current_budget-stable now user_id o (current_budget now user_id o).bytes_used
      (current_budget now user_id o).updated_at

used_after :
    (db : Db) (now : ℕ) (user_id : String) (bytes : ℕ) (is_plus : Bool)
    → used_now (consume_social_budget db now user_id bytes is_plus).1 now user_id ≡ (
        if leb (used_now db now user_id + bytes) (max_budget is_plus)
        then used_now db now user_id + bytes
        else used_now db now user_id)
unfolding used_now
used_after db now user_id bytes is_plus =
    let o = social_budget db user_id in
    rw (row_after db now user_id bytes is_plus, used_now)
      (ground (
        arith,
        current_budget-stable now user_id o ((current_budget now user_id o).bytes_used + bytes) now,
        current_budget_idem now user_id o,
      ))

reply-used :
    (db : Db) (now : ℕ) (user_id : String) (bytes : ℕ) (is_plus : Bool)
    → (consume_social_budget db now user_id bytes is_plus).0.used ≡ (
        if leb (used_now db now user_id + bytes) (max_budget is_plus)
        then used_now db now user_id + bytes
        else used_now db now user_id)
unfolding consume_social_budget used_now
reply-used db now user_id bytes is_plus = ground arith

-- A spend is allowed exactly when it fits what is left of the limit; then it is counted in full,
-- and otherwise nothing is.
pub consume_exact :
    (db : Db) (now : ℕ) (user_id : String) (bytes : ℕ) (is_plus : Bool)
    → let fits = leb (used_now db now user_id + bytes) (max_budget is_plus) in
      let (reply, db') = consume_social_budget db now user_id bytes is_plus in
      (reply.allowed ≡ fits)
      × (used_now db' now user_id
          ≡ (if fits then used_now db now user_id + bytes else used_now db now user_id))
      × (reply.used ≡ used_now db' now user_id)
consume_exact db now user_id bytes is_plus = (
  consume-allowed db now user_id bytes is_plus,
  used_after db now user_id bytes is_plus,
  reply-used db now user_id bytes is_plus ∙ sym (used_after db now user_id bytes is_plus),
)

used-wipe :
    (db : Db) (now : ℕ) (user_id : String)
    → used_now (wipe_user_social_data db user_id).1 now user_id ≡ 0
unfolding used_now wipe_user_social_data social_budget current_budget
used-wipe db now user_id = rw (first-keep_self user_id db.social_budgets, used_now)

-- A wipe of the social data sets the budget back within the week: what may be spent next is the
-- whole limit again.
pub wipe_resets_budget :
    (db : Db) (now : ℕ) (user_id : String) (bytes : ℕ) (is_plus : Bool)
    → (consume_social_budget
        (wipe_user_social_data db user_id).1
        now
        user_id
        bytes
        is_plus).0.allowed
      ≡ leb bytes (max_budget is_plus)
wipe_resets_budget db now user_id bytes is_plus =
    consume-allowed (wipe_user_social_data db user_id).1 now user_id bytes is_plus
    ∙ ap (λ n. leb (n + bytes) (max_budget is_plus)) (used-wipe db now user_id)
    ∙ ap (λ n. leb n (max_budget is_plus)) (omega arith)

-- A call of the budget by a user.
pub record Spend : Type 0 where
  pub at : ℕ
  pub user_id : String
  pub bytes : ℕ
  pub is_plus : Bool

-- The bytes that a user gets through.
unfoldable pub spent : Db → String → List Spend → ℕ
spent db user_id [] = 0
spent db user_id (s ∷ ss) =
    let (reply, db') = consume_social_budget db s.at s.user_id s.bytes s.is_plus in
    let rest = spent db' user_id ss in
    if s.user_id == user_id then if reply.allowed then s.bytes + rest else rest else rest

used_in_week :
    (db : Db) (now : ℕ) (user_id : String) (b : PgSocialBudget)
    → social_budget db user_id ≡ some b
    → now < b.week_start + week
    → used_now db now user_id ≡ b.bytes_used
unfolding used_now current_budget
used_in_week db now user_id b e h = rw (e, used_now) (ground arith)

row_in_week :
    (db : Db) (now : ℕ) (user_id : String) (bytes : ℕ) (is_plus : Bool) (b : PgSocialBudget)
    → social_budget db user_id ≡ some b
    → now < b.week_start + week
    → social_budget (consume_social_budget db now user_id bytes is_plus).1 user_id
      ≡ some (
          if leb (b.bytes_used + bytes) (max_budget is_plus)
          then record b { bytes_used = b.bytes_used + bytes; updated_at = now }
          else b)
unfolding current_budget
row_in_week db now user_id bytes is_plus b e h =
    row_after db now user_id bytes is_plus ∙ rw e (ground arith)

row_other :
    (db : Db) (now : ℕ) (user_id : String) (bytes : ℕ) (is_plus : Bool) (v : String)
    → user_id ≢ v
    → social_budget (consume_social_budget db now user_id bytes is_plus).1 v ≡ social_budget db v
row_other db now user_id bytes is_plus v h =
    let b = current_budget now user_id (social_budget db user_id) in
    let same : b.user_id ≡ user_id =
      current_budget-user now user_id (social_budget db user_id) (social_budget-user db user_id) in
    let kept = social_budget-put db b v in
    let spent =
      social_budget-put (put_social_budget db b)
        (record b { bytes_used = b.bytes_used + bytes; updated_at = now }) v in
    unfold consume_social_budget in ground (arith, same, kept, spent, eq_iff user_id v)

-- Within one week of a budget's start, the calls of a user, in any order with those of others, get
-- through no more than the larger limit less what was used before, if that was within the limit.
pub spent-le-max :
    (db : Db) (user_id : String) (b : PgSocialBudget) (ss : List Spend)
    → social_budget db user_id ≡ some b
    → All (λ s. s.at < b.week_start + week) ss
    → b.bytes_used ≤ max_budget true
    → spent db user_id ss + b.bytes_used ≤ max_budget true
unfolding spent
spent-le-max db user_id b [] e h fits = omega arith
spent-le-max db user_id b (s ∷ ss) e h fits = ground (
  arith,
  eq_iff s.user_id user_id,
  consume-allowed db s.at s.user_id s.bytes s.is_plus,
  used_in_week db s.at user_id b e h.0,
  row_in_week db s.at user_id s.bytes s.is_plus b e h.0,
  row_other db s.at s.user_id s.bytes s.is_plus user_id,
  spent-le-max (consume_social_budget db s.at s.user_id s.bytes s.is_plus).1 user_id b ss,
  spent-le-max (consume_social_budget db s.at s.user_id s.bytes s.is_plus).1 user_id
      (record b { bytes_used = b.bytes_used + s.bytes; updated_at = s.at }) ss,
)
