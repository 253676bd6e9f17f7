-- ===== src/Relay/Broadcast/Recipients.antt =====
-- The recipients and the price of a group message of wiltkey_server/handlers.go.
use wilt_key.Prelude.{
  ◌≡◌, ◌≤◌, refl, String, Bool, true, not, ◌&&◌, ◌||◌, List, [], ◌∷◌, ◌==◌, eq_iff, arith,
}
use wilt_key.Db.Messages.{contains}
use wilt_key.Relay.{Env, World, Client, WsMessage}
use wilt_key.Relay.Broadcast.{distinct_recipients, handle_broadcast_group_message}

-- A user is among the recipients exactly if he is named, by an id that is not empty, and is neither
-- the sender nor one who was seen before.
pub contains-distinct_recipients :
    (x self : String) (seen rs : List String)
    → contains x (distinct_recipients self seen rs)
      ≡ (contains x rs && not (x == "" || (x == self || contains x seen)))
unfolding distinct_recipients
contains-distinct_recipients x self seen [] = refl
contains-distinct_recipients x self seen (r ∷ rs) = ground (
  arith,
  contains-distinct_recipients x self seen rs,
  contains-distinct_recipients x self (r ∷ seen) rs,
  eq_iff r x,
  eq_iff r "",
  eq_iff x "",
  eq_iff r self,
  eq_iff x self,
)

unfoldable pub no_repeats : List String → Bool
no_repeats [] = true
no_repeats (x ∷ xs) = not (contains x xs) && no_repeats xs

-- No recipient is served twice.
pub distinct_recipients-no_repeats :
    (self : String) (seen rs : List String) → no_repeats (distinct_recipients self seen rs) ≡ true
unfolding distinct_recipients no_repeats
distinct_recipients-no_repeats self seen [] = refl
distinct_recipients-no_repeats self seen (r ∷ rs) = ground (
  arith,
  distinct_recipients-no_repeats self seen rs,
  distinct_recipients-no_repeats self (r ∷ seen) rs,
  contains-distinct_recipients r self (r ∷ seen) rs,
  eq_iff r r,
)

-- A frame costs at most 255 tokens beyond its own.
pub broadcast_price-le :
    (env : Env) (w : World) (c : Client) (msg : WsMessage)
    → (handle_broadcast_group_message env w c msg).0 ≤ 255
unfolding handle_broadcast_group_message
broadcast_price-le env w c msg = ground arith
