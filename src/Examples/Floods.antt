-- ===== src/Examples/Floods.antt =====
-- Concrete inputs to the laws of the flood guard.
use wilt_key.Prelude.{ℕ, ◌+◌, ◌*◌, ◌≡◌, ◌≢◌, ◌≤◌, [], ◌∷◌, List, arith}
use wilt_key.Prelude.Int.{pos, neg_part, pos_part}
use wilt_key.Time.{second}
use wilt_key.Relay.Flood.{
  token, ws_bucket_capacity, full_bucket, Inbound, broken, malformed, message, Arrival, awaiting,
  read_pump,
}
use wilt_key.Relay.Flood.Metering.{cost, total_cost, Between, served-le}
use wilt_key.Relay.Flood.Pacing.{Paced, Ready, Paced-served}
use wilt_key.Examples.{noon, env, world, ann, frame_to}

abbrev arrival : ℕ → Inbound → Arrival
arrival now inbound = record { env = record env { now = now }; inbound = inbound }

-- Two frames, a second apart.
abbrev two_frames : List Arrival
two_frames =
    arrival noon malformed ∷ arrival (noon + second) (message (frame_to "TYPING_STATUS" "bob")) ∷ []

two_frames-Paced : Paced ann noon two_frames
unfolding Paced cost
two_frames-Paced = (omega arith, whole, (omega arith, a_message, tt))
  where
    whole : malformed ≢ broken
    whole e = cc

    a_message : message (frame_to "TYPING_STATUS" "bob") ≢ broken
    a_message e = cc

full-Ready : Ready (full_bucket noon) noon
full-Ready = (omega arith, omega arith)

Paced-served_example : (read_pump world ann (full_bucket noon) two_frames).0 ≡ awaiting
Paced-served_example =
    Paced-served world ann (pos ws_bucket_capacity) noon noon two_frames full-Ready two_frames-Paced

served-le_example :
    total_cost ann two_frames + neg_part (pos ws_bucket_capacity) + noon
    ≤ pos_part (pos ws_bucket_capacity) + (noon + second) + 255 * token
unfolding Between
served-le_example =
    served-le world ann (pos ws_bucket_capacity) noon two_frames (noon + second) (omega arith)
      (omega arith, (omega arith, omega arith)) Paced-served_example
