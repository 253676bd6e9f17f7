-- ===== src/Relay/Flood/Metering.antt =====
-- What the flood guard of wiltkey_server/websocket.go lets through, and whom it spares.
use wilt_key.Prelude.{
  ℕ, ◌+◌, ◌-◌, ◌*◌, ◌≤◌, ◌≡◌, ◌≢◌, ◌⊎◌, ◌∙◌, sym, ap, subst, refl, some, List, [], ◌∷◌, ◌==◌, ltb,
  arith, length, if◌then◌else◌, Option-cases, inl, inr,
}
use wilt_key.Prelude.Int.{ℤ, pos, negsuc, pos_part, neg_part, ◌+ℤ◌, ◌-ℤ◌, -ℤ_parts, one_sign}
use wilt_key.Relay.{Env, World, Client, WsMessage}
use wilt_key.Relay.Broadcast.{handle_broadcast_group_message, distinct_recipients}
use wilt_key.Relay.{max_broadcast_recipients}
use wilt_key.Relay.Flood.{
  token, Bucket, refill, take, charge, Inbound, broken, malformed, message, Arrival, charged,
  Finish, awaiting, Turn, stops, goes_on, read_one, read_pump,
}

-- The tokens that a broadcast takes beyond its own, by its recipients alone.
unfoldable pub surcharge : Client → WsMessage → ℕ
surcharge c msg =
    if msg.type == "BROADCAST_GROUP_MESSAGE"
    then (let n = length (distinct_recipients c.id [] msg.recipients) in
        if ltb max_broadcast_recipients n then 0 else n - 1)
    else 0

pub charged_lem :
    (env : Env) (w : World) (c : Client) (msg : WsMessage) → charged env w c msg ≡ surcharge c msg
unfolding charged surcharge handle_broadcast_group_message
charged_lem env w c msg = ground arith

surcharge-le : (c : Client) (msg : WsMessage) → surcharge c msg ≤ 255
unfolding surcharge
surcharge-le c msg = ground arith

-- What a frame costs, in units.
unfoldable pub cost : Client → Inbound → ℕ
unfolding surcharge
cost c broken = 0
cost c malformed = token
cost c (message msg) = (1 + surcharge c msg) * token

unfoldable pub total_cost : Client → List Arrival → ℕ
unfolding cost
total_cost c [] = 0
total_cost c (a ∷ rest) = cost c a.inbound + total_cost c rest

-- The frames arrive in order, from one time to another.
unfoldable pub Between : ℕ → List Arrival → ℕ → Type 0
Between start [] finish = start ≤ finish
Between start (a ∷ rest) finish = (start ≤ a.env.now) × Between a.env.now rest finish

-- The token that is taken comes from what was left and what the time brought.
pub take-parts :
    (t : ℤ) (last now : ℕ) (b' : Bucket)
    → last ≤ now
    → take (record { tokens = t; last_refill = last }) now ≡ some b'
    → (b'.last_refill ≡ now)
      × (neg_part b'.tokens ≡ 0)
      × (pos_part b'.tokens + token + neg_part t + last ≤ pos_part t + now)
unfolding take refill ◌+ℤ◌ ◌-ℤ◌
take-parts (pos n) last now b' ordered e = ground arith
take-parts (negsuc n) last now b' ordered e = ground arith

pub charge-parts :
    (b : Bucket) (n : ℕ)
    → neg_part b.tokens ≡ 0
    → ((charge b n).last_refill ≡ b.last_refill)
      × (pos_part (charge b n).tokens + n * token
          ≡ neg_part (charge b n).tokens + pos_part b.tokens)
      × (neg_part (charge b n).tokens ≤ n * token)
unfolding charge
charge-parts b n h =
    let parts = -ℤ_parts b.tokens (pos (n * token)) in
    let sign = one_sign (b.tokens -ℤ pos (n * token)) in ground (arith, parts, sign)

-- A turn that goes on has paid its cost from what was left and what the time brought.
read_one-parts :
    (w w' : World) (c : Client) (t : ℤ) (last : ℕ) (env : Env) (i : Inbound) (b' : Bucket)
    → last ≤ env.now
    → read_one w c (record { tokens = t; last_refill = last }) env i ≡ goes_on w' b'
    → (b'.last_refill ≡ env.now)
      × (neg_part b'.tokens ≤ 255 * token)
      × (pos_part b'.tokens + cost c i + neg_part t + last
          ≤ pos_part t + env.now + neg_part b'.tokens)
unfolding read_one cost
read_one-parts w w' c t last env broken b' ordered e = cc
read_one-parts w w' c t last env malformed b' ordered e =
    elim (Option-cases (take (record { tokens = t; last_refill = last }) env.now)) [
      | inl over ↦ ground arith
      | inr (b, got) ↦ ground (arith, take-parts t last env.now b ordered got)
    ]
read_one-parts w w' c t last env (message msg) b' ordered e =
    elim (Option-cases (take (record { tokens = t; last_refill = last }) env.now)) [
      | inl over ↦ ground arith
      | inr (b, got) ↦ ground (
        arith,
        take-parts t last env.now b ordered got,
        charge-parts b (charged env w c msg),
        charged_lem env w c msg,
        surcharge-le c msg,
      )
    ]

Turn-cases :
    (r : Turn)
    → ((f : Finish) × ((w : World) × (r ≡ stops f w)))
      ⊎ ((w : World) × ((b : Bucket) × (r ≡ goes_on w b)))
Turn-cases (stops f w) = inl (f, (w, refl))
Turn-cases (goes_on w b) = inr (w, (b, refl))

pub pump-goes_on :
    (w w' : World) (c : Client) (b b' : Bucket) (a : Arrival) (rest : List Arrival)
    → read_one w c b a.env a.inbound ≡ goes_on w' b'
    → read_pump w c b (a ∷ rest) ≡ read_pump w' c b' rest
unfolding read_pump
pump-goes_on w w' c b b' a rest e = ground arith

pump-stops :
    (w w' : World) (c : Client) (b : Bucket) (f : Finish) (a : Arrival) (rest : List Arrival)
    → read_one w c b a.env a.inbound ≡ stops f w'
    → (read_pump w c b (a ∷ rest)).0 ≡ f
unfolding read_pump
pump-stops w w' c b f a rest e = ground arith

Finish-goes :
    (w w' : World) (c : Client) (b : Bucket) (f : Finish) (e : Env) (i : Inbound)
    → read_one w c b e i ≡ stops f w'
    → f ≢ awaiting
unfolding read_one
Finish-goes w w' c b f e broken h = ground arith
Finish-goes w w' c b f e malformed h = ground arith
Finish-goes w w' c b f e (message msg) h = ground arith

-- What the frames of a socket that is still read cost, in units, is no more than what was in the
-- bucket, what the time since brought at one unit a nanosecond, and the 255 tokens that a broadcast
-- may overdraw, if the frames come in order and the bucket was not overdrawn further.
pub served-le :
    (w : World) (c : Client) (t : ℤ) (last : ℕ) (rest : List Arrival) (finish : ℕ)
    → neg_part t ≤ 255 * token
    → Between last rest finish
    → (read_pump w c (record { tokens = t; last_refill = last }) rest).0 ≡ awaiting
    → total_cost c rest + neg_part t + last ≤ pos_part t + finish + 255 * token
unfolding total_cost Between
served-le w c t last [] finish low ordered h = omega (arith, ordered)
served-le w c t last (a ∷ rest) finish low (now, later) h =
    let b : Bucket = record { tokens = t; last_refill = last } in
    elim (Turn-cases (read_one w c b a.env a.inbound)) [
      | inl (f, (w', e)) ↦
          elim (Finish-goes w w' c b f a.env a.inbound e
            (sym (pump-stops w w' c b f a rest e) ∙ h)) [ ]
      | inr (w', (b', e)) ↦
          let (same, low', paid) = read_one-parts w w' c t last a.env a.inbound b' now e in
          let ih =
            served-le w' c b'.tokens b'.last_refill rest finish low'
              (subst (λ n. Between n rest finish) (sym same) later)
              (ap (λ (o : Finish × World). o.0) (sym (pump-goes_on w w' c b b' a rest e)) ∙ h) in
          omega (arith, ih, same, paid)
    ]
