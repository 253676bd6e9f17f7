-- ===== src/Relay/Flood/Pacing.antt =====
-- Whom the flood guard of wiltkey_server/websocket.go spares.
use wilt_key.Prelude.{
  ℕ, ◌+◌, ◌≤◌, ◌≡◌, ◌≢◌, ◌∙◌, ap, refl, none, List, [], ◌∷◌, arith, Option-cases, inl, inr,
}
use wilt_key.Prelude.Int.{ℤ, pos, negsuc, pos_part, neg_part, ◌+ℤ◌, ◌-ℤ◌}
use wilt_key.Relay.{Env, World, Client, error, send_json}
use wilt_key.Relay.Dispatch.{handle_ws_message}
use wilt_key.Relay.Flood.{
  token, Bucket, refill, take, charge, Inbound, broken, malformed, message, Arrival, charged,
  Finish, awaiting, goes_on, read_one, read_pump,
}
use wilt_key.Relay.Flood.Metering.{cost, take-parts, charge-parts, charged_lem, pump-goes_on}

-- The frames of a socket that gives the bucket time: the next comes no sooner than ten milliseconds
-- for each token that the last one cost, and none is broken.
unfoldable pub Paced : Client → ℕ → List Arrival → Type 0
Paced c due [] = Unit
Paced c due (a ∷ rest) =
    (due ≤ a.env.now) × (a.inbound ≢ broken) × Paced c (a.env.now + cost c a.inbound) rest

-- What the bucket needs at the time `due`: a token.
abbrev pub Ready : Bucket → ℕ → Type 0
Ready b due =
    (b.last_refill ≤ due) × (token + neg_part b.tokens + b.last_refill ≤ pos_part b.tokens + due)

Ready-take :
    (t : ℤ) (last now due : ℕ)
    → Ready (record { tokens = t; last_refill = last }) due
    → due ≤ now
    → take (record { tokens = t; last_refill = last }) now ≢ none
unfolding take refill ◌+ℤ◌ ◌-ℤ◌
Ready-take (pos n) last now due ready soon e = ground arith
Ready-take (negsuc n) last now due ready soon e = ground arith

-- It can pay the next frame, and then is ready again when that frame's cost has come in.
Ready-read :
    (w : World) (c : Client) (t : ℤ) (last due : ℕ) (env : Env) (i : Inbound)
    → Ready (record { tokens = t; last_refill = last }) due
    → due ≤ env.now
    → i ≢ broken
    → (w' : World) × (b : Bucket) × (read_one w c (record { tokens = t; last_refill = last }) env i
        ≡ goes_on w' b)
      × Ready b (env.now + cost c i)
unfolding read_one cost
Ready-read w c t last due env broken ready soon whole = absurd (whole refl)
Ready-read w c t last due env malformed ready soon whole =
    elim (Option-cases (take (record { tokens = t; last_refill = last }) env.now)) [
      | inl over ↦ absurd (Ready-take t last env.now due ready soon over)
      | inr (b, got) ↦
          let parts = take-parts t last env.now b (omega (arith, ready)) got in
          (
            send_json w c (error "Invalid JSON format"),
            b,
            rw (read_one, got) refl,
            ground (arith, parts),
          )
    ]
Ready-read w c t last due env (message msg) ready soon whole =
    elim (Option-cases (take (record { tokens = t; last_refill = last }) env.now)) [
      | inl over ↦ absurd (Ready-take t last env.now due ready soon over)
      | inr (b, got) ↦
          let n = charged env w c msg in
          let parts = take-parts t last env.now b (omega (arith, ready)) got in
          (
            handle_ws_message env w c msg,
            charge b n,
            rw (read_one, got) refl,
            ground (arith, parts, charge-parts b n, charged_lem env w c msg),
          )
    ]

-- A client whose frames give the bucket time is never cut off: whatever he sends, his broadcasts at
-- their price included, every frame is handled.
pub Paced-served :
    (w : World) (c : Client) (t : ℤ) (last due : ℕ) (rest : List Arrival)
    → Ready (record { tokens = t; last_refill = last }) due
    → Paced c due rest
    → (read_pump w c (record { tokens = t; last_refill = last }) rest).0 ≡ awaiting
unfolding Paced
Paced-served w c t last due [] ready pace = unfold read_pump in refl
Paced-served w c t last due (a ∷ rest) ready (soon, whole, pace) =
    let (w', b', goes, ready') = Ready-read w c t last due a.env a.inbound ready soon whole in
    ap (λ (o : Finish × World). o.0) (pump-goes_on w w' c _ b' a rest goes)
    ∙ Paced-served w' c b'.tokens b'.last_refill (a.env.now + cost c a.inbound) rest ready' pace
