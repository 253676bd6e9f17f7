-- ===== src/Redis/Server/Single/Spent.antt =====
-- The mark of a spent voucher in wiltkey_server/redis.go over a Redis server, among all calls that
-- write keyed values.
use wilt_key.Prelude.{
  ℕ, ◌+◌, ◌-◌, ◌*◌, ◌≤◌, ◌<◌, ◌≡◌, ◌∙◌, ◌⊎◌, inl, inr, refl, String, Bool, true, false, Option,
  some, List, [], ◌∷◌, arith, All, ◌==◌, eq_iff, eq_refl, eqb, leb, Bool-cases, Option-cases,
  option_case, if_case, if_split, le→leb, ap,
}
use wilt_key.Prelude.Text.{concat, concat_apart, prefixes_differ, differ}
use wilt_key.Time.{second}
use wilt_key.Redis.Server.{Commands, Laws, entry, millisecond}
use wilt_key.Redis.Server.Gates
use wilt_key.Redis.Server.Values
use wilt_key.Redis.Server.Counters
use wilt_key.Redis.Server.Issuance.{incr_fixed-other}
use wilt_key.Redis.Server.Single.{
  Call, step, run, block, unblock, delete_push, delete_pairing, delete_nonce, store_pow, take_pow,
  nonce, failure, nuke, large, action, voucher, ban, cooldown, push, file_token, pairing,
  entitlement, integrity, tunnel, tunnel_bytes, delete_tunnel, rate, issuance, strike,
}

module _ {S : Type 0} (c : Commands S) (laws : Laws c) where
  -- `key` holds a mark that ends at `u`.
  abbrev MarkedUntil : S → String → ℕ → Type 0
  MarkedUntil s key u = c.stored s key ≡ some (record { value = "1"; until = some u })

  set-other :
      (s : S) (now : ℕ) (p q a b v : String) (ttl : ℕ)
      → differ p q ≡ true
      → c.stored (c.set s now (concat p a) v ttl) (concat q b) ≡ c.stored s (concat q b)
  set-other s now p q a b v ttl h =
      rw (laws.stored-set s now (concat p a) v ttl (concat q b), concat_apart p q a b h)

  del-other :
      (s : S) (p q a b : String)
      → differ p q ≡ true
      → c.stored (c.del s (concat p a)) (concat q b) ≡ c.stored s (concat q b)
  del-other s p q a b h = rw (laws.stored-del s (concat p a) (concat q b), concat_apart p q a b h)

  -- SET NX changes no mark that is alive, under whatever key it is called.
  set_nx-MarkedUntil :
      (s : S) (now : ℕ) (k v : String) (ttl : ℕ) (key : String) (u : ℕ)
      → now < u
      → MarkedUntil s key u
      → MarkedUntil (c.set_nx s now k v ttl).1 key u
  set_nx-MarkedUntil s now k v ttl key u live e = elim (Bool-cases (k == key)) [
    | inl same ↦
        let eq : k ≡ key = ground (arith, eq_iff k key) in
        let there : c.get s now k ≡ some "1" = rw eq (laws.get-live s now key "1" u e live) in
        rw (laws.set_nx-present s now k v ttl "1" there) e
    | inr apart ↦ elim (Option-cases (c.get s now k)) [
      | inl gone ↦
          rw (laws.set_nx-absent s now k v ttl gone, laws.stored-set s now k v ttl key, apart) e
      | inr (old, there) ↦ rw (laws.set_nx-present s now k v ttl old there) e
    ]
  ]

  incr_refreshed-other :
      (s : S) (now : ℕ) (p a : String) (ttl : ℕ) (q b : String)
      → differ p q ≡ true
      → c.stored (Counters.incr_refreshed c s now (concat p a) ttl).1 (concat q b)
        ≡ c.stored s (concat q b)
  unfolding Counters.incr_refreshed
  incr_refreshed-other s now p a ttl q b h =
      laws.expire-other _ now _ ttl _ (prefixes_differ p q a b h)
      ∙ laws.incr_by-other s now _ 1 _ (prefixes_differ p q a b h)

  take_pow-other :
      (s : S) (now : ℕ) (x q b : String)
      → differ "pow:challenge:" q ≡ true
      → c.stored (Gates.get_pow_challenge_difficulty c s now x).1 (concat q b)
        ≡ c.stored s (concat q b)
  unfolding Gates.get_pow_challenge_difficulty
  take_pow-other s now x q b h =
      option_case (λ (r : Option ℕ × S). c.stored r.1 (concat q b) ≡ c.stored s (concat q b))
        (c.get s now (concat "pow:challenge:" x)) refl
        (λ v.
          option_case (λ (r : Option ℕ × S). c.stored r.1 (concat q b) ≡ c.stored s (concat q b))
            (c.atoi v) refl (λ n. del-other s "pow:challenge:" q x b h))

  -- Where the mark of a voucher stands, by the laws above.
  abbrev mark_key : String → String
  mark_key sig = concat "voucher:used:" sig

  step-MarkedUntil :
      (s : S) (now : ℕ) (call : Call) (sig : String) (u : ℕ)
      → now < u
      → MarkedUntil s (mark_key sig) u
      → MarkedUntil (step c s now call) (mark_key sig) u
  unfolding step differ Gates.block_queue Gates.unblock_queue Gates.store_pow_challenge
      Gates.is_nonce_unique Gates.allow_large_upload Gates.allow_action Gates.consume_voucher
      Gates.ban_ip Gates.set_challenge_cooldown Values.set_push_token Values.delete_push_token
      Values.store_pairing Values.delete_pairing Values.create_tunnel Values.increment_tunnel_bytes
      Values.delete_tunnel Values.store_file_token Values.store_entitlement
      Values.store_integrity_nonce Values.delete_integrity_nonce Counters.allow_nuke
      Counters.increment_ip_failure Counters.check_ip_rate_limit Counters.allow_issuance
      Counters.register_challenge_strike
  step-MarkedUntil s now (block x) sig u live e = set-other s now "block:" _ x sig _ _ refl ∙ e
  step-MarkedUntil s now (store_pow x n) sig u live e =
      set-other s now "pow:challenge:" _ x sig _ _ refl ∙ e
  step-MarkedUntil s now (ban x d) sig u live e = set-other s now "ban:" _ x sig _ _ refl ∙ e
  step-MarkedUntil s now (cooldown x d) sig u live e =
      set-other s now "chcooldown:" _ x sig _ _ refl ∙ e
  step-MarkedUntil s now (push x t) sig u live e = set-other s now "push:" _ x sig _ _ refl ∙ e
  step-MarkedUntil s now (file_token x m y) sig u live e =
      set-other s now "filetok:" _ x sig _ _ refl ∙ e
  step-MarkedUntil s now (pairing x y ttl) sig u live e =
      set-other s now "pair:" _ x sig _ _ refl ∙ e
  step-MarkedUntil s now (entitlement x h ttl) sig u live e =
      set-other s now "entitlement:" _ x sig _ _ refl ∙ e
  step-MarkedUntil s now (integrity x n ttl) sig u live e =
      set-other s now "integrity:nonce:" _ x sig _ _ refl ∙ e
  step-MarkedUntil s now (unblock x) sig u live e = del-other s "block:" _ x sig refl ∙ e
  step-MarkedUntil s now (delete_push x) sig u live e = del-other s "push:" _ x sig refl ∙ e
  step-MarkedUntil s now (delete_pairing x) sig u live e = del-other s "pair:" _ x sig refl ∙ e
  step-MarkedUntil s now (delete_nonce x) sig u live e =
      del-other s "integrity:nonce:" _ x sig refl ∙ e
  step-MarkedUntil s now (take_pow x) sig u live e = take_pow-other s now x _ sig refl ∙ e
  step-MarkedUntil s now (nonce x) sig u live e =
      set_nx-MarkedUntil s now (concat "pow:nonce:" x) "1" _ _ u live e
  step-MarkedUntil s now (large x d) sig u live e =
      set_nx-MarkedUntil s now (concat "largeup:" x) _ d _ u live e
  step-MarkedUntil s now (action k d) sig u live e = set_nx-MarkedUntil s now k _ d _ u live e
  step-MarkedUntil s now (voucher x expiry) sig u live e =
      if_case (λ (r : Bool × S). MarkedUntil r.1 (mark_key sig) u) (leb (expiry * second) now) e
        (set_nx-MarkedUntil s now (mark_key x) "1" _ _ u live e)
  step-MarkedUntil s now (nuke x n) sig u live e =
      incr_refreshed-other s now "nukerate:" x _ _ sig refl ∙ e
  step-MarkedUntil s now (failure x) sig u live e =
      incr_refreshed-other s now "fail:" x _ _ sig refl ∙ e
  step-MarkedUntil s now (rate x stamp n) sig u live e =
      incr_refreshed-other s now "rate:" (concat x (concat ":" stamp)) _ _ sig refl ∙ e
  step-MarkedUntil s now (issuance x stamp n) sig u live e =
      incr_fixed-other c laws s now _ _ (mark_key sig)
        (prefixes_differ "issuance:" _ (concat x (concat ":" stamp)) sig refl)
      ∙ e
  step-MarkedUntil s now (strike x stamp) sig u live e =
      incr_fixed-other c laws s now _ _ (mark_key sig)
        (prefixes_differ "chstrike:" _ (concat x (concat ":" stamp)) sig refl)
      ∙ e
  step-MarkedUntil s now (tunnel_bytes x n) sig u live e =
      laws.expire-other _ now _ _ _ (prefixes_differ "tunnel_bytes:" "voucher:used:" x sig refl)
      ∙ laws.incr_by-other s now _ n _ (prefixes_differ "tunnel_bytes:" "voucher:used:" x sig refl)
      ∙ e
  step-MarkedUntil s now (tunnel a b ttl) sig u live e =
      set-other _ now "tunnel:" _ b sig _ _ refl ∙ set-other s now "tunnel:" _ a sig _ _ refl ∙ e
  step-MarkedUntil s now (delete_tunnel a b) sig u live e =
      del-other _ "tunnel_bytes:" _ (concat b (concat ":" a)) sig refl
      ∙ del-other _ "tunnel_bytes:" _ (concat a (concat ":" b)) sig refl
      ∙ del-other _ "tunnel:" _ b sig refl
      ∙ del-other s "tunnel:" _ a sig refl
      ∙ e

  run-MarkedUntil :
      (s : S) (calls : List (ℕ × Call)) (sig : String) (u t : ℕ)
      → t < u
      → All (λ call. call.0 ≤ t) calls
      → MarkedUntil s (mark_key sig) u
      → MarkedUntil (run c s calls) (mark_key sig) u
  unfolding run
  run-MarkedUntil s [] sig u t soon past e = e
  run-MarkedUntil s ((now, call) ∷ calls) sig u t soon past e =
      run-MarkedUntil (step c s now call) calls sig u t soon past.1
        (step-MarkedUntil s now call sig u (omega (arith, past.0)) e)

  -- What an accepted voucher leaves: a mark that ends less than a millisecond before the voucher,
  -- or behind it.
  abbrev Marks : String → ℕ → Bool × S → Type 0
  Marks sig expiry r =
      r.0 ≡ true → (u : ℕ) × MarkedUntil r.1 (mark_key sig) u × (expiry * second < u + millisecond)

  set-Marks :
      (s : S) (now : ℕ) (sig : String) (expiry : ℕ)
      → leb (expiry * second) now ≡ false
      → Marks sig expiry (true, c.set s now (mark_key sig) "1" (expiry * second - now))
  unfolding entry
  set-Marks s now sig expiry open_still h =
      let kept : eqb (expiry * second - now) 0 ≡ false = ground arith in
      (
        now + c.kept_for (expiry * second - now),
        rw (
          laws.stored-set s now (mark_key sig) "1" (expiry * second - now) (mark_key sig),
          eq_refl (mark_key sig),
          kept,
        ),
        ground (arith, laws.kept_for-close (expiry * second - now)),
      )

  consume_voucher-Marks :
      (s : S) (now : ℕ) (sig : String) (expiry : ℕ)
      → Marks sig expiry (Gates.consume_voucher c s now sig expiry)
  unfolding Gates.consume_voucher
  consume_voucher-Marks s now sig expiry =
      if_split (Marks sig expiry) (leb (expiry * second) now) (λ over no. ground arith)
        (λ open_still. elim (Option-cases (c.get s now (mark_key sig))) [
          | inl gone ↦
              rw (laws.set_nx-absent s now (mark_key sig) "1" (expiry * second - now) gone)
                (set-Marks s now sig expiry open_still)
          | inr (old, there) ↦
              rw (laws.set_nx-present s now (mark_key sig) "1" (expiry * second - now) old there)
                (λ no. ground arith)
        ])

  refused_while_marked :
      (s : S) (now : ℕ) (sig : String) (expiry u : ℕ)
      → now < u
      → MarkedUntil s (mark_key sig) u
      → (Gates.consume_voucher c s now sig expiry).0 ≡ false
  unfolding Gates.consume_voucher
  refused_while_marked s now sig expiry u live e =
      if_case (λ (r : Bool × S). r.0 ≡ false) (leb (expiry * second) now) refl
        (ap (λ r. r.0)
          (laws.set_nx-present s now (mark_key sig) "1" (expiry * second - now) "1"
            (laws.get-live s now (mark_key sig) "1" u e live)))

  -- Over a server, a voucher that was accepted is refused ever after, whatever other keyed values
  -- the relay writes meanwhile, save in the last millisecond before its expiry: the server is told
  -- whole milliseconds, and the mark may end that much before the voucher.
  pub spent_stays :
      (s : S) (now : ℕ) (sig : String) (expiry : ℕ) (calls : List (ℕ × Call)) (later : ℕ)
      → (Gates.consume_voucher c s now sig expiry).0 ≡ true
      → All (λ call. call.0 ≤ later) calls
      → (later + millisecond ≤ expiry * second) ⊎ (expiry * second ≤ later)
      → (Gates.consume_voucher c
          (run c (Gates.consume_voucher c s now sig expiry).1 calls)
          later
          sig
          expiry).0
        ≡ false
  spent_stays s now sig expiry calls later h past (inl before) =
      let marks = consume_voucher-Marks s now sig expiry h in
      refused_while_marked _ later sig expiry marks.0 (omega (arith, marks.2, before))
        (run-MarkedUntil _ calls sig marks.0 later (omega (arith, marks.2, before)) past marks.1)
  spent_stays s now sig expiry calls later h past (inr over) =
      unfold Gates.consume_voucher in rw (le→leb (expiry * second) later over)
