-- ===== src/Redis/Server/Modes/Agreement.antt =====
-- That the two modes of wiltkey_server/redis.go answer alike.
use wilt_key.Prelude.{
  ℕ, suc, ◌+◌, ◌*◌, ◌≡◌, ◌≢◌, refl, sym, ap, ◌∙◌, eqb, String, Bool, true, false, Option, none,
  some, List, [], ◌∷◌, arith, ltb, ltb→lt, Bool-cases, Option-cases, inl, inr, ◌==◌, if◌then◌else◌,
}
use mathlib.Core.Path.{ap₂}
use wilt_key.Prelude.Text.{concat, concat_same, concat_apart, differ}
use wilt_key.Prelude.GoMap.{GoMap, lookup, insert, delete, lookup-insert, lookup-delete}
use wilt_key.Time.{second, minute}
use wilt_key.Redis.{RedisClient}
use wilt_key.Redis.Blocks
use wilt_key.Redis.Limits
use wilt_key.Redis.Once
use wilt_key.Redis.Server.{Commands, Laws, Stored, entry, is_some}
use wilt_key.Redis.Server.Gates
use wilt_key.Redis.Server.Modes.{
  Call, block, unblock, is_blocked, is_banned, is_fresh, ban, in_memory, over_server,
  memory_answers, server_answers, Untied, AllUntied,
}

-- The entry of the server that stands for a mark in memory.
abbrev pub mark : Option ℕ → Option Stored
mark none = none
mark (some t) = some (record { value = "1"; until = some t })

pub record Agree {S : Type 0} (c : Commands S) (r : RedisClient) (s : S) : Type 0 where
  pub blocks : (u : String) → c.stored s (concat "block:" u) ≡ mark (lookup r.memory_blocks u)
  pub bans : (ip : String) → c.stored s (concat "ban:" ip) ≡ mark (lookup r.memory_bans ip)
  pub nonces : (n : String) → c.stored s (concat "pow:nonce:" n) ≡ mark (lookup r.memory_nonces n)

abbrev pub is_live : ℕ → Option ℕ → Bool
is_live now none = false
is_live now (some t) = ltb now t

module _ {S : Type 0} (c : Commands S) (laws : Laws c) where
  is_some-get :
      (s : S) (now : ℕ) (k : String) (o : Option ℕ)
      → c.stored s k ≡ mark o
      → o ≢ some now
      → is_some (c.get s now k) ≡ is_live now o
  is_some-get s now k none e untied = rw (laws.get-absent s now k e)
  is_some-get s now k (some t) e untied = elim (Bool-cases (ltb now t)) [
    | inl live ↦ rw (live, laws.get-live s now k "1" t e (ltb→lt now t live))
    | inr over ↦
        let differ : t ≢ now = λ same. untied (ap some same) in
        rw (over, laws.get-lapsed s now k "1" t e (ground (arith, differ)))
  ]

  -- SET of a mark under a prefix `p`, seen under the prefix `q` of another family.
  stored-set_other :
      (s : S) (now : ℕ) (p q a b v : String) (ttl : ℕ)
      → differ p q ≡ true
      → c.stored (c.set s now (concat p a) v ttl) (concat q b) ≡ c.stored s (concat q b)
  stored-set_other s now p q a b v ttl h =
      rw (laws.stored-set s now (concat p a) v ttl (concat q b), concat_apart p q a b h)

  stored-set_mark :
      (m : GoMap ℕ) (s : S) (now : ℕ) (p a b : String) (n : ℕ)
      → c.stored s (concat p b) ≡ mark (lookup m b)
      → c.stored (c.set s now (concat p a) "1" (suc n * second)) (concat p b)
        ≡ mark (lookup (insert m a (now + suc n * second)) b)
  unfolding entry
  stored-set_mark m s now p a b n e =
      let kept : eqb (suc n * second) 0 ≡ false = ground arith in
      rw
        (
          laws.stored-set s now (concat p a) "1" (suc n * second) (concat p b),
          concat_same p a b,
          lookup-insert,
          kept,
          laws.kept_for-seconds (suc n),
        )
        (elim (Bool-cases (a == b)) [ inl same ↦ rw same | inr apart ↦ rw apart e ])

  stored-del_mark :
      (m : GoMap ℕ) (s : S) (p a b : String)
      → c.stored s (concat p b) ≡ mark (lookup m b)
      → c.stored (c.del s (concat p a)) (concat p b) ≡ mark (lookup (delete m a) b)
  stored-del_mark m s p a b e =
      rw (laws.stored-del s (concat p a) (concat p b), concat_same p a b, lookup-delete)
        (elim (Bool-cases (a == b)) [ inl same ↦ rw same | inr apart ↦ rw apart e ])

  stored-del_other :
      (s : S) (p q a b : String)
      → differ p q ≡ true
      → c.stored (c.del s (concat p a)) (concat q b) ≡ c.stored s (concat q b)
  stored-del_other s p q a b h =
      rw (laws.stored-del s (concat p a) (concat q b), concat_apart p q a b h)

  block-Agree :
      (r : RedisClient) (s : S) (now : ℕ) (u : String)
      → Agree c r s
      → Agree c (Blocks.block_queue r now u) (Gates.block_queue c s now u)
  unfolding Blocks.block_queue Gates.block_queue differ
  block-Agree r s now u a = record {
    blocks = λ v. stored-set_mark r.memory_blocks s now "block:" u v 86399 (a.blocks v);
    bans = λ ip. stored-set_other s now "block:" "ban:" u ip "1" _ refl ∙ a.bans ip;
    nonces = λ n. stored-set_other s now "block:" "pow:nonce:" u n "1" _ refl ∙ a.nonces n;
  }

  unblock-Agree :
      (r : RedisClient) (s : S) (u : String)
      → Agree c r s
      → Agree c (Blocks.unblock_queue r u) (Gates.unblock_queue c s u)
  unfolding Blocks.unblock_queue Gates.unblock_queue differ
  unblock-Agree r s u a = record {
    blocks = λ v. stored-del_mark r.memory_blocks s "block:" u v (a.blocks v);
    bans = λ ip. stored-del_other s "block:" "ban:" u ip refl ∙ a.bans ip;
    nonces = λ n. stored-del_other s "block:" "pow:nonce:" u n refl ∙ a.nonces n;
  }

  ban-Agree :
      (r : RedisClient) (s : S) (now : ℕ) (ip : String) (n : ℕ)
      → Agree c r s
      → Agree c (Limits.ban_ip r now ip (suc n * second)) (Gates.ban_ip c s now ip (suc n * second))
  unfolding Limits.ban_ip Gates.ban_ip differ
  ban-Agree r s now ip n a = record {
    blocks = λ u. stored-set_other s now "ban:" "block:" ip u "1" _ refl ∙ a.blocks u;
    bans = λ v. stored-set_mark r.memory_bans s now "ban:" ip v n (a.bans v);
    nonces = λ m. stored-set_other s now "ban:" "pow:nonce:" ip m "1" _ refl ∙ a.nonces m;
  }

  used-Agree :
      (r : RedisClient) (s : S) (now : ℕ) (n : String)
      → Agree c r s
      → Agree c
          (record r { memory_nonces = insert r.memory_nonces n (now + 10 * minute) })
          (c.set s now (concat "pow:nonce:" n) "1" (10 * minute))
  unfolding differ
  used-Agree r s now n a = record {
    blocks = λ u. stored-set_other s now "pow:nonce:" "block:" n u "1" _ refl ∙ a.blocks u;
    bans = λ ip. stored-set_other s now "pow:nonce:" "ban:" n ip "1" _ refl ∙ a.bans ip;
    nonces = λ m. stored-set_mark r.memory_nonces s now "pow:nonce:" n m 599 (a.nonces m);
  }

  -- A call answers alike and leaves states that agree.
  abbrev Alike : RedisClient → S → ℕ → Call → Type 0
  Alike r s now call =
      ((in_memory r now call).0 ≡ (over_server c s now call).0)
      × Agree c (in_memory r now call).1 (over_server c s now call).1

  nx_sets :
      (r : RedisClient) (s : S) (now : ℕ) (n : String)
      → Agree c r s
      → c.get s now (concat "pow:nonce:" n) ≡ none
      → ((Gates.is_nonce_unique c s now n).0 ≡ true)
        × Agree c
            (record r { memory_nonces = insert r.memory_nonces n (now + 10 * minute) })
            (Gates.is_nonce_unique c s now n).1
  unfolding Gates.is_nonce_unique
  nx_sets r s now n a gone =
      rw (laws.set_nx-absent s now (concat "pow:nonce:" n) "1" (10 * minute) gone)
        (refl, used-Agree r s now n a)

  nx_keeps :
      (r : RedisClient) (s : S) (now : ℕ) (n : String)
      → Agree c r s
      → c.get s now (concat "pow:nonce:" n) ≡ some "1"
      → ((Gates.is_nonce_unique c s now n).0 ≡ false)
        × Agree c r (Gates.is_nonce_unique c s now n).1
  unfolding Gates.is_nonce_unique
  nx_keeps r s now n a there =
      rw (laws.set_nx-present s now (concat "pow:nonce:" n) "1" (10 * minute) "1" there) (refl, a)

  is_fresh-Alike :
      (r : RedisClient) (s : S) (now : ℕ) (n : String)
      → Agree c r s
      → lookup r.memory_nonces n ≢ some now
      → ((Once.is_nonce_unique r now n).0 ≡ (Gates.is_nonce_unique c s now n).0)
        × Agree c (Once.is_nonce_unique r now n).1 (Gates.is_nonce_unique c s now n).1
  unfolding Once.is_nonce_unique
  is_fresh-Alike r s now n a untied = elim (Option-cases (lookup r.memory_nonces n)) [
    | inl absent ↦
        let gone = nx_sets r s now n a (laws.get-absent s now _ (a.nonces n ∙ ap mark absent)) in
        rw (absent, Once.is_nonce_unique) (sym gone.0, gone.1)
    | inr (t, found) ↦ elim (Bool-cases (ltb now t)) [
      | inl live ↦
          let there =
            nx_keeps r s now n a
              (laws.get-live s now _ "1" t (a.nonces n ∙ ap mark found) (ltb→lt now t live)) in
          rw (found, live, Once.is_nonce_unique) (sym there.0, there.1)
      | inr over ↦
          let other : t ≢ now = λ same. untied (found ∙ ap some same) in
          let gone =
            nx_sets r s now n a (
              laws.get-lapsed s now _ "1" t (a.nonces n ∙ ap mark found) (ground (arith, other))) in
          rw (found, over, Once.is_nonce_unique) (sym gone.0, gone.1)
    ]
  ]

  -- The reading of a lock or ban: `some t` counts up to and with `t` in memory.
  held :
      (now : ℕ) (o : Option ℕ)
      → o ≢ some now
      → is_live now o ≡ elim o [ none ↦ false | some t ↦ if ltb t now then false else true ]
  held now none untied = refl
  held now (some t) untied =
      let other : t ≢ now = λ same. untied (ap some same) in ground (arith, other)

  step-Alike :
      (r : RedisClient) (s : S) (now : ℕ) (call : Call)
      → Agree c r s
      → Untied r now call
      → Alike r s now call
  unfolding in_memory over_server Untied
  step-Alike r s now (block u) a h = (refl, block-Agree r s now u a)
  step-Alike r s now (unblock u) a h = (refl, unblock-Agree r s u a)
  step-Alike r s now (ban ip n) a h = (refl, ban-Agree r s now ip n a)
  step-Alike r s now (is_fresh n) a h = is_fresh-Alike r s now n a h
  step-Alike r s now (is_blocked u) a h =
      unfold Blocks.is_queue_blocked Gates.is_queue_blocked in
      (sym (laws.exists-get s now _ ∙ is_some-get s now _ _ (a.blocks u) h ∙ held now _ h), a)
  step-Alike r s now (is_banned ip) a h =
      unfold Limits.check_ip_ban Gates.check_ip_ban in
      (sym (laws.exists-get s now _ ∙ is_some-get s now _ _ (a.bans ip) h ∙ held now _ h), a)

  -- From states that agree, the relay answers the calls of its locks, bans and nonces in memory as
  -- it does over a server, if no mark read ends at the very instant of the call that reads it.
  pub memory-server :
      (r : RedisClient) (s : S) (calls : List (ℕ × Call))
      → Agree c r s
      → AllUntied r calls
      → memory_answers r calls ≡ server_answers c s calls
  unfolding memory_answers server_answers AllUntied
  memory-server r s [] a h = refl
  memory-server r s ((now, call) ∷ calls) a h =
      let alike = step-Alike r s now call a h.0 in
      ap₂ ◌∷◌ alike.0
        (memory-server (in_memory r now call).1 (over_server c s now call).1 calls alike.1 h.1)
