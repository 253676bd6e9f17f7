-- ===== src/Redis/Server/Modes.antt =====
-- The calls of the nuke lock, the bans and the nonces in the two modes of wiltkey_server/redis.go.
pub mod Agreement
use wilt_key.Prelude.{
  ℕ, suc, ◌+◌, ◌*◌, ◌≡◌, ◌≢◌, refl, sym, ap, ◌∙◌, eqb, String, Bool, true, false, Option, none,
  some, List, [], ◌∷◌, arith, ltb, ltb→lt, Bool-cases, Option-cases, inl, inr, ◌==◌, if◌then◌else◌,
}
use mathlib.Core.Path.{ap₂}
use wilt_key.Prelude.Text.{concat, concat_same, concat_apart, differ}
use wilt_key.Prelude.GoMap.{GoMap, lookup, insert, delete, lookup-insert, lookup-delete}
use wilt_key.Time.{second, minute}
use wilt_key.Redis.{RedisClient}
use wilt_key.Redis.Blocks
use wilt_key.Redis.Limits
use wilt_key.Redis.Once
use wilt_key.Redis.Server.{Commands, Laws, Stored, entry, is_some}
use wilt_key.Redis.Server.Gates

-- A ban lasts a positive number of seconds.
pub data Call : Type 0 where
  block unblock is_blocked is_banned is_fresh : String → Call
  ban : String → ℕ → Call

-- The answer of a call in memory (`true` where it has none), and the client behind it.
unfoldable pub in_memory : RedisClient → ℕ → Call → Bool × RedisClient
in_memory r now (block u) = (true, Blocks.block_queue r now u)
in_memory r now (unblock u) = (true, Blocks.unblock_queue r u)
in_memory r now (is_blocked u) = (Blocks.is_queue_blocked r now u, r)
in_memory r now (is_banned ip) = (Limits.check_ip_ban r now ip, r)
in_memory r now (is_fresh n) = Once.is_nonce_unique r now n
in_memory r now (ban ip n) = (true, Limits.ban_ip r now ip (suc n * second))

-- The same over a server.
unfoldable pub over_server : {S : Type 0} → Commands S → S → ℕ → Call → Bool × S
over_server c s now (block u) = (true, Gates.block_queue c s now u)
over_server c s now (unblock u) = (true, Gates.unblock_queue c s u)
over_server c s now (is_blocked u) = (Gates.is_queue_blocked c s now u, s)
over_server c s now (is_banned ip) = (Gates.check_ip_ban c s now ip, s)
over_server c s now (is_fresh n) = Gates.is_nonce_unique c s now n
over_server c s now (ban ip n) = (true, Gates.ban_ip c s now ip (suc n * second))

unfoldable pub memory_answers : RedisClient → List (ℕ × Call) → List Bool
unfolding in_memory
memory_answers r [] = []
memory_answers r ((now, call) ∷ calls) =
    let (answer, r') = in_memory r now call in answer ∷ memory_answers r' calls

unfoldable pub server_answers : {S : Type 0} → Commands S → S → List (ℕ × Call) → List Bool
unfolding over_server
server_answers c s [] = []
server_answers c s ((now, call) ∷ calls) =
    let (answer, s') = over_server c s now call in answer ∷ server_answers c s' calls

-- No mark that the call reads ends at the very instant of the call.
unfoldable pub Untied : RedisClient → ℕ → Call → Type 0
Untied r now (block u) = ◌≡◌ {A = Bool} true true
Untied r now (unblock u) = ◌≡◌ {A = Bool} true true
Untied r now (is_blocked u) = lookup r.memory_blocks u ≢ some now
Untied r now (is_banned ip) = lookup r.memory_bans ip ≢ some now
Untied r now (is_fresh n) = lookup r.memory_nonces n ≢ some now
Untied r now (ban ip n) = ◌≡◌ {A = Bool} true true

unfoldable pub AllUntied : RedisClient → List (ℕ × Call) → Type 0
unfolding Untied in_memory
AllUntied r [] = ◌≡◌ {A = Bool} true true
AllUntied r ((now, call) ∷ calls) = Untied r now call × AllUntied (in_memory r now call).1 calls
