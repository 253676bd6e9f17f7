-- ===== src/Redis/Server.antt =====
-- RedisClient of wiltkey_server/redis.go in its other mode, over a Redis server. The server and the
-- client library are parameters: the commands that the relay sends, and what is documented of them.
-- The server's clock is the relay's.
pub mod Gates
pub mod Values
pub mod Counters
pub mod Modes
pub mod Issuance
pub mod Single
use wilt_key.Prelude.{
  ℕ, ◌+◌, ◌*◌, ◌^◌, ◌<◌, ◌≡◌, ◌≢◌, ◌⊎◌, String, Bool, true, false, Option, none, some, ◌==◌, eqb,
  if◌then◌else◌,
}
use wilt_key.Time.{second}

-- A value of the server with the end of its time to live; `none` is a key without one.
pub record Stored : Type 0 where
  pub value : String
  pub until : Option ℕ

-- The commands, by the methods of the client library. A command takes the server's state and the
-- time; a time to live of 0 is none. `stored` is what the laws speak of, and no command. `itoa` and
-- `atoi` are the library's texts of numbers, and `kept_for` is the time to live that the server is
-- told, in whole milliseconds.
pub record Commands (S : Type 0) : Type 0 where
  pub stored : S → String → Option Stored
  pub itoa : ℕ → String
  pub atoi : String → Option ℕ
  pub kept_for : ℕ → ℕ
  pub get : S → ℕ → String → Option String
  pub set : S → ℕ → String → String → ℕ → S
  pub set_nx : S → ℕ → String → String → ℕ → Bool × S
  pub exists : S → ℕ → String → Bool
  pub del : S → String → S
  pub incr_by : S → ℕ → String → ℕ → ℕ × S
  pub expire : S → ℕ → String → ℕ → S
  pub expire_nx : S → ℕ → String → ℕ → S

abbrev pub is_some {ℓ} : {A : Type ℓ} → Option A → Bool
is_some none = false
is_some (some a) = true

abbrev pub millisecond : ℕ
millisecond = 10 ^ 6

-- The entry that SET leaves.
unfoldable pub entry : {S : Type 0} → Commands S → ℕ → String → ℕ → Option Stored
entry c now v ttl =
    some (record { value = v; until = if eqb ttl 0 then none else some (now + c.kept_for ttl) })

-- What is documented of the commands. A key is there before the end of its time to live and gone
-- after it; the instant itself is left open.
pub record Laws {S : Type 0} (c : Commands S) : Type 0 where
  pub atoi-itoa : (n : ℕ) → c.atoi (c.itoa n) ≡ some n
  pub kept_for-seconds : (n : ℕ) → c.kept_for (n * second) ≡ n * second
  pub kept_for-close : (ttl : ℕ) → ttl < c.kept_for ttl + millisecond
  pub get-absent : (s : S) (now : ℕ) (k : String) → c.stored s k ≡ none → c.get s now k ≡ none
  pub get-kept :
      (s : S) (now : ℕ) (k v : String)
      → c.stored s k ≡ some (record { value = v; until = none })
      → c.get s now k ≡ some v
  pub get-live :
      (s : S) (now : ℕ) (k v : String) (u : ℕ)
      → c.stored s k ≡ some (record { value = v; until = some u })
      → now < u
      → c.get s now k ≡ some v
  pub get-lapsed :
      (s : S) (now : ℕ) (k v : String) (u : ℕ)
      → c.stored s k ≡ some (record { value = v; until = some u })
      → u < now
      → c.get s now k ≡ none
  pub get-stored :
      (s : S) (now : ℕ) (k v : String) (u : Option ℕ)
      → c.stored s k ≡ some (record { value = v; until = u })
      → (c.get s now k ≡ none) ⊎ (c.get s now k ≡ some v)
  pub exists-get : (s : S) (now : ℕ) (k : String) → c.exists s now k ≡ is_some (c.get s now k)
  pub stored-set :
      (s : S) (now : ℕ) (k v : String) (ttl : ℕ) (k' : String)
      → c.stored (c.set s now k v ttl) k' ≡ (if k == k' then entry c now v ttl else c.stored s k')
  pub set_nx-absent :
      (s : S) (now : ℕ) (k v : String) (ttl : ℕ)
      → c.get s now k ≡ none
      → c.set_nx s now k v ttl ≡ (true, c.set s now k v ttl)
  pub set_nx-present :
      (s : S) (now : ℕ) (k v : String) (ttl : ℕ) (old : String)
      → c.get s now k ≡ some old
      → c.set_nx s now k v ttl ≡ (false, s)
  pub stored-del :
      (s : S) (k k' : String) → c.stored (c.del s k) k' ≡ (if k == k' then none else c.stored s k')
  pub incr_by-absent :
      (s : S) (now : ℕ) (k : String) (n : ℕ)
      → c.get s now k ≡ none
      → ((c.incr_by s now k n).0 ≡ n)
        × (c.stored (c.incr_by s now k n).1 k ≡ some (record { value = c.itoa n; until = none }))
  pub incr_by-present :
      (s : S) (now : ℕ) (k v : String) (u : Option ℕ) (m n : ℕ)
      → c.get s now k ≡ some v
      → c.stored s k ≡ some (record { value = v; until = u })
      → c.atoi v ≡ some m
      → ((c.incr_by s now k n).0 ≡ m + n)
        × (c.stored (c.incr_by s now k n).1 k ≡ some (record { value = c.itoa (m + n); until = u }))
  pub incr_by-other :
      (s : S) (now : ℕ) (k : String) (n : ℕ) (k' : String)
      → k ≢ k'
      → c.stored (c.incr_by s now k n).1 k' ≡ c.stored s k'
  pub stored-expire :
      (s : S) (now : ℕ) (k v : String) (ttl : ℕ)
      → c.get s now k ≡ some v
      → c.stored (c.expire s now k ttl) k ≡ entry c now v ttl
  pub expire-other :
      (s : S) (now : ℕ) (k : String) (ttl : ℕ) (k' : String)
      → k ≢ k'
      → c.stored (c.expire s now k ttl) k' ≡ c.stored s k'
  pub expire_nx-kept :
      (s : S) (now : ℕ) (k v : String) (ttl : ℕ)
      → c.stored s k ≡ some (record { value = v; until = none })
      → c.stored (c.expire_nx s now k ttl) k ≡ entry c now v ttl
  pub expire_nx-bounded :
      (s : S) (now : ℕ) (k v : String) (u ttl : ℕ)
      → c.stored s k ≡ some (record { value = v; until = some u })
      → c.stored (c.expire_nx s now k ttl) k ≡ c.stored s k
  pub expire_nx-other :
      (s : S) (now : ℕ) (k : String) (ttl : ℕ) (k' : String)
      → k ≢ k'
      → c.stored (c.expire_nx s now k ttl) k' ≡ c.stored s k'
