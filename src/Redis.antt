-- ===== src/Redis.antt =====
-- The Redis server behind backend/app/db/redis.py, which is not part of this code: an interface of
-- the commands that the services send, with what they rely on. A command that fails (`RedisError`,
-- `OSError`) answers `none`. Times are in microseconds, TTLs in seconds.
use soc_analyst.Prelude.{ℕ, ◌+◌, ◌*◌, ◌<◌, ◌≡◌, ◌≢◌, Bool, true, Option, some, String}

pub record Redis : Type 1 where
  pub Server : Type 0
  -- `INCR` and `TTL` in one transaction: the count, and the TTL where it is not negative
  pub incr_ttl : String → Server → Option (ℕ × Option ℕ × Server)
  pub expire : String → ℕ → Server → Option Server
  pub delete : String → Server → Option Server
  -- `SET key 1 EX ttl` at a time
  pub set_ex : ℕ → String → ℕ → Server → Option Server
  -- `EXISTS` at a time
  pub exists : ℕ → String → Server → Option Bool
  -- the number at a key, 0 where there is none
  pub counter : String → Server → ℕ
  -- the key stays until a time
  pub Held : String → ℕ → Server → Type 0
  -- `INCR` adds one to its key and to no other.
  pub incr_adds :
      (k : String) (s : Server) (n : ℕ) (t : Option ℕ) (s' : Server)
      → incr_ttl k s ≡ some (n, t, s')
      → (n ≡ counter k s + 1) × (counter k s' ≡ counter k s + 1)
  pub incr_others :
      (k j : String) (s : Server) (n : ℕ) (t : Option ℕ) (s' : Server)
      → incr_ttl k s ≡ some (n, t, s')
      → j ≢ k
      → counter j s' ≡ counter j s
  -- A key that is set with a TTL stays for it, and `EXISTS` sees a key that is there.
  pub set_holds :
      (now : ℕ) (k : String) (ttl : ℕ) (s s' : Server)
      → set_ex now k ttl s ≡ some s'
      → Held k (now + ttl * 1000000) s'
  pub exists_held :
      (now until : ℕ) (k : String) (s : Server) (b : Bool)
      → exists now k s ≡ some b
      → Held k until s
      → now < until
      → b ≡ true
