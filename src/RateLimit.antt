-- ===== src/RateLimit.antt =====
-- backend/app/services/rate_limit.py: fixed windows counted in Redis.
pub mod Quota
use soc_analyst.Prelude.{
  ℕ, ◌-◌, String, Bool, true, false, Option, none, some, leb, ltb, if◌then◌else◌, not, List, [],
  ◌∷◌, ◌==◌,
}
use soc_analyst.Redis.{Redis}
use soc_analyst.Pystr.{Pystr, is_empty, strip}

pub record RateLimitVerdict : Type 0 where
  pub allowed : Bool
  pub limit : ℕ
  pub remaining : ℕ
  pub retry_after : ℕ

unfoldable pub exceeded : RateLimitVerdict → Bool
exceeded v = not v.allowed

-- an f-string of two parts
abbrev pub appended : String → String → String
appended String.[] t = t
appended (String.◌∷◌ c s) t = String.◌∷◌ c (appended s t)

-- `f"{KEY_PREFIX}:{scope}:{identifier}"`
unfoldable pub key_of : String → String → String
key_of scope identifier = appended "ratelimit:" (appended scope (appended ":" identifier))

-- what is answered while Redis cannot be reached
unfoldable pub fail_open : ℕ → RateLimitVerdict
fail_open limit = record { allowed = true; limit = limit; remaining = limit; retry_after = 0 }

unfoldable pub verdict_of : ℕ → ℕ → ℕ → ℕ → RateLimitVerdict
verdict_of limit window count ttl = record {
  allowed = leb count limit;
  limit = limit;
  remaining = limit - count;
  retry_after = if ltb 0 ttl then ttl else window;
}

module _ (redis : Redis) where
  open redis use {Server, incr_ttl, expire, delete}

  -- the window starts now, where the key has no TTL
  unfoldable pub start_window : ℕ → ℕ → String → ℕ → Server → RateLimitVerdict × Server
  unfolding fail_open verdict_of
  start_window limit window key count s = elim (expire key window s) [
    | none ↦ (fail_open limit, s)
    | some s' ↦ (verdict_of limit window count window, s')
  ]

  unfoldable pub check : ℕ → ℕ → String → Server → RateLimitVerdict × Server
  unfolding start_window
  check limit window key s = elim (incr_ttl key s) [
    | none ↦ (fail_open limit, s)
    | some (count, none, s') ↦ start_window limit window key count s'
    | some (count, some ttl, s') ↦ (verdict_of limit window count ttl, s')
  ]

  -- best effort: a failure is only logged
  unfoldable pub reset : String → Server → Server
  reset key s = elim (delete key s) [ none ↦ s | some s' ↦ s' ]

-- the entry in front of the first comma
pub before_comma : Pystr → Pystr
before_comma [] = []
before_comma (c ∷ cs) = let rest = before_comma cs in if c == 44 then [] else c ∷ rest

pub or_host : Option Pystr → Pystr → Pystr
or_host none unknown = unknown
or_host (some host) unknown = if is_empty host then unknown else host

-- `unknown` is the text "unknown"
unfoldable pub client_identifier : Pystr → Option Pystr → Option Pystr → Pystr
unfolding before_comma or_host
client_identifier unknown client_host none = or_host client_host unknown
client_identifier unknown client_host (some forwarded) =
    let candidate = strip (before_comma forwarded) in
    if is_empty forwarded
    then or_host client_host unknown
    else if is_empty candidate
    then or_host client_host unknown
    else candidate
