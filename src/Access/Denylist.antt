-- ===== src/Access/Denylist.antt =====
-- backend/app/services/token_denylist.py: the revocation list, which fails closed. Times are in
-- microseconds, as a `datetime` has them.
use soc_analyst.Prelude.{
  ℕ, ◌+◌, ◌-◌, ◌*◌, ◌/◌, ◌≤◌, ◌<◌, ◌≡◌, ◌≢◌, Bool, true, false, none, some, String, Outcome, ok,
  raised, ◌==◌, if◌then◌else◌, arith, Option-cases, Bool-cases, inl, inr,
}
use mathlib.Core.Bool.{false≢true}
use soc_analyst.Redis.{Redis}
use Prim.Native.String.{◌++◌}

pub data DenylistUnavailable : Type 0 where
  unavailable : DenylistUnavailable

-- `_key`
unfoldable pub key_of : String → String
key_of jti = "auth:revoked-jti:" ++ jti

-- `math.ceil((expires_at - now).total_seconds())`, where that is positive, and else 0
unfoldable pub ttl_of : ℕ → ℕ → ℕ
ttl_of expires_at now = (expires_at - now + 999999) / 1000000

module _ (redis : Redis) where
  open redis use {Server, set_ex, Held, set_holds}

  -- the write, whose failure is logged and answered by false
  unfoldable pub set_key : ℕ → String → ℕ → Server → Bool × Server
  set_key now jti ttl s = elim (set_ex now (key_of jti) ttl s) [
    | none ↦ (false, s)
    | some s' ↦ (true, s')
  ]

  set_key-Held :
      (now : ℕ) (jti : String) (ttl : ℕ) (s : Server)
      → (set_key now jti ttl s).0 ≡ true
      → Held (key_of jti) (now + ttl * 1000000) (set_key now jti ttl s).1
  unfolding set_key
  set_key-Held now jti ttl s e = elim (Option-cases (set_ex now (key_of jti) ttl s)) [
    | inl f ↦ absurd (false≢true (rw (f, set_key) at e))
    | inr (s', f) ↦ rw (f, set_key) (set_holds now (key_of jti) ttl s s' f)
  ]

module _ (redis : Redis) (denylist_enabled : Bool) where
  open redis use {Server, exists, Held, exists_held}

  unfoldable pub revoke : ℕ → String → ℕ → Server → Bool × Server
  revoke now jti expires_at s =
      let ttl = ttl_of expires_at now in
      if denylist_enabled
      then (if ttl == 0 then (true, s) else set_key redis now jti ttl s)
      else (false, s)

  unfoldable pub is_revoked : ℕ → String → Server → Outcome DenylistUnavailable Bool
  is_revoked now jti s =
      if denylist_enabled
      then elim (exists now (key_of jti) s) [ none ↦ raised unavailable | some b ↦ ok b ]
      else ok false

  -- A revocation that succeeds keeps the token's key at least until the token expires.
  pub revoke-Held :
      (now : ℕ) (jti : String) (expires_at : ℕ) (s : Server)
      → now < expires_at
      → (revoke now jti expires_at s).0 ≡ true
      → (until : ℕ) × (expires_at ≤ until) × Held (key_of jti) until (revoke now jti expires_at s).1
  unfolding revoke ttl_of
  revoke-Held now jti expires_at s h e =
      let ttl : ℕ = (expires_at - now + 999999) / 1000000 in
      let positive : (ttl == 0) ≡ false = ground arith in
      elim (Bool-cases denylist_enabled) [
        | inl on ↦
            rw (on, positive)
              (
                now + ttl * 1000000,
                omega arith,
                set_key-Held redis now jti ttl s (rw (on, positive) at e),
              )
        | inr off ↦ absurd (false≢true (rw off at e))
      ]

  -- While the key is there, the token is never found unrevoked.
  pub is_revoked_held :
      (now until : ℕ) (jti : String) (s : Server)
      → denylist_enabled ≡ true
      → Held (key_of jti) until s
      → now < until
      → is_revoked now jti s ≢ ok false
  unfolding is_revoked
  is_revoked_held now until jti s on held early e =
      elim (Option-cases (exists now (key_of jti) s)) [
        | inl f ↦ cc (rw (on, f, is_revoked) at e)
        | inr (b, f) ↦
            cc (rw (on, f, is_revoked) at e, exists_held now until (key_of jti) s b f held early)
      ]
