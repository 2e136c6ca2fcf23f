-- ===== src/RateLimit/Quota.antt =====
-- How many requests a window admits.
use soc_analyst.Prelude.{
  ℕ, ◌+◌, ◌-◌, min, ◌≡◌, ◌≢◌, refl, ◌∙◌, sym, ap, subst, String, true, none, some, List, [], ◌∷◌,
  arith, leb, if◌then◌else◌, str_eq, eq_iff, Bool-cases, Option-cases, inl, inr,
}
use mathlib.Core.Bool.{false≢true}
use soc_analyst.Redis.{Redis}
use soc_analyst.RateLimit.{start_window, check}

module _ (redis : Redis) where
  open redis use {Server, incr_ttl, expire, counter, incr_adds, incr_others}

  -- No command of a check fails, and no key expires, also not at once under `EXPIRE` with 0.
  pub record IsReliable : Type 0 where
    pub incr_answers : (k : String) (s : Server) → incr_ttl k s ≢ none
    pub expire_answers : (k : String) (w : ℕ) (s : Server) → expire k w s ≢ none
    pub expire_counter :
        (k j : String) (w : ℕ) (s s' : Server) → expire k w s ≡ some s' → counter j s' ≡ counter j s

  -- The requests of a window, each under its key: how many of those under `k` are let through.
  pub admitted : ℕ → ℕ → String → List String → Server → ℕ
  admitted limit window k [] s = 0
  admitted limit window k (j ∷ js) s =
      let (v, s') = check redis limit window j s in
      let rest = admitted limit window k js s' in
      if str_eq j k then (if v.allowed then 1 + rest else rest) else rest

  pub requests : String → List String → ℕ
  requests k [] = 0
  requests k (j ∷ js) = let rest = requests k js in if str_eq j k then 1 + rest else rest

  -- One check counts one request under its key, and admits it while the count is within the limit.
  pub check_lem :
      (limit window : ℕ) (k : String) (s : Server)
      → IsReliable
      → ((check redis limit window k s).0.allowed ≡ leb (counter k s + 1) limit)
        × (counter k (check redis limit window k s).1 ≡ counter k s + 1)
        × ((j : String) → j ≢ k → counter j (check redis limit window k s).1 ≡ counter j s)
  unfolding check
  check_lem limit window k s r = elim (Option-cases (incr_ttl k s)) [
    | inl e ↦ absurd (r.incr_answers k s e)
    | inr ((n, some t, s'), e) ↦
        rw (e, check)
          (
            ground (arith, incr_adds k s n (some t) s' e),
            ground (arith, incr_adds k s n (some t) s' e),
            λ j h. incr_others k j s n (some t) s' e h,
          )
    | inr ((n, none, s'), e) ↦ elim (Option-cases (expire k window s')) [
      | inl f ↦ absurd (r.expire_answers k window s' f)
      | inr (s'', f) ↦
          rw (e, check)
            (rw (f, start_window)
              (
                ground (arith, incr_adds k s n none s' e),
                r.expire_counter k k window s' s'' f ∙ (incr_adds k s n none s' e).1,
                λ j h. r.expire_counter k j window s' s'' f ∙ incr_others k j s n none s' e h,
              ))
    ]
  ]

  admit :
      (n limit c rest : ℕ)
      → rest ≡ min n (limit - (c + 1))
      → (if leb (c + 1) limit then 1 + rest else rest) ≡ min (1 + n) (limit - c)
  admit n limit c rest h = ground arith

  -- Over any run of requests under any keys in which Redis answers and no key expires, a key's
  -- requests are let through one by one until its counter meets the limit, and none after: exactly
  -- as many as the limit leaves, whatever is requested under the other keys in between.
  pub quota_exact :
      (limit window : ℕ) (k : String) (js : List String) (s : Server)
      → IsReliable
      → admitted limit window k js s ≡ min (requests k js) (limit - counter k s)
  unfolding admitted requests
  quota_exact limit window k [] s r = omega arith
  quota_exact limit window k (j ∷ js) s r = elim (Bool-cases (str_eq j k)) [
    | inl same ↦
        let e : j ≡ k = (eq_iff j k).0 same in
        let c = check_lem limit window j s r in
        let s' : Server = (check redis limit window j s).1 in
        let ih = quota_exact limit window k js s' r in
        let at_key : counter k s' ≡ counter k s + 1 =
          subst (λ x. counter x s' ≡ counter x s + 1) e c.1 in
        let allowed : (check redis limit window j s).0.allowed ≡ leb (counter k s + 1) limit =
          c.0 ∙ ap (λ x. leb (counter x s + 1) limit) e in
        rw (same, allowed)
          (admit (requests k js) limit (counter k s) (admitted limit window k js s')
            (ih ∙ ap (λ n. min (requests k js) (limit - n)) at_key))
    | inr other ↦
        let s' : Server = (check redis limit window j s).1 in
        let kept : counter k s' ≡ counter k s =
          (check_lem limit window j s r).2 k
            (λ p. false≢true (sym other ∙ (eq_iff j k).1 (sym p))) in
        rw other
          (quota_exact limit window k js s' r ∙ ap (λ n. min (requests k js) (limit - n)) kept)
  ]

  -- A check that Redis does not answer lets the request through, whatever was counted, and leaves
  -- no count behind.
  pub check_unavailable :
      (limit window : ℕ) (k : String) (s : Server)
      → incr_ttl k s ≡ none
      → ((check redis limit window k s).0.allowed ≡ true)
        × ((check redis limit window k s).0.remaining ≡ limit)
        × ((check redis limit window k s).1 ≡ s)
  unfolding check
  check_unavailable limit window k s e = rw (e, check) (refl, refl, refl)
