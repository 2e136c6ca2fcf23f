-- ===== src/Access/Login/Answers.antt =====
-- What a sign-in answers, and how many passwords can be tried.
use soc_analyst.Prelude.{
  ◌==◌, ℕ, zero, suc, refl, ap, subst, ◌+◌, ◌-◌, ◌≤◌, ◌≡◌, ◌≢◌, inl, inr, Bool, true, false, Option,
  none, some, String, List, [], ◌∷◌, Outcome, ok, raised, Bool-cases, arith, leb, All,
  if◌then◌else◌,
}
use soc_analyst.Redis.{Redis}
use soc_analyst.RateLimit.{exceeded, key_of}
use soc_analyst.RateLimit.Quota.{IsReliable, check_lem}
use soc_analyst.Access.Http.{HttpError}
use soc_analyst.Access.Users.{User}
use soc_analyst.Access.Accounts.{Hasher, Book, authenticate}
use Prim.Native.Char.{code}
use Prim.Native.String.{slice}
use soc_analyst.Access.Login.{
  Limits, Strings, too_many, enforce, account_key, account_counter, caller_counter, answer_login,
  login_account, login,
}

-- one sign-in, from an address and with the hash's salt and the time
pub record Attempt : Type 0 where
  pub now : ℕ
  pub salt : ℕ
  pub caller : String
  pub email : String
  pub password : String

-- the character at a place, 0 behind the end
code_at : ℕ → String → ℕ
code_at n String.[] = 0
code_at zero (String.◌∷◌ c s) = code c
code_at (suc n) (String.◌∷◌ c s) = code_at n s

-- The two scopes share no key.
scopes_apart : (i j : String) → key_of "login-account" i ≢ key_of "login" j
unfolding key_of code_at
scopes_apart i j h =
    let dash : code_at 15 (key_of "login-account" i) ≡ 45 = refl in
    let colon : code_at 15 (key_of "login" j) ≡ 58 = refl in
    let same : code_at 15 (key_of "login-account" i) ≡ code_at 15 (key_of "login" j) =
      ap (code_at 15) h in
    omega (arith, dash, colon, same)

counters_apart :
    (strings : Strings) (email caller : String)
    → account_counter strings email ≢ caller_counter caller
unfolding account_counter caller_counter account_key
counters_apart strings email caller = scopes_apart (account_key strings email) caller

module _ (redis : Redis) (strings : Strings) (hasher : Hasher) where
  open redis use {Server, counter}

  enforce_lem :
      (enabled : Bool) (limit window : ℕ) (key : String) (s : Server)
      → IsReliable redis
      → enabled ≡ true
      → ((enforce redis enabled limit window key s).0
          ≡ (if leb (counter key s + 1) limit then none else some too_many))
        × (counter key (enforce redis enabled limit window key s).1 ≡ counter key s + 1)
        × ((j : String)
            → j ≢ key
            → counter j (enforce redis enabled limit window key s).1 ≡ counter j s)
  unfolding enforce exceeded
  enforce_lem false limit window key s r on = cc
  enforce_lem true limit window key s r on =
      let c = check_lem redis limit window key s r in (ground (arith, c.0), c.1, c.2)

  pub attempt : Limits → Attempt → Book → Server → Outcome HttpError User × Book × Server
  attempt l a = login redis strings hasher l a.now a.salt a.caller a.email a.password

  abbrev is_guess : Outcome HttpError User → ℕ → ℕ
  is_guess (ok u) rest = 0
  is_guess (raised e) rest = (if e.status == 401 then 1 else 0) + rest

  -- The passwords that are tried and found wrong in a run of sign-ins, until one succeeds.
  pub guesses : Limits → List Attempt → Book → Server → ℕ
  guesses l [] b s = 0
  guesses l (a ∷ as_) b s =
      let (answer, b', s') = attempt l a b s in is_guess answer (guesses l as_ b' s')

  -- the count of the account's key pays for a guess
  Pays : ℕ → String → Server → Outcome HttpError User × Book × Server → Type 0
  Pays limit key s (answer, b', s') =
      (rest : ℕ) → rest ≤ limit - counter key s' → is_guess answer rest ≤ limit - counter key s

  refused-Pays :
      (limit : ℕ) (key : String) (b : Book) (s s' : Server)
      → counter key s ≤ counter key s'
      → Pays limit key s (raised too_many, b, s')
  unfolding Pays
  refused-Pays limit key b s s' h rest k = omega (arith, h, k)

  answer_login-Pays :
      (limit : ℕ) (key caller email : String) (o : Option User × Book) (s s' : Server)
      → counter key s' ≡ counter key s + 1
      → counter key s + 1 ≤ limit
      → Pays limit key s (answer_login redis strings hasher caller email o s')
  unfolding Pays answer_login
  answer_login-Pays limit key caller email (none, b) s s' c h rest k = omega (arith, c, k)
  answer_login-Pays limit key caller email (some u, b) s s' c h rest k = omega arith

  Pays-kept :
      (limit : ℕ) (key : String) (s s' : Server) (out : Outcome HttpError User × Book × Server)
      → counter key s' ≡ counter key s
      → Pays limit key s' out
      → Pays limit key s out
  unfolding Pays
  Pays-kept limit key s s' (answer, b, t) e h rest k = omega (arith, e, h rest k)

  login_account-Pays :
      (l : Limits) (now salt : ℕ) (caller email password : String) (b : Book) (s : Server)
      → IsReliable redis
      → l.rate_limit_enabled ≡ true
      → Pays l.login_attempts
          (account_counter strings email)
          s
          (login_account redis strings hasher l now salt caller email password b s)
  unfolding login_account
  login_account-Pays l now salt caller email password b s r on =
      let key : String = account_counter strings email in
      let e = enforce_lem l.rate_limit_enabled l.login_attempts l.login_window key s r on in
      elim (Bool-cases (leb (counter key s + 1) l.login_attempts)) [
        | inl fits ↦
            rw (e.0, fits, login_account)
              (answer_login-Pays l.login_attempts key caller email
                (authenticate strings.lower hasher now salt email password b) s
                (enforce redis l.rate_limit_enabled l.login_attempts l.login_window key s).1 e.1
                (ground arith))
        | inr full ↦
            rw (e.0, full, login_account)
              (refused-Pays l.login_attempts key b s
                (enforce redis l.rate_limit_enabled l.login_attempts l.login_window key s).1
                (omega (arith, e.1)))
      ]

  attempt-Pays :
      (l : Limits) (a : Attempt) (b : Book) (s : Server)
      → IsReliable redis
      → l.rate_limit_enabled ≡ true
      → Pays l.login_attempts (account_counter strings a.email) s (attempt l a b s)
  unfolding attempt login
  attempt-Pays l a b s r on =
      let key : String = account_counter strings a.email in
      let other : String = caller_counter a.caller in
      let e = enforce_lem l.rate_limit_enabled l.login_attempts l.login_window other s r on in
      let s' : Server =
        (enforce redis l.rate_limit_enabled l.login_attempts l.login_window other s).1 in
      let kept : counter key s' ≡ counter key s =
        e.2 key (counters_apart strings a.email a.caller) in
      elim (Bool-cases (leb (counter other s + 1) l.login_attempts)) [
        | inl fits ↦
            rw (e.0, fits, login)
              (Pays-kept l.login_attempts key s s' _ kept
                (login_account-Pays l a.now a.salt a.caller a.email a.password b s' r on))
        | inr full ↦
            rw (e.0, full, login) (refused-Pays l.login_attempts key b s s' (omega (arith, kept)))
      ]

  -- The counter of the account whose address is given as `strip` and `lower` leave it.
  abbrev pub counter_of : String → String
  counter_of address = key_of "login-account" (slice (strings.hexdigest address) 0 32)

  counter_of-spelling :
      (address email : String)
      → strings.lower (strings.strip email) ≡ address
      → account_counter strings email ≡ counter_of address
  unfolding account_counter account_key
  counter_of-spelling address email e =
      ap (λ x. key_of "login-account" (slice (strings.hexdigest x) 0 32)) e

  -- While rate limiting is enabled, Redis answers and no key expires, the wrong passwords that a run
  -- of sign-ins for one account gets to try before one succeeds are bounded by what the account's
  -- limit leaves, from whatever addresses they come, and however the account's address is spelled as
  -- to case and outer white space.
  pub guesses_bounded :
      (l : Limits) (address : String) (attempts : List Attempt) (b : Book) (s : Server)
      → IsReliable redis
      → l.rate_limit_enabled ≡ true
      → All (λ a. strings.lower (strings.strip a.email) ≡ address) attempts
      → guesses l attempts b s ≤ l.login_attempts - counter (counter_of address) s
  unfolding guesses Pays
  guesses_bounded l address [] b s r on e = omega arith
  guesses_bounded l address (a ∷ as_) b s r on e =
      let (answer, b', s') = attempt l a b s in
      let same = counter_of-spelling address a.email e.0 in
      subst (λ k. Pays l.login_attempts k s (attempt l a b s)) same (attempt-Pays l a b s r on)
        (guesses l as_ b' s') (guesses_bounded l address as_ b' s' r on e.1)
