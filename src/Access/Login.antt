-- ===== src/Access/Login.antt =====
-- backend/app/api/limits.py and the sign-in and sign-out endpoints of backend/app/api/v1/endpoints/auth.py.
-- A request that is refused before `commit` leaves the tables as they were; a failed sign-in commits.
pub mod Answers
use soc_analyst.Prelude.{
  ℕ, ◌≡◌, Bool, true, false, Option, none, some, String, List, [], ◌∷◌, ◌++◌, Outcome, ok, raised,
  if◌then◌else◌,
}
use soc_analyst.Enums.{UserRole, AuditAction}
use soc_analyst.Redis.{Redis}
use soc_analyst.RateLimit.{RateLimitVerdict, check, reset, exceeded, key_of}
use Prim.Native.String.{slice}
use soc_analyst.Access.Http.{HttpError}
use soc_analyst.Access.Users.{User}
use soc_analyst.Access.Accounts.{
  Hasher, Book, UserCreate, RegistrationError, email_already_registered, username_taken, register,
  authenticate,
}
use soc_analyst.Access.Denylist.{revoke}
use soc_analyst.Access.Session.{TokenClaims}

-- the settings that the endpoints read
pub record Limits : Type 0 where
  pub rate_limit_enabled : Bool
  pub login_attempts : ℕ
  pub login_window : ℕ
  pub register_attempts : ℕ
  pub register_window : ℕ

abbrev pub too_many : HttpError
too_many = record {
  status = 429;
  detail = "Too many requests. Please slow down and try again later.";
}

abbrev pub bad_credentials : HttpError
bad_credentials = record { status = 401; detail = "Incorrect email or password" }

module _ (redis : Redis) where
  open redis use {Server}

  -- `enforce`: the error, if the request is over its limit, and the server after the count
  pub enforce : Bool → ℕ → ℕ → String → Server → Option HttpError × Server
  enforce rate_limit_enabled limit window key s =
      let (v, s') = check redis limit window key s in
      if rate_limit_enabled then (if exceeded v then some too_many else none, s') else (none, s)

-- The methods of `str` and the digest that the endpoints call: `strip`, `lower` and the hexadecimal
-- SHA-256 of the UTF-8 text.
pub record Strings : Type 0 where
  pub lower : String → String
  pub strip : String → String
  pub hexdigest : String → String

-- `_account_key`
unfoldable pub account_key : Strings → String → String
account_key strings email = slice (strings.hexdigest (strings.lower (strings.strip email))) 0 32

-- the counters of an account and of a caller's address
unfoldable pub account_counter : Strings → String → String
unfolding account_key key_of
account_counter strings email = key_of "login-account" (account_key strings email)

unfoldable pub caller_counter : String → String
unfolding key_of
caller_counter caller = key_of "login" caller

module _ (redis : Redis) (strings : Strings) (hasher : Hasher) where
  open redis use {Server}

  -- what the endpoint does with the account that `authenticate` returns; the answer is the account,
  -- for which the token is minted
  pub answer_login :
      String → String → Option User × Book → Server → Outcome HttpError User × Book × Server
  unfolding account_counter caller_counter
  answer_login caller email (none, b) s = (raised bad_credentials, b, s)
  answer_login caller email (some u, b) s = (
    ok u,
    record b {
      audit =
          b.audit
          ++ (record {
            action = AuditAction.login;
            actor_id = some u.id;
            actor_email = some u.email;
            resource_id = some u.id;
            description = "login succeeded";
            success = true;
          })
            ∷ [];
    },
    reset redis (caller_counter caller) (reset redis (account_counter strings email) s),
  )

  -- the limit by account, once the one by address has passed
  pub login_account :
      Limits
      → ℕ
      → ℕ
      → (caller email password : String) → Book
      → Server
      → Outcome HttpError User × Book × Server
  unfolding account_counter answer_login
  login_account l now salt caller email password b s =
      let (refusal, s') =
        enforce redis l.rate_limit_enabled l.login_attempts l.login_window
          (account_counter strings email) s in
      elim refusal [
        | some e ↦ (raised e, b, s')
        | none ↦
            answer_login caller email (authenticate strings.lower hasher now salt email password b)
              s'
      ]

  -- the `login` endpoint with its dependency `LoginRateLimit`, for a caller's address
  pub login :
      Limits
      → ℕ
      → ℕ
      → (caller email password : String) → Book
      → Server
      → Outcome HttpError User × Book × Server
  unfolding caller_counter login_account
  login l now salt caller email password b s =
      let (refusal, s') =
        enforce redis l.rate_limit_enabled l.login_attempts l.login_window (caller_counter caller)
          s in
      elim refusal [
        | some e ↦ (raised e, b, s')
        | none ↦ login_account l now salt caller email password b s'
      ]

  -- what the `register` endpoint does with the outcome of `register`
  pub answer_register :
      Book → Outcome RegistrationError (User × Book) → Outcome HttpError User × Book
  answer_register b (raised email_already_registered) =
      (raised (record { status = 409; detail = "An account with that email already exists" }), b)
  answer_register b (raised username_taken) =
      (raised (record { status = 409; detail = "That username is taken" }), b)
  answer_register b (ok (u, b')) = (ok u, b')

  -- the `register` endpoint with its dependency `RegisterRateLimit`
  pub register_account :
      Limits → ℕ → ℕ → String → UserCreate → Book → Server → Outcome HttpError User × Book × Server
  unfolding answer_register key_of
  register_account l id salt caller payload b s =
      let (refusal, s') =
        enforce redis l.rate_limit_enabled l.register_attempts l.register_window
          (key_of "register" caller) s in
      elim refusal [
        | some e ↦ (raised e, b, s')
        | none ↦
            let (answer, b') =
              answer_register b (register strings.lower hasher id salt payload b) in
            (answer, b', s')
      ]

abbrev logout_text : Bool → String
logout_text true = "logout"
logout_text false = "logout (token not revoked)"

module _ (redis : Redis) (denylist_enabled : Bool) where
  open redis use {Server}

  -- the answer says whether the token was revoked
  pub logout : ℕ → User → TokenClaims → Book → Server → Bool × Book × Server
  logout now user claims b s =
      let (revoked, s') = revoke redis denylist_enabled now claims.jti claims.expires_at s in
      (
        revoked,
        record b {
          audit =
              b.audit
              ++ (record {
                action = AuditAction.logout;
                actor_id = some user.id;
                actor_email = some user.email;
                resource_id = some user.id;
                description = logout_text revoked;
                success = true;
              })
                ∷ [];
        },
        s',
      )
