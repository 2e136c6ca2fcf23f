-- ===== src/Access/Session.antt =====
-- backend/app/core/security.py (tokens) and backend/app/api/deps.py: from a bearer token to the
-- account that calls, and the roles that an endpoint admits. `jwt.decode` and the reading of a UUID
-- are not part of this code and enter as arguments.
pub mod Claims
pub mod Admission
use soc_analyst.Prelude.{
  ℕ, ◌+◌, Bool, true, false, not, Option, none, some, String, List, Outcome, ok, raised, str_eq,
  if◌then◌else◌,
}
use soc_analyst.Enums.{UserRole, admin, analyst, viewer}
use soc_analyst.Authz.{has_at_least}
use soc_analyst.Redis.{Redis}
use soc_analyst.Access.Http.{HttpError}
use soc_analyst.Access.Users.{User, get}
use soc_analyst.Access.Denylist.{DenylistUnavailable, unavailable, is_revoked}

-- a decoded payload: the claims that `jwt.decode` requires, and two that may be missing
pub record Payload : Type 0 where
  pub sub : String
  pub role : Option String
  pub typ : Option String
  pub jti : String
  pub issued_at : ℕ
  pub exp : ℕ

pub record TokenClaims : Type 0 where
  pub user_id : ℕ
  pub role : UserRole
  pub jti : String
  pub expires_at : ℕ

pub data InvalidToken : Type 0 where
  rejected not_access malformed : InvalidToken

-- `role.value`, and `UserRole(text)`, which raises on another text
unfoldable pub role_value : UserRole → String
role_value admin = "admin"
role_value analyst = "analyst"
role_value viewer = "viewer"

unfoldable pub role_of : String → Option UserRole
role_of s =
    if str_eq s "admin"
    then some admin
    else if str_eq s "analyst"
    then some analyst
    else if str_eq s "viewer"
    then some viewer
    else none

-- the payload of `create_access_token`
unfoldable pub payload_of : (ℕ → String) → ℕ → ℕ → UserRole → ℕ → String → Payload
unfolding role_value
payload_of str_uuid now user_id role lifetime jti = record {
  sub = str_uuid user_id;
  role = some (role_value role);
  typ = some "access";
  jti = jti;
  issued_at = now;
  exp = now + lifetime;
}

unfoldable pub is_access : Option String → Bool
is_access none = false
is_access (some t) = str_eq t "access"

unfoldable pub claimed_role : Option String → Option UserRole
unfolding role_of
claimed_role none = none
claimed_role (some r) = role_of r

module _ (parse_uuid : String → Option ℕ) where
  unfoldable pub read_claims : Payload → Outcome InvalidToken TokenClaims
  unfolding claimed_role
  read_claims p = elim (parse_uuid p.sub) [
    | none ↦ raised malformed
    | some id ↦ elim (claimed_role p.role) [
      | none ↦ raised malformed
      | some r ↦ ok (record { user_id = id; role = r; jti = p.jti; expires_at = p.exp })
    ]
  ]

  -- `decode_access_token`, from what `jwt.decode` returns
  unfoldable pub decode_access_token : Option Payload → Outcome InvalidToken TokenClaims
  unfolding is_access read_claims
  decode_access_token none = raised rejected
  decode_access_token (some p) = if is_access p.typ then read_claims p else raised not_access

abbrev pub unauthorized : String → HttpError
unauthorized detail = record { status = 401; detail = detail }

abbrev pub invalid : HttpError
invalid = unauthorized "Could not validate credentials"

module _ (parse_uuid : String → Option ℕ) (jwt_decode : ℕ → String → Option Payload) where
  unfoldable pub get_token_claims : ℕ → Option String → Outcome HttpError TokenClaims
  unfolding decode_access_token
  get_token_claims now none = raised (unauthorized "Not authenticated")
  get_token_claims now (some token) = elim (decode_access_token parse_uuid (jwt_decode now token)) [
    | raised _ ↦ raised invalid
    | ok claims ↦ ok claims
  ]

-- what is left once the token is known not to be revoked
unfoldable pub active_user : Option User → Outcome HttpError User
active_user none = raised invalid
active_user (some u) =
    if u.is_active
    then ok u
    else raised (record { status = 403; detail = "Account is deactivated" })

module _ (redis : Redis) (denylist_enabled : Bool) where
  open redis use {Server}

  unfoldable pub get_current_user : ℕ → Server → List User → TokenClaims → Outcome HttpError User
  unfolding active_user
  get_current_user now server users claims =
      elim (is_revoked redis denylist_enabled now claims.jti server) [
        | raised _ ↦
            raised (record { status = 503; detail = "Authentication is temporarily unavailable" })
        | ok true ↦ raised (unauthorized "Token has been revoked")
        | ok false ↦ active_user (get claims.user_id users)
      ]

-- `detail` is the text that names the minimum
unfoldable pub require_role : String → UserRole → User → Outcome HttpError User
require_role detail minimum user =
    if has_at_least user.role minimum
    then ok user
    else raised (record { status = 403; detail = detail })

-- `require_role` depends on the current user, and is not run where that raised
unfoldable pub admit : String → UserRole → Outcome HttpError User → Outcome HttpError User
unfolding require_role
admit detail minimum (raised e) = raised e
admit detail minimum (ok user) = require_role detail minimum user

module _ (parse_uuid : String → Option ℕ) (jwt_decode : ℕ → String → Option Payload) (redis : Redis)
    (denylist_enabled : Bool) where
  open redis use {Server}

  -- the chain of dependencies in front of an endpoint that admits a minimum role
  unfoldable pub authorize :
      ℕ → Server → List User → String → UserRole → Option String → Outcome HttpError User
  unfolding get_token_claims get_current_user admit
  authorize now server users detail minimum token =
      elim (get_token_claims parse_uuid jwt_decode now token) [
        | raised e ↦ raised e
        | ok claims ↦
            admit detail minimum (get_current_user redis denylist_enabled now server users claims)
      ]
