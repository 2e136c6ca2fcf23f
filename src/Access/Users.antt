-- ===== src/Access/Users.antt =====
-- backend/app/models/user.py: the columns of an account that the modelled code reads or writes, and
-- the queries for one account. The table is a list of rows.
use soc_analyst.Prelude.{ℕ, ◌==◌, Bool, Option, none, some, List, [], ◌∷◌, String, if◌then◌else◌}
use soc_analyst.Enums.{UserRole, AuditAction}

pub record User : Type 0 where
  pub id : ℕ
  pub email : String
  pub username : String
  pub full_name : Option String
  pub hashed_password : String
  pub role : UserRole
  pub is_active : Bool
  pub last_login_at : Option ℕ

-- the entry of `audit.record` for an account or a session
pub record AuditEntry : Type 0 where
  pub action : AuditAction
  pub actor_id : Option ℕ
  pub actor_email : Option String
  pub resource_id : Option ℕ
  pub description : String
  pub success : Bool

-- the first row that a query's condition holds of
unfoldable pub find : (User → Bool) → List User → Option User
find p [] = none
find p (u ∷ users) = let rest = find p users in if p u then some u else rest

-- `session.get(User, id)`
unfoldable pub get : ℕ → List User → Option User
unfolding find
get id = find (λ u. u.id == id)

-- `setattr` on a loaded row, which the session writes back
unfoldable pub put : User → List User → List User
put user [] = []
put user (u ∷ users) =
    let rest = put user users in if u.id == user.id then user ∷ rest else u ∷ rest
