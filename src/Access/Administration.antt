-- ===== src/Access/Administration.antt =====
-- backend/app/api/v1/endpoints/users.py: an administrator's changes to an account, and the change of
-- one's own password. A change that leaves a `NOT NULL` column null fails at the flush.
pub mod Lockout
use soc_analyst.Prelude.{
  ℕ, ◌==◌, Bool, true, false, not, ◌||◌, is_some, Option, none, some, String, List, [], ◌∷◌, ◌++◌,
  Outcome, ok, raised, str_eq, if◌then◌else◌, ◌≡◌, refl,
}
use soc_analyst.Enums.{UserRole, same_role, AuditAction}
use soc_analyst.Access.Http.{HttpError}
use soc_analyst.Access.Users.{User, AuditEntry, get, put}
use soc_analyst.Access.Accounts.{Hasher, Book}

-- each column is unset, null or a value
pub record UserUpdate : Type 0 where
  pub role : Option (Option UserRole)
  pub is_active : Option (Option Bool)
  pub full_name : Option (Option String)

pub data UserUpdateError : Type 0 where
  refused : HttpError → UserUpdateError
  integrity_error : UserUpdateError

-- an item of `changes`: the value before, and the one asked for
pub data UserChange : Type 0 where
  role_changed : UserRole → Option UserRole → UserChange
  is_active_changed : Bool → Option Bool → UserChange
  full_name_changed : Option String → Option String → UserChange

abbrev pub not_found : HttpError
not_found = record { status = 404; detail = "User not found" }

abbrev pub own_role : HttpError
own_role = record { status = 400; detail = "You cannot change your own role" }

abbrev pub own_account : HttpError
own_account = record { status = 400; detail = "You cannot deactivate your own account" }

-- `not updates`
unfoldable pub is_unset : UserUpdate → Bool
is_unset p = not (is_some p.role || is_some p.is_active || is_some p.full_name)

-- `"role" in updates and updates["role"] != user.role`
unfoldable pub differs {ℓ} : {A : Type ℓ} → (A → A → Bool) → Option (Option A) → A → Bool
differs same none old = false
differs same (some none) old = true
differs same (some (some v)) old = not (same old v)

abbrev pub same_bool : Bool → Bool → Bool
same_bool true b = b
same_bool false b = not b

abbrev pub same_name : Option String → Option String → Bool
same_name none none = true
same_name (some a) (some b) = str_eq a b
same_name _ _ = false

-- `updates.get("is_active") is False`
unfoldable pub deactivates : Option (Option Bool) → Bool
deactivates (some (some false)) = true
deactivates _ = false

-- the two checks of a change to the caller's own account
unfoldable pub refusal : User → UserUpdate → User → Option HttpError
unfolding differs deactivates
refusal caller p user =
    if user.id == caller.id
    then if differs same_role p.role user.role
      then some own_role
      else if deactivates p.is_active
      then some own_account
      else none
    else none

-- a column that may not be null, and one that may
unfoldable pub set_required {ℓ} : {A : Type ℓ} → Option (Option A) → A → Option A
set_required none old = some old
set_required (some v) old = v

unfoldable pub set_nullable {ℓ} : {A : Type ℓ} → Option (Option A) → Option A → Option A
set_nullable none old = old
set_nullable (some v) old = v

-- the loop of `setattr` and the flush
unfoldable pub written_row : UserUpdate → User → Option User
unfolding set_required set_nullable
written_row p user = elim (set_required p.role user.role) [
  | none ↦ none
  | some r ↦ elim (set_required p.is_active user.is_active) [
    | none ↦ none
    | some a ↦ some (record user {
      role = r;
      is_active = a;
      full_name = set_nullable p.full_name user.full_name;
    })
  ]
]

role_changes : Option (Option UserRole) → UserRole → List UserChange
role_changes none old = []
role_changes (some v) old = if differs same_role (some v) old then role_changed old v ∷ [] else []

is_active_changes : Option (Option Bool) → Bool → List UserChange
is_active_changes none old = []
is_active_changes (some v) old =
    if differs same_bool (some v) old then is_active_changed old v ∷ [] else []

full_name_changes : Option (Option String) → Option String → List UserChange
full_name_changes none old = []
full_name_changes (some v) old = if same_name old v then [] else full_name_changed old v ∷ []

-- the dict `changes` of the audit entry
pub changes_of : UserUpdate → User → List UserChange
unfolding role_changes is_active_changes full_name_changes
changes_of p user =
    role_changes p.role user.role
    ++ (is_active_changes p.is_active user.is_active
        ++ full_name_changes p.full_name user.full_name)

-- an entry on the caller's action on an account
abbrev pub entry_of : User → ℕ → String → Bool → AuditEntry
entry_of actor resource_id description success = record {
  action = AuditAction.update;
  actor_id = some actor.id;
  actor_email = some actor.email;
  resource_id = some resource_id;
  description = description;
  success = success;
}

-- what follows the checks
unfoldable pub write :
    User → UserUpdate → User → Book → Outcome UserUpdateError (User × List UserChange × Book)
unfolding changes_of
write caller p user b = elim (written_row p user) [
  | none ↦ raised integrity_error
  | some row ↦ ok (
    row,
    changes_of p user,
    record {
      users = put row b.users;
      audit = b.audit ++ entry_of caller user.id "account updated by administrator" true ∷ [];
    },
  )
]

-- the rest of the endpoint, once the account is looked up
unfoldable pub update_found :
    User → UserUpdate → Option User → Book → Outcome UserUpdateError (User × List UserChange × Book)
unfolding is_unset
update_found caller p none b = raised (refused not_found)
update_found caller p (some user) b =
    if is_unset p
    then ok (user, [], b)
    else elim (refusal caller p user) [ some e ↦ raised (refused e) | none ↦ write caller p user b ]

-- the account, the changes that the audit entry carries, and the tables
unfoldable pub update_user :
    User → ℕ → UserUpdate → Book → Outcome UserUpdateError (User × List UserChange × Book)
unfolding update_found
update_user caller user_id p b = update_found caller p (get user_id b.users) b

-- `salt` is what hashing draws
pub change_password : Hasher → ℕ → User → String → String → Book → Option HttpError × Book
change_password hasher salt user current_password new_password b =
    if hasher.verify current_password user.hashed_password
    then (
      none,
      record {
        users = put (record user { hashed_password = hasher.hash salt new_password }) b.users;
        audit = b.audit ++ entry_of user user.id "password changed" true ∷ [];
      },
    )
    else (
      some (record { status = 400; detail = "Current password is incorrect" }),
      record b {
        audit =
            b.audit
            ++ entry_of user user.id "password change rejected: current password incorrect" false
              ∷ [];
      },
    )
