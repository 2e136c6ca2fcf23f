-- ===== src/Access/Accounts.antt =====
-- backend/app/services/auth.py: registration and the checking of credentials. Argon2 is not part of
-- this code: hashing takes the salt that it draws, and enters with verification as an argument.
-- `lower` is `str.lower` and SQL's `lower`.
pub mod Registration
pub mod Credentials
use soc_analyst.Prelude.{
  ℕ, ◌≡◌, Bool, true, false, Option, none, some, String, List, [], ◌∷◌, ◌++◌, Outcome, ok, raised,
  str_eq, if◌then◌else◌,
}
use soc_analyst.Enums.{viewer, AuditAction}
use soc_analyst.Access.Users.{User, AuditEntry, find, put}

-- `PasswordHasher`: a password verifies against each of its own hashes
pub record Hasher : Type 0 where
  pub hash : ℕ → String → String
  pub verify : String → String → Bool
  pub needs_rehash : String → Bool
  pub hash_verifies : (salt : ℕ) (password : String) → verify password (hash salt password) ≡ true

pub record UserCreate : Type 0 where
  pub email : String
  pub username : String
  pub password : String
  pub full_name : Option String

pub data RegistrationError : Type 0 where
  email_already_registered username_taken : RegistrationError

pub record Book : Type 0 where
  pub users : List User
  pub audit : List AuditEntry

module _ (lower : String → String) where
  unfoldable pub get_by_email : List User → String → Option User
  unfolding find
  get_by_email users email = find (λ u. str_eq (lower u.email) (lower email)) users

  unfoldable pub get_by_username : List User → String → Option User
  unfolding find
  get_by_username users username = find (λ u. str_eq (lower u.username) (lower username)) users

  module _ (hasher : Hasher) where
    -- the row that `register` adds; `id` is what the database assigns
    unfoldable pub new_user : ℕ → ℕ → UserCreate → User
    new_user id salt payload = record {
      id = id;
      email = lower payload.email;
      username = payload.username;
      full_name = payload.full_name;
      hashed_password = hasher.hash salt payload.password;
      role = viewer;
      is_active = true;
      last_login_at = none;
    }

    unfoldable pub add_user : User → Book → Book
    add_user u b = record {
      users = b.users ++ u ∷ [];
      audit =
          b.audit
          ++ (record {
            action = AuditAction.create;
            actor_id = some u.id;
            actor_email = some u.email;
            resource_id = some u.id;
            description = "account registered";
            success = true;
          })
            ∷ [];
    }

    unfoldable pub register : ℕ → ℕ → UserCreate → Book → Outcome RegistrationError (User × Book)
    register id salt payload b = elim (get_by_email b.users payload.email) [
      | some _ ↦ raised email_already_registered
      | none ↦ elim (get_by_username b.users payload.username) [
        | some _ ↦ raised username_taken
        | none ↦ ok (new_user id salt payload, add_user (new_user id salt payload) b)
      ]
    ]

  abbrev id_of : Option User → Option ℕ
  id_of none = none
  id_of (some u) = some u.id

  -- `_record_failure`
  unfoldable pub record_failure : String → String → Option User → Book → Book
  record_failure email reason user b = record b {
    audit =
        b.audit
        ++ (record {
          action = AuditAction.login_failed;
          actor_id = id_of user;
          actor_email = some (lower email);
          resource_id = none;
          description = reason;
          success = false;
        })
          ∷ [];
  }

  module _ (hasher : Hasher) where
    -- the hash is upgraded where its parameters are old, and the login is stamped
    unfoldable pub stamp_login : ℕ → ℕ → String → User → User
    stamp_login now salt password u = record u {
      hashed_password =
          if hasher.needs_rehash u.hashed_password
          then hasher.hash salt password
          else u.hashed_password;
      last_login_at = some now;
    }

    unfoldable pub check_user : ℕ → ℕ → String → String → Option User → Book → Option User × Book
    unfolding record_failure stamp_login
    check_user now salt email password none b =
        (none, record_failure email "no such account" none b)
    check_user now salt email password (some u) b =
        if hasher.verify password u.hashed_password
        then if u.is_active
          then (
            some (stamp_login now salt password u),
            record b { users = put (stamp_login now salt password u) b.users },
          )
          else (none, record_failure email "account deactivated" (some u) b)
        else (none, record_failure email "incorrect password" (some u) b)

    unfoldable pub authenticate : ℕ → ℕ → String → String → Book → Option User × Book
    unfolding get_by_email check_user
    authenticate now salt email password b =
        check_user now salt email password (get_by_email b.users email) b
