-- ===== src/Examples/Accounts.antt =====
-- Registering and signing in.
use soc_analyst.Prelude.{◌≡◌, ◌↔◌, ◌++◌, refl, true, none, some, String, [], ◌∷◌, ok}
use soc_analyst.Enums.{viewer}
use soc_analyst.Access.Users.{User, find}
use soc_analyst.Access.Accounts.{
  UserCreate, Book, get_by_email, get_by_username, new_user, add_user, register, stamp_login,
  check_user, authenticate,
}
use soc_analyst.Access.Accounts.Registration.{
  email_key, name_key, DistinctBy, register_keeps_distinct,
}
use soc_analyst.Access.Accounts.Credentials.{
  failure_entry, authenticate_iff, authenticate_failure, register-authenticate,
}
use soc_analyst.Examples.{hasher, lower, ada}

abbrev book : Book
book = record { users = ada ∷ []; audit = [] }

abbrev bob : UserCreate
bob = record { email = "bob@example.org"; username = "bob"; password = "pw"; full_name = none }

abbrev lower_lower : (s : String) → lower (lower s) ≡ lower s
lower_lower s = refl

abbrev bob_row : User
bob_row = new_user lower hasher 8 1 bob

registered : register lower hasher 8 1 bob book ≡ ok (bob_row, add_user lower hasher bob_row book)
unfolding register get_by_email get_by_username find
registered = refl

register_keeps_distinct_example :
    (bob_row.role ≡ viewer)
    × (bob_row.is_active ≡ true)
    × ((add_user lower hasher bob_row book).users ≡ book.users ++ bob_row ∷ [])
    × DistinctBy (email_key lower lower_lower hasher) (add_user lower hasher bob_row book).users
    × DistinctBy (name_key lower lower_lower hasher) (add_user lower hasher bob_row book).users
register_keeps_distinct_example =
    register_keeps_distinct lower lower_lower hasher 8 1 bob book
      (add_user lower hasher bob_row book) bob_row (tt, tt) (tt, tt) registered

register-authenticate_example :
    (authenticate lower hasher 50 2 "bob@example.org" "pw" (add_user lower hasher bob_row book)).0
    ≡ some (stamp_login lower hasher 50 2 "pw" bob_row)
register-authenticate_example =
    register-authenticate lower hasher lower_lower 8 1 50 2 bob book
      (add_user lower hasher bob_row book) bob_row "bob@example.org" registered refl

authenticate_iff_example :
    ((authenticate lower hasher 50 2 "ada@example.org" "lovelace" book).0 ≡ some ada) ↔ (
      (u : User) × (get_by_email lower book.users "ada@example.org" ≡ some u)
      × (hasher.verify "lovelace" u.hashed_password ≡ true)
      × (u.is_active ≡ true)
      × (ada ≡ stamp_login lower hasher 50 2 "lovelace" u))
authenticate_iff_example = authenticate_iff lower hasher 50 2 "ada@example.org" "lovelace" book ada

wrong_password : (authenticate lower hasher 50 2 "ada@example.org" "guess" book).0 ≡ none
unfolding authenticate get_by_email check_user find
wrong_password = refl

authenticate_failure_example :
    (reason : String) × (authenticate lower hasher 50 2 "ada@example.org" "guess" book ≡ (
      none,
      record book {
        audit =
            book.audit
            ++ failure_entry lower hasher "ada@example.org" reason
                (get_by_email lower book.users "ada@example.org")
              ∷ [];
      },
    ))
authenticate_failure_example =
    authenticate_failure lower hasher 50 2 "ada@example.org" "guess" book wrong_password
