-- ===== src/Examples/Roles.antt =====
-- Roles, an administrator's requests, and guessing a password.
use soc_analyst.Prelude.{
  str_eq, if◌then◌else◌, ◌-◌, ◌≤◌, ◌≡◌, refl, true, none, some, String, List, [], ◌∷◌, ok,
}
use soc_analyst.Enums.{admin, viewer}
use soc_analyst.Access.Users.{User, find, get, put}
use soc_analyst.Access.Accounts.{Book}
use soc_analyst.Access.Administration.{
  UserUpdate, is_unset, refusal, written_row, set_required, set_nullable, write, update_found,
  update_user, changes_of, entry_of,
}
use soc_analyst.Access.Administration.Lockout.{
  IsAdministered, Request, serve_all, administrator_remains,
}
use soc_analyst.Access.Login.{Limits, Strings}
use soc_analyst.Access.Login.Answers.{Attempt, guesses, counter_of, guesses_bounded}
use soc_analyst.Examples.{memory, blank, hasher, ada}
use soc_analyst.Examples.Limits.{memory-IsReliable}

abbrev root : User
root = record ada { id = 1; role = admin }

abbrev book : Book
book = record { users = root ∷ ada ∷ []; audit = [] }

abbrev demotion : UserUpdate
demotion = record { role = some (some viewer); is_active = none; full_name = none }

abbrev demoted : User
demoted = record ada { role = viewer }

abbrev after : Book
after = record {
  users = root ∷ demoted ∷ [];
  audit = entry_of root 7 "account updated by administrator" true ∷ [];
}

update_user-ada : update_user root 7 demotion book ≡ ok (demoted, changes_of demotion ada, after)
unfolding update_user update_found write refusal is_unset written_row set_required set_nullable get
    find put
update_user-ada = refl

root_stored : get 1 book.users ≡ some root
unfolding get find
root_stored = refl

root_in_charge : IsAdministered book.users
root_in_charge = record {
  who = 1;
  in_charge = record { account = root; stored = root_stored; ranked = refl; active = refl };
}

-- the administrator demotes another, and tries to demote itself
abbrev requests : List Request
requests =
    (record { caller_id = 1; user_id = 7; payload = demotion })
    ∷ (record { caller_id = 1; user_id = 1; payload = demotion })
    ∷ []

administrator_remains_example : IsAdministered (serve_all requests book).users
administrator_remains_example = administrator_remains requests book root_in_charge

abbrev limits : Limits
limits = record {
  rate_limit_enabled = true;
  login_attempts = 2;
  login_window = 60;
  register_attempts = 5;
  register_window = 60;
}

-- two spellings of one address
abbrev strings : Strings
strings = record {
  lower = λ s. if str_eq s "Ada@example.org" then "ada@example.org" else s;
  strip = λ s. s;
  hexdigest = λ s. s;
}

abbrev try_from : String → String → String → Attempt
try_from caller email password = record {
  now = 5;
  salt = 1;
  caller = caller;
  email = email;
  password = password;
}

abbrev attempts : List Attempt
attempts =
    try_from "a" "ada@example.org" "a"
    ∷ try_from "b" "Ada@example.org" "b"
    ∷ try_from "c" "ada@example.org" "c"
    ∷ []

guesses_bounded_example :
    guesses memory strings hasher limits attempts book blank
    ≤ 2 - blank.counters (counter_of memory strings hasher "ada@example.org")
guesses_bounded_example =
    guesses_bounded memory strings hasher limits "ada@example.org" attempts book blank
      memory-IsReliable refl (refl, (refl, (refl, tt)))
