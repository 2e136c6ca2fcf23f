-- ===== src/Access/Accounts/Credentials.antt =====
-- What checking credentials promises: who gets in, what a failure leaves behind, and that an account
-- that has just registered can sign in.

use soc_analyst.Prelude.{
  ℕ, ◌≡◌, ◌↔◌, refl, ap, sym, ◌∙◌, true, false, Option, none, some, String, [], ◌∷◌, ◌++◌, ok,
  str_eq, eq_iff, Bool-cases, inl, inr, arith,
}
use soc_analyst.Enums.{AuditAction}
use soc_analyst.Access.Users.{User, AuditEntry, find}
use soc_analyst.Access.Accounts.{
  Hasher, UserCreate, Book, get_by_email, new_user, add_user, register, record_failure, stamp_login,
  check_user, authenticate, id_of,
}
use soc_analyst.Access.Accounts.Registration.{register_inversion, find-append}

module _ (lower : String → String) (hasher : Hasher) where
  -- the entry of a failed attempt
  abbrev pub failure_entry : String → String → Option User → AuditEntry
  failure_entry email reason user = record {
    action = AuditAction.login_failed;
    actor_id = id_of lower user;
    actor_email = some (lower email);
    resource_id = none;
    description = reason;
    success = false;
  }

  check_user_ok :
      (now salt : ℕ) (email password : String) (o : Option User) (b : Book) (v : User)
      → ((check_user lower hasher now salt email password o b).0 ≡ some v) ↔ (
          (u : User) × (o ≡ some u)
          × (hasher.verify password u.hashed_password ≡ true)
          × (u.is_active ≡ true)
          × (v ≡ stamp_login lower hasher now salt password u))
  unfolding check_user
  check_user_ok now salt email password none b v = (λ h. cc, λ x. cc (x.1))
  check_user_ok now salt email password (some u) b v = (
    λ h. (u, refl, ground arith, ground arith, ground arith),
    λ x. ground (arith, x.1, x.2, x.3, x.4),
  )

  -- A sign-in succeeds exactly when an account is found for the address, the password verifies
  -- against its hash and it is active; the result is that account, stamped.
  pub authenticate_iff :
      (now salt : ℕ) (email password : String) (b : Book) (v : User)
      → ((authenticate lower hasher now salt email password b).0 ≡ some v) ↔ (
          (u : User) × (get_by_email lower b.users email ≡ some u)
          × (hasher.verify password u.hashed_password ≡ true)
          × (u.is_active ≡ true)
          × (v ≡ stamp_login lower hasher now salt password u))
  unfolding authenticate
  authenticate_iff now salt email password b v =
      check_user_ok now salt email password (get_by_email lower b.users email) b v

  check_user_failure :
      (now salt : ℕ) (email password : String) (o : Option User) (b : Book)
      → (check_user lower hasher now salt email password o b).0 ≡ none
      → (reason : String) × (check_user lower hasher now salt email password o b
          ≡ (none, record b { audit = b.audit ++ failure_entry email reason o ∷ [] }))
  unfolding check_user record_failure
  check_user_failure now salt email password none b h = ("no such account", refl)
  check_user_failure now salt email password (some u) b h =
      elim (Bool-cases (hasher.verify password u.hashed_password)) [
        | inl good ↦ elim (Bool-cases u.is_active) [
          | inl on ↦ cc (rw (good, on, check_user) at h)
          | inr off ↦ ("account deactivated", rw (good, off, check_user) refl)
        ]
        | inr bad ↦ ("incorrect password", rw (bad, check_user) refl)
      ]

  -- A sign-in that fails, for whatever reason, changes no account and leaves exactly one entry, of a
  -- failed login under the address in lower case, with the account where one was found.
  pub authenticate_failure :
      (now salt : ℕ) (email password : String) (b : Book)
      → (authenticate lower hasher now salt email password b).0 ≡ none
      → (reason : String) × (authenticate lower hasher now salt email password b ≡ (
        none,
        record b {
          audit = b.audit ++ failure_entry email reason (get_by_email lower b.users email) ∷ [];
        },
      ))
  unfolding authenticate
  authenticate_failure now salt email password b h =
      check_user_failure now salt email password (get_by_email lower b.users email) b h

  -- An account that has registered signs in with its password, under the address that it gave in any
  -- spelling that `lower` takes to the same text.
  pub register-authenticate :
      (lower_idem : (s : String) → lower (lower s) ≡ lower s) (id salt now salt' : ℕ)
      (payload : UserCreate) (b b' : Book) (u : User) (email : String)
      → register lower hasher id salt payload b ≡ ok (u, b')
      → lower email ≡ lower payload.email
      → (authenticate lower hasher now salt' email payload.password b').0
        ≡ some (stamp_login lower hasher now salt' payload.password u)
  unfolding new_user add_user get_by_email
  register-authenticate lower_idem id salt now salt' payload b b' u email h e =
      let (fe, fn, eu, eb) = register_inversion lower lower_idem hasher id salt payload b b' u h in
      (authenticate_iff now salt' email payload.password b' _).1 (
        u,
        found fe eu eb,
        ap (λ (x : User). hasher.verify payload.password x.hashed_password) eu ∙ hashed,
        ap (λ (x : User). x.is_active) eu ∙ started,
        refl,
      )
    where
      hashed :
          hasher.verify payload.password (new_user lower hasher id salt payload).hashed_password
          ≡ true
      hashed = hasher.hash_verifies salt payload.password

      started : (new_user lower hasher id salt payload).is_active ≡ true
      started = refl

      found :
          get_by_email lower b.users payload.email ≡ none
          → u ≡ new_user lower hasher id salt payload
          → b' ≡ add_user lower hasher u b
          → get_by_email lower b'.users email ≡ some u
      found fe eu eb =
          ap (λ (x : Book). get_by_email lower x.users email) eb
          ∙ find-append (λ v. str_eq (lower v.email) (lower email)) b.users u
              (ap (λ t. find (λ v. str_eq (lower v.email) t) b.users) e ∙ fe)
              ((eq_iff (lower u.email) (lower email)).1
                (ap (λ (x : User). lower x.email) eu ∙ lower_idem payload.email ∙ sym e))
