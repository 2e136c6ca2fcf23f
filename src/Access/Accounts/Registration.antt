-- ===== src/Access/Accounts/Registration.antt =====
-- What registering promises: one account for an address and for a name, and no privilege.

use soc_analyst.Prelude.{
  ℕ, ◌≡◌, refl, ap, sym, ◌∙◌, Bool, true, false, none, some, String, List, [], ◌∷◌, ◌++◌, ok,
  str_eq, eq_iff, All, All-append, Bool-cases, inl, inr, arith,
}
use soc_analyst.Enums.{viewer}
use soc_analyst.Access.Users.{User, find}
use soc_analyst.Access.Accounts.{
  Hasher, UserCreate, Book, get_by_email, get_by_username, new_user, add_user, register,
}

pub find-none :
    (p : User → Bool) (users : List User) → find p users ≡ none → All (λ u. p u ≡ false) users
unfolding find
find-none p [] h = tt
find-none p (u ∷ users) h = elim (Bool-cases (p u)) [
  | inl e ↦ cc (rw (e, find) at h)
  | inr e ↦ (e, find-none p users (rw (e, find) at h))
]

pub find-append :
    (p : User → Bool) (users : List User) (u : User)
    → find p users ≡ none
    → p u ≡ true
    → find p (users ++ u ∷ []) ≡ some u
unfolding find
find-append p [] u h k = rw k refl
find-append p (v ∷ users) u h k = elim (Bool-cases (p v)) [
  | inl e ↦ cc (rw (e, find) at h)
  | inr e ↦ rw (e, find) (find-append p users u (rw (e, find) at h) k)
]

module _ (key : User → String) where
  -- No two rows share a key.
  abbrev pub DistinctBy : List User → Type 0
  DistinctBy [] = Unit
  DistinctBy (u ∷ users) = All (λ v. str_eq (key v) (key u) ≡ false) users × DistinctBy users

  DistinctBy-snoc :
      (users : List User) (u : User)
      → All (λ v. str_eq (key v) (key u) ≡ false) users
      → DistinctBy users
      → DistinctBy (users ++ u ∷ [])
  DistinctBy-snoc [] u h d = (tt, tt)
  DistinctBy-snoc (v ∷ users) u h d = (
    All-append (λ w. str_eq (key w) (key v) ≡ false) users (u ∷ []) d.0
        (ground (arith, h.0, eq_iff (key v) (key u), eq_iff (key u) (key v)), tt),
    DistinctBy-snoc users u h.1 d.1,
  )

module _ (lower : String → String) (lower_idem : (s : String) → lower (lower s) ≡ lower s)
    (hasher : Hasher) where
  abbrev pub email_key : User → String
  email_key u = lower u.email

  abbrev pub name_key : User → String
  name_key u = lower u.username

  pub register_inversion :
      (id salt : ℕ) (payload : UserCreate) (b b' : Book) (u : User)
      → register lower hasher id salt payload b ≡ ok (u, b')
      → (get_by_email lower b.users payload.email ≡ none)
        × (get_by_username lower b.users payload.username ≡ none)
        × (u ≡ new_user lower hasher id salt payload)
        × (b' ≡ add_user lower hasher u b)
  unfolding register
  register_inversion id salt payload b b' u h = ground arith

  new_email :
      (id salt : ℕ) (payload : UserCreate)
      → email_key (new_user lower hasher id salt payload) ≡ lower payload.email
  unfolding new_user
  new_email id salt payload = lower_idem payload.email

  -- An account that registers is a viewer and active, whatever it sent; its row is put behind the
  -- others, which stay as they are; and where no two accounts shared an address or a name, regardless
  -- of case, none do after it.
  pub register_keeps_distinct :
      (id salt : ℕ) (payload : UserCreate) (b b' : Book) (u : User)
      → DistinctBy email_key b.users
      → DistinctBy name_key b.users
      → register lower hasher id salt payload b ≡ ok (u, b')
      → (u.role ≡ viewer)
        × (u.is_active ≡ true)
        × (b'.users ≡ b.users ++ u ∷ [])
        × DistinctBy email_key b'.users
        × DistinctBy name_key b'.users
  unfolding add_user new_user
  register_keeps_distinct id salt payload b b' u de dn h =
      let (fe, fn, eu, eb) = register_inversion id salt payload b b' u h in
      let rows : b'.users ≡ b.users ++ u ∷ [] = ap (λ (x : Book). x.users) eb in
      let n : User = new_user lower hasher id salt payload in
      let ke : lower payload.email ≡ email_key u =
        sym (new_email id salt payload) ∙ ap email_key (sym eu) in
      let kn : lower payload.username ≡ name_key u = ap name_key (sym eu) in
      (
        ap (λ (x : User). x.role) eu,
        ap (λ (x : User). x.is_active) eu,
        rows,
        rw rows (
            DistinctBy-snoc email_key b.users u
              (rw ke at (
                find-none (λ v. str_eq (lower v.email) (lower payload.email)) b.users
                  (unfold get_by_email in fe)))
              de),
        rw rows (
            DistinctBy-snoc name_key b.users u
              (rw kn at (
                find-none (λ v. str_eq (lower v.username) (lower payload.username)) b.users
                  (unfold get_by_username in fn)))
              dn),
      )
