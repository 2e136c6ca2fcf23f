-- ===== src/Access/Administration/Lockout.antt =====
-- Administrators cannot lock themselves out.
use soc_analyst.Prelude.{
  ℕ, ◌==◌, ==_iff, ◌≡◌, ◌≢◌, refl, ap, sym, ◌∙◌, true, none, some, List, [], ◌∷◌, Outcome, ok,
  raised, Option-cases, Bool-cases, inl, inr, arith,
}
use soc_analyst.Enums.{UserRole, admin}
use soc_analyst.Authz.{has_at_least}
use soc_analyst.Access.Http.{HttpError}
use soc_analyst.Access.Session.{active_user, admit}
use soc_analyst.Access.Session.Admission.{active_user_iff, admit_iff}
use soc_analyst.Access.Users.{User, find, get, put}
use soc_analyst.Access.Accounts.{Book}
use soc_analyst.Access.Administration.{
  UserUpdate, UserUpdateError, UserChange, is_unset, refusal, written_row, write, update_found,
  update_user,
}

get-id : (k : ℕ) (users : List User) (u : User) → get k users ≡ some u → u.id ≡ k
unfolding get find
get-id k [] u h = cc
get-id k (v ∷ users) u h = ground (arith, get-id k users u)

get-put_same :
    (row u : User) (users : List User)
    → get row.id users ≡ some u
    → get row.id (put row users) ≡ some row
unfolding get find put
get-put_same row u [] h = cc
get-put_same row u (v ∷ users) h = ground (arith, get-put_same row u users)

get-put_other :
    (k : ℕ) (row : User) (users : List User) → row.id ≢ k → get k (put row users) ≡ get k users
unfolding get find put
get-put_other k row [] h = refl
get-put_other k row (v ∷ users) h = ground (arith, get-put_other k row users h)

written_row-id : (p : UserUpdate) (u row : User) → written_row p u ≡ some row → row.id ≡ u.id
unfolding written_row
written_row-id p u row h = ground arith

written_row-own :
    (caller u row : User) (p : UserUpdate)
    → refusal caller p u ≡ none
    → u.id ≡ caller.id
    → u.role ≡ admin
    → u.is_active ≡ true
    → written_row p u ≡ some row
    → (row.role ≡ admin) × (row.is_active ≡ true)
unfolding written_row refusal
written_row-own caller u row p h same r a w = ground arith

-- an active administrator is stored under an id
pub record Administers (users : List User) (k : ℕ) : Type 0 where
  pub account : User
  pub stored : get k users ≡ some account
  pub ranked : account.role ≡ admin
  pub active : account.is_active ≡ true

Administers-put :
    (users : List User) (caller u row : User) (p : UserUpdate)
    → get u.id users ≡ some u
    → get caller.id users ≡ some caller
    → caller.role ≡ admin
    → caller.is_active ≡ true
    → refusal caller p u ≡ none
    → written_row p u ≡ some row
    → Administers (put row users) caller.id
Administers-put users caller u row p found own r a h w = elim (Bool-cases (u.id == caller.id)) [
  | inl same ↦
      let e : u.id ≡ caller.id = (==_iff u.id caller.id).0 same in
      let i : row.id ≡ caller.id = written_row-id p u row w ∙ e in
      let uc : u ≡ caller = cc (found, own, e) in
      let kept =
        written_row-own caller u row p h e (ap (λ (x : User). x.role) uc ∙ r)
          (ap (λ (x : User). x.is_active) uc ∙ a) w in
      record {
        account = row;
        stored =
            ap (λ k. get k (put row users)) (sym i)
            ∙ get-put_same row caller users (ap (λ k. get k users) i ∙ own);
        ranked = kept.0;
        active = kept.1;
      }
  | inr other ↦ record {
    account = caller;
    stored = get-put_other caller.id row users (ground (arith, written_row-id p u row w)) ∙ own;
    ranked = r;
    active = a;
  }
]

write-users :
    (caller : User) (p : UserUpdate) (u : User) (b : Book) (v : User) (cs : List UserChange)
    (b' : Book)
    → write caller p u b ≡ ok (v, cs, b')
    → (written_row p u ≡ some v) × (b'.users ≡ put v b.users)
unfolding write
write-users caller p u b v cs b' h = elim (Option-cases (written_row p u)) [
  | inl e ↦ cc (rw (e, write) at h)
  | inr (row, e) ↦ ground (arith, rw (e, write) at h, e)
]

-- A change to an account, the caller's own or another's, leaves the administrator who makes it an
-- active administrator.
pub caller_remains :
    (caller : User) (user_id : ℕ) (p : UserUpdate) (b : Book) (v : User) (cs : List UserChange)
    (b' : Book)
    → get caller.id b.users ≡ some caller
    → caller.role ≡ admin
    → caller.is_active ≡ true
    → update_user caller user_id p b ≡ ok (v, cs, b')
    → Administers b'.users caller.id
unfolding update_user update_found
caller_remains caller user_id p b v cs b' own r a h = elim (Option-cases (get user_id b.users)) [
  | inl e ↦ cc (rw (e, update_user, update_found) at h)
  | inr (u, e) ↦ by_account u e (rw (e, update_user) at h)
]
  where
    unchanged : Administers b.users caller.id
    unchanged = record { account = caller; stored = own; ranked = r; active = a }

    changed :
        (u : User)
        → get u.id b.users ≡ some u
        → refusal caller p u ≡ none
        → (written_row p u ≡ some v) × (b'.users ≡ put v b.users)
        → Administers b'.users caller.id
    changed u e fine w = rw (w.1) (Administers-put b.users caller u v p e own r a fine w.0)

    by_account :
        (u : User)
        → get user_id b.users ≡ some u
        → update_found caller p (some u) b ≡ ok (v, cs, b')
        → Administers b'.users caller.id
    by_account u e k = elim (Bool-cases (is_unset p)) [
      | inl idle ↦
          let same : b'.users ≡ b.users = ground (arith, rw (idle, update_found) at k) in
          rw same unchanged
      | inr busy ↦ elim (Option-cases (refusal caller p u)) [
        | inl fine ↦
            changed u (ap (λ i. get i b.users) (get-id user_id b.users u e) ∙ e) fine
              (write-users caller p u b v cs b' (rw (busy, fine, update_found) at k))
        | inr (x, e') ↦ cc (rw (busy, e', update_found) at k)
      ]
    ]

-- a request to change an account
pub record Request : Type 0 where
  pub caller_id : ℕ
  pub user_id : ℕ
  pub payload : UserUpdate

-- the tables after the endpoint has answered, which are committed only where it did not raise
abbrev committed : Book → Outcome UserUpdateError (User × List UserChange × Book) → Book
committed b (raised e) = b
committed b (ok (u, cs, b')) = b'

abbrev answer_as : ℕ → UserUpdate → Book → Outcome HttpError User → Book
answer_as user_id p b (raised e) = b
answer_as user_id p b (ok caller) = committed b (update_user caller user_id p b)

-- A request is answered where its caller is admitted as an administrator.
pub serve : Request → Book → Book
serve q b =
    answer_as q.user_id q.payload b (admit "admin" admin (active_user (get q.caller_id b.users)))

pub serve_all : List Request → Book → Book
serve_all [] b = b
serve_all (q ∷ qs) b = serve_all qs (serve q b)

only_admin : (r : UserRole) → has_at_least r admin ≡ true → r ≡ admin
unfolding has_at_least
only_admin r h = ground arith

-- someone administers
pub record IsAdministered (users : List User) : Type 0 where
  pub who : ℕ
  pub in_charge : Administers users who

committed-IsAdministered :
    (caller : User) (user_id : ℕ) (p : UserUpdate) (b : Book)
    (o : Outcome UserUpdateError (User × List UserChange × Book))
    → update_user caller user_id p b ≡ o
    → get caller.id b.users ≡ some caller
    → caller.role ≡ admin
    → caller.is_active ≡ true
    → IsAdministered b.users
    → IsAdministered (committed b o).users
committed-IsAdministered caller user_id p b (raised e) h own r a k = k
committed-IsAdministered caller user_id p b (ok (u, cs, b')) h own r a k = record {
  who = caller.id;
  in_charge = caller_remains caller user_id p b u cs b' own r a h;
}

answer_as-IsAdministered :
    (caller_id user_id : ℕ) (p : UserUpdate) (b : Book) (o : Outcome HttpError User)
    → admit "admin" admin (active_user (get caller_id b.users)) ≡ o
    → IsAdministered b.users
    → IsAdministered (answer_as user_id p b o).users
answer_as-IsAdministered caller_id user_id p b (raised e) h k = k
answer_as-IsAdministered caller_id user_id p b (ok caller) h k =
    let (found, ranked) =
      (admit_iff "admin" admin (active_user (get caller_id b.users)) caller).0 h in
    let (stored, active) = (active_user_iff (get caller_id b.users) caller).0 found in
    let own : get caller.id b.users ≡ some caller =
      ap (λ i. get i b.users) (get-id caller_id b.users caller stored) ∙ stored in
    committed-IsAdministered caller user_id p b (update_user caller user_id p b) refl own
      (only_admin caller.role ranked) active k

-- Whatever accounts change whatever accounts in whatever order, if there is an active administrator
-- at first then there is one at the end: no run of requests locks every administrator out.
pub administrator_remains :
    (qs : List Request) (b : Book) → IsAdministered b.users → IsAdministered (serve_all qs b).users
unfolding serve_all serve
administrator_remains [] b k = k
administrator_remains (q ∷ qs) b k =
    administrator_remains qs (serve q b)
      (answer_as-IsAdministered q.caller_id q.user_id q.payload b _ refl k)
