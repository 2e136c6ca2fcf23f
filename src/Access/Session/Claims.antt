-- ===== src/Access/Session/Claims.antt =====
-- What a bearer token must be for its claims to be read, and what the denylist must answer.
use soc_analyst.Prelude.{
  ℕ, ◌≤◌, ◌≡◌, ◌≢◌, ◌↔◌, ◌⊎◌, refl, Bool-cases, Option-cases, eq_iff, ap, ◌∙◌, Bool, true, false,
  Option, none, some, String, ok, Outcome-cases, inl, inr, arith,
}
use soc_analyst.Enums.{UserRole}
use soc_analyst.Authz.{has_at_least, rank}
use soc_analyst.Redis.{Redis}
use soc_analyst.Access.Denylist.{is_revoked, key_of}
use soc_analyst.Access.Session.{
  Payload, TokenClaims, role_of, is_access, claimed_role, read_claims, decode_access_token,
  get_token_claims,
}

role_of_named :
    (r : String) → (role_of r ≡ none) ⊎ ((r ≡ "admin") ⊎ ((r ≡ "analyst") ⊎ (r ≡ "viewer")))
unfolding role_of
role_of_named r = ground (arith, eq_iff r "admin", eq_iff r "analyst", eq_iff r "viewer")

role_of_known : (r : String) → (r ≡ "admin") ⊎ ((r ≡ "analyst") ⊎ (r ≡ "viewer")) → role_of r ≢ none
unfolding role_of
role_of_known r h e = ground (arith, eq_iff r "admin", eq_iff r "analyst", eq_iff r "viewer")

pub has_at_least_iff : (a b : UserRole) → (has_at_least a b ≡ true) ↔ (rank b ≤ rank a)
unfolding has_at_least
has_at_least_iff a b = ground arith

is_access_iff : (o : Option String) → (is_access o ≡ true) ↔ (o ≡ some "access")
unfolding is_access
is_access_iff none = ground arith
is_access_iff (some t) = ground (arith, eq_iff t "access")

module _ (redis : Redis) (denylist_enabled : Bool) where
  open redis use {Server, exists}

  pub not_revoked_iff :
      (now : ℕ) (jti : String) (server : Server)
      → (is_revoked redis denylist_enabled now jti server ≡ ok false)
        ↔ (denylist_enabled ≡ true → exists now (key_of jti) server ≡ some false)
  unfolding is_revoked
  not_revoked_iff now jti server = elim (Bool-cases denylist_enabled) [
    | inl on ↦ elim (Option-cases (exists now (key_of jti) server)) [
      | inl e ↦ rw (on, e, is_revoked) (λ h. cc, λ h. cc (h refl))
      | inr (b, e) ↦ rw (on, e, is_revoked) (λ h _. cc, λ h. cc (h refl))
    ]
    | inr off ↦ rw (off, is_revoked) (λ h k. cc, λ h. refl)
  ]

abbrev pub IsRoleName : String → Type 0
IsRoleName r = (r ≡ "admin") ⊎ ((r ≡ "analyst") ⊎ (r ≡ "viewer"))

abbrev pub Names : Option String → Type 0
Names o = (r : String) × (o ≡ some r) × IsRoleName r

claimed_role_named : (o : Option String) (role : UserRole) → claimed_role o ≡ some role → Names o
unfolding claimed_role
claimed_role_named none role h = absurd (cc)
claimed_role_named (some r) role h = elim (role_of_named r) [
  | inl e ↦ absurd (cc)
  | inr n ↦ (r, refl, n)
]

claimed_role_known : (o : Option String) → Names o → claimed_role o ≢ none
unfolding claimed_role
claimed_role_known o (r, e, n) h = role_of_known r n (rw e at h)

module _ (parse_uuid : String → Option ℕ) where
  read_claims_from :
      (p : Payload) (claims : TokenClaims)
      → read_claims parse_uuid p ≡ ok claims
      → (parse_uuid p.sub ≡ some claims.user_id) × Names p.role × (claims.jti ≡ p.jti)
  unfolding read_claims
  read_claims_from p claims h = elim (Option-cases (parse_uuid p.sub)) [
    | inl e ↦ absurd (cc (rw (e, read_claims) at h))
    | inr (id, e) ↦ elim (Option-cases (claimed_role p.role)) [
      | inl q ↦ absurd (cc (rw (e, q, read_claims) at h))
      | inr (role, q) ↦
          let g = rw (e, q, read_claims) at h in
          (ground (arith, e, g), claimed_role_named p.role role q, ground (arith, g))
    ]
  ]

  read_claims_to :
      (p : Payload) (id : ℕ)
      → parse_uuid p.sub ≡ some id
      → Names p.role
      → (claims : TokenClaims) × (read_claims parse_uuid p ≡ ok claims)
        × (claims.user_id ≡ id)
        × (claims.jti ≡ p.jti)
  unfolding read_claims
  read_claims_to p id e n = elim (Option-cases (claimed_role p.role)) [
    | inl q ↦ absurd (claimed_role_known p.role n q)
    | inr (role, q) ↦ (
      record { user_id = id; role = role; jti = p.jti; expires_at = p.exp },
      rw (e, q, read_claims) refl,
      refl,
      refl,
    )
  ]

module _ (parse_uuid : String → Option ℕ) (jwt_decode : ℕ → String → Option Payload) where
  -- what claims are read from
  pub token_claims_from :
      (now : ℕ) (token : Option String) (claims : TokenClaims)
      → get_token_claims parse_uuid jwt_decode now token ≡ ok claims
      → (bearer : String) × (p : Payload) × (token ≡ some bearer)
        × (jwt_decode now bearer ≡ some p)
        × (p.typ ≡ some "access")
        × (parse_uuid p.sub ≡ some claims.user_id)
        × Names p.role
        × (claims.jti ≡ p.jti)
  unfolding get_token_claims decode_access_token
  token_claims_from now none claims h = absurd (ground arith)
  token_claims_from now (some bearer) claims h = elim (Option-cases (jwt_decode now bearer)) [
    | inl e ↦ absurd (cc (rw (e, get_token_claims) at h))
    | inr (p, e) ↦ elim (Bool-cases (is_access p.typ)) [
      | inr other ↦ absurd (cc (rw (e, other, get_token_claims) at h))
      | inl a ↦ elim (Outcome-cases (read_claims parse_uuid p)) [
        | inl (x, q) ↦ absurd (cc (rw (e, a, q, get_token_claims) at h))
        | inr (c, q) ↦
            let same : c ≡ claims = cc (rw (e, a, q, get_token_claims) at h) in
            let (subject, role, jti) = read_claims_from parse_uuid p claims (q ∙ ap ok same) in
            (bearer, p, refl, e, (is_access_iff p.typ).0 a, subject, role, jti)
      ]
    ]
  ]

  pub token_claims_to :
      (now : ℕ) (token : Option String) (bearer : String) (p : Payload) (id : ℕ)
      → token ≡ some bearer
      → jwt_decode now bearer ≡ some p
      → p.typ ≡ some "access"
      → parse_uuid p.sub ≡ some id
      → Names p.role
      → (claims : TokenClaims) × (get_token_claims parse_uuid jwt_decode now token ≡ ok claims)
        × (claims.user_id ≡ id)
        × (claims.jti ≡ p.jti)
  unfolding get_token_claims decode_access_token
  token_claims_to now token bearer p id t e a s n =
      let (claims, q, same, jti) = read_claims_to parse_uuid p id s n in
      (claims, rw t (rw (e, (is_access_iff p.typ).1 a, get_token_claims) (rw q refl)), same, jti)
