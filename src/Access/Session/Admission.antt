-- ===== src/Access/Session/Admission.antt =====
-- Who is admitted to an endpoint, and who is not.

use soc_analyst.Prelude.{
  ℕ, ◌<◌, ◌≤◌, ◌≡◌, ◌≢◌, ◌↔◌, ◌⊎◌, ap, sym, ◌∙◌, Bool, true, false, Option, none, some, String,
  List, Outcome, ok, raised, Outcome-cases, inl, inr, arith,
}
use soc_analyst.Enums.{UserRole}
use soc_analyst.Authz.{has_at_least, rank}
use soc_analyst.Redis.{Redis}
use soc_analyst.Access.Http.{HttpError}
use soc_analyst.Access.Users.{User, get}
use soc_analyst.Access.Denylist.{is_revoked, revoke, key_of, revoke-Held, is_revoked_held}
use soc_analyst.Access.Session.Claims.{
  has_at_least_iff, not_revoked_iff, token_claims_from, token_claims_to,
}
use soc_analyst.Access.Session.{
  Payload, TokenClaims, get_token_claims, active_user, get_current_user, require_role, admit,
  authorize,
}

pub active_user_iff :
    (o : Option User) (u : User) → (active_user o ≡ ok u) ↔ ((o ≡ some u) × (u.is_active ≡ true))
unfolding active_user
active_user_iff none u = ground arith
active_user_iff (some v) u = ground arith

require_role_iff :
    (detail : String) (minimum : UserRole) (u v : User)
    → (require_role detail minimum u ≡ ok v) ↔ ((u ≡ v) × (has_at_least v.role minimum ≡ true))
unfolding require_role
require_role_iff detail minimum u v = ground arith

pub admit_iff :
    (detail : String) (minimum : UserRole) (o : Outcome HttpError User) (u : User)
    → (admit detail minimum o ≡ ok u) ↔ ((o ≡ ok u) × (has_at_least u.role minimum ≡ true))
unfolding admit
admit_iff detail minimum (raised e) u = ground arith
admit_iff detail minimum (ok v) u = ground arith

module _ (redis : Redis) (denylist_enabled : Bool) where
  open redis use {Server}

  pub get_current_user_iff :
      (now : ℕ) (server : Server) (users : List User) (claims : TokenClaims) (u : User)
      → (get_current_user redis denylist_enabled now server users claims ≡ ok u) ↔ (
          (is_revoked redis denylist_enabled now claims.jti server ≡ ok false)
          × (get claims.user_id users ≡ some u)
          × (u.is_active ≡ true))
  unfolding get_current_user
  get_current_user_iff now server users claims u =
      ground (arith, active_user_iff (get claims.user_id users) u)

module _ (parse_uuid : String → Option ℕ) (jwt_decode : ℕ → String → Option Payload) (redis : Redis)
    (denylist_enabled : Bool) where
  open redis use {Server, Held, exists}

  -- What the endpoint and its dependencies have found out when they admit a user.
  record Passed (now : ℕ) (server : Server) (users : List User) (minimum : UserRole)
      (token : Option String) (u : User) : Type 0 where
    pub claims : TokenClaims
    pub valid : get_token_claims parse_uuid jwt_decode now token ≡ ok claims
    pub not_revoked : is_revoked redis denylist_enabled now claims.jti server ≡ ok false
    pub stored : get claims.user_id users ≡ some u
    pub active : u.is_active ≡ true
    pub ranked : has_at_least u.role minimum ≡ true

  authorize-Passed :
      (now : ℕ) (server : Server) (users : List User) (detail : String) (minimum : UserRole)
      (token : Option String) (u : User)
      → (authorize parse_uuid jwt_decode redis denylist_enabled now server users detail minimum
            token
          ≡ ok u)
        ↔ Passed now server users minimum token u
  unfolding authorize
  authorize-Passed now server users detail minimum token u = (to, from)
    where
      known :
          (claims : TokenClaims)
          → get_token_claims parse_uuid jwt_decode now token ≡ ok claims
          → admit detail minimum (get_current_user redis denylist_enabled now server users claims)
            ≡ ok u
          → Passed now server users minimum token u
      known claims f h =
          let a = (admit_iff detail minimum _ u).0 h in
          let g = (get_current_user_iff redis denylist_enabled now server users claims u).0 a.0 in
          record {
            claims = claims;
            valid = f;
            not_revoked = g.0;
            stored = g.1;
            active = g.2;
            ranked = a.1;
          }

      to :
          authorize parse_uuid jwt_decode redis denylist_enabled now server users detail minimum
              token
            ≡ ok u
          → Passed now server users minimum token u
      to h = elim (Outcome-cases (get_token_claims parse_uuid jwt_decode now token)) [
        | inl (e, f) ↦ cc (rw (f, authorize) at h)
        | inr (claims, f) ↦ known claims f (rw (f, authorize) at h)
      ]

      from :
          Passed now server users minimum token u
          → authorize parse_uuid jwt_decode redis denylist_enabled now server users detail minimum
              token
            ≡ ok u
      from a =
          rw (a.valid, authorize)
            ((admit_iff detail minimum _ u).1 (
              (get_current_user_iff redis denylist_enabled now server users a.claims u).1
                  (a.not_revoked, a.stored, a.active),
              a.ranked,
            ))

  -- What it takes to be admitted as a user.
  pub record Admitted (now : ℕ) (server : Server) (users : List User) (minimum : UserRole)
      (token : Option String) (u : User) : Type 0 where
    pub bearer : String
    pub payload : Payload
    pub user_id : ℕ
    pub presented : token ≡ some bearer
    pub decoded : jwt_decode now bearer ≡ some payload
    pub access : payload.typ ≡ some "access"
    pub subject : parse_uuid payload.sub ≡ some user_id
    pub role_named :
        (r : String) × (payload.role ≡ some r)
        × ((r ≡ "admin") ⊎ ((r ≡ "analyst") ⊎ (r ≡ "viewer")))
    pub not_revoked : denylist_enabled ≡ true → exists now (key_of payload.jti) server ≡ some false
    pub stored : get user_id users ≡ some u
    pub active : u.is_active ≡ true
    pub ranked : rank minimum ≤ rank u.role

  -- A request is let through as a user exactly when it presents a token that decodes to an access
  -- token whose subject is an id and whose role is one of the three, the denylist, if it is enabled,
  -- answers that it does not hold the token, and the account of that id is stored and active and its
  -- stored role, whatever role the token carries, ranks at least as high as the endpoint asks.
  pub authorize_iff :
      (now : ℕ) (server : Server) (users : List User) (detail : String) (minimum : UserRole)
      (token : Option String) (u : User)
      → (authorize parse_uuid jwt_decode redis denylist_enabled now server users detail minimum
            token
          ≡ ok u)
        ↔ Admitted now server users minimum token u
  authorize_iff now server users detail minimum token u = (to, from)
    where
      to :
          authorize parse_uuid jwt_decode redis denylist_enabled now server users detail minimum
              token
            ≡ ok u
          → Admitted now server users minimum token u
      to h =
          let a = (authorize-Passed now server users detail minimum token u).0 h in
          let (bearer, p, presented, decoded, access, subject, role_named, jti) =
            token_claims_from parse_uuid jwt_decode now token a.claims a.valid in
          record {
            bearer = bearer;
            payload = p;
            user_id = a.claims.user_id;
            presented = presented;
            decoded = decoded;
            access = access;
            subject = subject;
            role_named = role_named;
            not_revoked = (not_revoked_iff redis denylist_enabled now p.jti server).0 (
                ap (λ j. is_revoked redis denylist_enabled now j server) (sym jti) ∙ a.not_revoked);
            stored = a.stored;
            active = a.active;
            ranked = (has_at_least_iff u.role minimum).0 a.ranked;
          }

      from :
          Admitted now server users minimum token u
          → authorize parse_uuid jwt_decode redis denylist_enabled now server users detail minimum
              token
            ≡ ok u
      from a =
          let (claims, valid, id, jti) =
            token_claims_to parse_uuid jwt_decode now token a.bearer a.payload a.user_id a.presented
              a.decoded a.access a.subject a.role_named in
          (authorize-Passed now server users detail minimum token u).1 (record {
            claims = claims;
            valid = valid;
            not_revoked =
                ap (λ j. is_revoked redis denylist_enabled now j server) jti
                ∙ (not_revoked_iff redis denylist_enabled now a.payload.jti server).1 a.not_revoked;
            stored = ap (λ k. get k users) id ∙ a.stored;
            active = a.active;
            ranked = (has_at_least_iff u.role minimum).1 a.ranked;
          })

  -- Once signing out has put a token on the denylist, no later request with that token is let
  -- through before it expires, on any server state that still holds the entry, whether the denylist
  -- answers or not.
  pub revoked_token_refused :
      (now later : ℕ) (server server' : Server) (users : List User) (detail : String)
      (minimum : UserRole) (token : Option String) (claims : TokenClaims) (u : User)
      → denylist_enabled ≡ true
      → get_token_claims parse_uuid jwt_decode later token ≡ ok claims
      → now < claims.expires_at
      → later < claims.expires_at
      → (revoke redis denylist_enabled now claims.jti claims.expires_at server).0 ≡ true
      → ((until : ℕ)
          → Held
              (key_of claims.jti)
              until
              (revoke redis denylist_enabled now claims.jti claims.expires_at server).1
          → Held (key_of claims.jti) until server')
      → authorize parse_uuid jwt_decode redis denylist_enabled later server' users detail minimum
          token
        ≢ ok u
  revoked_token_refused now later server server' users detail minimum token claims u on valid live
        late done keeps h =
      let (until, long, held) =
        revoke-Held redis denylist_enabled now claims.jti claims.expires_at server live done in
      let a = (authorize-Passed later server' users detail minimum token u).0 h in
      let same : a.claims ≡ claims = cc (a.valid, valid) in
      is_revoked_held redis denylist_enabled later until claims.jti server' on (keeps until held)
        (omega arith)
        (ap (λ (c : TokenClaims). is_revoked redis denylist_enabled later c.jti server') (sym same)
          ∙ a.not_revoked)
