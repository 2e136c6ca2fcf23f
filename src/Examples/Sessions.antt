-- ===== src/Examples/Sessions.antt =====
-- Signing out and being admitted, on one token.
use soc_analyst.Prelude.{
  ℕ, ◌≡◌, ◌≢◌, ◌↔◌, refl, true, Option, none, some, String, [], ◌∷◌, ok, arith, ltb, if◌then◌else◌,
}
use soc_analyst.Enums.{analyst}
use soc_analyst.Access.Denylist.{revoke, set_key, ttl_of}
use soc_analyst.Access.Session.{
  Payload, TokenClaims, payload_of, get_token_claims, decode_access_token, is_access, claimed_role,
  read_claims, role_of, role_value, authorize,
}
use soc_analyst.Access.Session.Admission.{Admitted, authorize_iff, revoked_token_refused}
use soc_analyst.Examples.{memory, Memory, blank, ada}

abbrev parse_uuid : String → Option ℕ
parse_uuid s = some 7

abbrev str_uuid : ℕ → String
str_uuid n = "7"

-- a token from time 10, valid for 90
abbrev jwt_decode : ℕ → String → Option Payload
jwt_decode now token = if ltb now 100 then some (payload_of str_uuid 10 7 analyst 90 "j1") else none

abbrev claims : TokenClaims
claims = record { user_id = 7; role = analyst; jti = "j1"; expires_at = 100 }

abbrev after_logout : Memory
after_logout = (revoke memory true 20 "j1" 100 blank).1

authorize_iff_example :
    (authorize parse_uuid jwt_decode memory true 20 blank (ada ∷ []) "analyst" analyst (some "t")
      ≡ ok ada)
    ↔ Admitted parse_uuid jwt_decode memory true 20 blank (ada ∷ []) analyst (some "t") ada
authorize_iff_example =
    authorize_iff parse_uuid jwt_decode memory true 20 blank (ada ∷ []) "analyst" analyst (some "t")
      ada

token_valid : get_token_claims parse_uuid jwt_decode 30 (some "t") ≡ ok claims
unfolding get_token_claims decode_access_token is_access read_claims claimed_role role_of role_value
    payload_of
token_valid = refl

logout_done : (revoke memory true 20 "j1" 100 blank).0 ≡ true
unfolding revoke set_key ttl_of
logout_done = refl

revoked_token_refused_example :
    authorize parse_uuid jwt_decode memory true 30 after_logout
      (ada ∷ [])
      "analyst"
      analyst
      (some "t")
    ≢ ok ada
revoked_token_refused_example =
    revoked_token_refused parse_uuid jwt_decode memory true 20 30 blank after_logout (ada ∷ [])
      "analyst" analyst (some "t") claims ada refl token_valid (omega arith) (omega arith)
      logout_done (λ until held. held)
