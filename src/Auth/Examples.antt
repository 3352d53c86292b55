-- ===== src/Auth/Examples.antt =====
-- Tokens that are exchanged (internal/core/auth/auth.go).
use eve_industry_planner_sta.Prelude.{
  String, ◌≡◌, refl, arith, if◌then◌else◌, str_eq, Bool, true, [], ◌∷◌, Option, none, some,
}
use eve_industry_planner_sta.Prelude.Int.{pos}
use eve_industry_planner_sta.Auth.{
  Authenticator, UserClaims, ExternalClaims, Jwt, ok, check_claims, has_audience, external_key_func,
  check_parsed, validate_external_token, user_claims, sign, issue, exchange_token,
}
use eve_industry_planner_sta.Auth.Issued.{Issued, exchange_token-Issued}
use eve_industry_planner_sta.Auth.Accepted.{Judged, validate_external_token-Judged}

abbrev pilot : ExternalClaims
pilot = record {
  subject = "42";
  name = "Pilot";
  email = "";
  issuer = "sso";
  audience = "planner" ∷ [];
}

-- A library for tokens of the pilot that are signed with the key "k".
signed_by_k : Option String → Option (ExternalClaims × Bool)
signed_by_k none = none
signed_by_k (some key) = if str_eq key "k" then some (pilot, true) else none

signed_by_k-key :
    (given : Option String) (parsed : ExternalClaims × Bool)
    → signed_by_k given ≡ some parsed
    → (key : String) × (given ≡ some key) × (str_eq key "k" ≡ true)
unfolding signed_by_k
signed_by_k-key none parsed h = absurd (ground (arith, h))
signed_by_k-key (some key) parsed h = (key, refl, ground (arith, h))

abbrev pilot_tokens : Jwt
pilot_tokens = record {
  is_hmac = λ token. true;
  Verified = λ key token. str_eq key "k" ≡ true;
  parse_with_claims = λ token key_func. signed_by_k (key_func true);
  numeric_date = λ at. at;
  signed_string = λ claims key. some claims.user_id;
  parse_with_claims-Verified = λ token key_func. signed_by_k-key (key_func true);
}

abbrev sso : Authenticator
sso = record {
  signing_key = "s";
  external_key = "k";
  expected_issuer = "sso";
  expected_audience = "planner";
}

validate_external_token-Judged_example :
    Judged sso
      (signed_by_k (external_key_func sso true))
      (validate_external_token pilot_tokens sso "token")
validate_external_token-Judged_example = validate_external_token-Judged pilot_tokens sso "token"

abbrev exchanged : UserClaims
exchanged = user_claims pilot_tokens pilot (pos 10) (pos 5)

issued : exchange_token pilot_tokens sso "token" (pos 10) (pos 5) ≡ ok ("42", exchanged)
unfolding exchange_token validate_external_token check_parsed external_key_func signed_by_k
    check_claims has_audience issue sign user_claims
issued = refl

exchange_token-Issued_example : Issued pilot_tokens sso "token" (pos 10) (pos 5) "42" exchanged
exchange_token-Issued_example =
    exchange_token-Issued pilot_tokens sso "token" (pos 10) (pos 5) "42" exchanged issued
