-- ===== src/Auth/Accepted.antt =====
-- Which settings are taken and which tokens are accepted (internal/core/auth/auth.go,
-- internal/core/config/config.go).
use eve_industry_planner_sta.Prelude.{
  String, ◌≡◌, ◌≢◌, refl, arith, Bool, true, false, List, [], ◌∷◌, Option, none, some, Bool-cases,
  inl, inr, not, ◌&&◌, if◌then◌else◌, str_eq, eq_iff,
}
use eve_industry_planner_sta.Auth.{
  get_env, load_config, Authenticator, new_authenticator, ExternalClaims, Jwt, parse_failed,
  invalid_token, unexpected_issuer, unexpected_audience, Result, failed, ok, has_audience,
  check_claims, external_key_func, check_parsed, validate_external_token,
}

get_env-kept :
    (env : String → String) (key fallback : String) → fallback ≢ "" → get_env env key fallback ≢ ""
unfolding get_env
get_env-kept env key fallback h e = elim (Bool-cases (str_eq (env key) "")) [
  | inl unset ↦ h (rw (unset, get_env) at e)
  | inr there ↦ ground (arith, there, eq_iff (env key) "", rw (there, get_env) at e)
]

-- Whatever the environment holds, neither of the two keys that tokens are checked and signed with is
-- empty.
pub new_authenticator-keys :
    (env : String → String)
    → ((new_authenticator (load_config env)).signing_key ≢ "")
      × ((new_authenticator (load_config env)).external_key ≢ "")
unfolding new_authenticator load_config
new_authenticator-keys env = (
  get_env-kept env "AUTH_SECRET" "dev-secret-change"
      (λ e. ground (arith, e, eq_iff "dev-secret-change" "")),
  get_env-kept env "EXTERNAL_JWT_SECRET" "dev-external-secret"
      (λ e. ground (arith, e, eq_iff "dev-external-secret" "")),
)

-- One of the audiences of a token.
pub data Among (expected : String) : List String → Type 0 where
  first : {aud : String} {rest : List String} → aud ≡ expected → Among expected (aud ∷ rest)
  further : {aud : String} {rest : List String} → Among expected rest → Among expected (aud ∷ rest)

has_audience-Among :
    (expected : String) (auds : List String)
    → has_audience expected auds ≡ true
    → Among expected auds
unfolding has_audience
has_audience-Among expected [] h = absurd (ground (arith, h))
has_audience-Among expected (aud ∷ rest) h = elim (Bool-cases (str_eq aud expected)) [
  | inl same ↦ first (ground (arith, same, eq_iff aud expected))
  | inr differs ↦ further (has_audience-Among expected rest (ground (arith, differs, h)))
]

Among-has_audience :
    (expected : String) {auds : List String}
    → Among expected auds
    → has_audience expected auds ≡ true
unfolding has_audience
Among-has_audience expected (first {aud} {rest} e) = ground (arith, e, eq_iff aud expected)
Among-has_audience expected (further {aud} {rest} later) =
    ground (arith, Among-has_audience expected later)

-- The claims fit what is configured: an expectation that is empty is none.
pub record Expected (a : Authenticator) (claims : ExternalClaims) : Type 0 where
  pub issuer : a.expected_issuer ≢ "" → claims.issuer ≡ a.expected_issuer
  pub audience : a.expected_audience ≢ "" → Among a.expected_audience claims.audience

-- What may come of a token that parses, or not.
pub data Judged (a : Authenticator) (parsed : Option (ExternalClaims × Bool))
    : Result ExternalClaims → Type 0 where
  unparsed : parsed ≡ none → Judged a parsed (failed parse_failed)
  not_valid :
      (claims : ExternalClaims)
      → parsed ≡ some (claims, false)
      → Judged a parsed (failed invalid_token)
  wrong_issuer :
      (claims : ExternalClaims)
      → parsed ≡ some (claims, true)
      → a.expected_issuer ≢ ""
      → claims.issuer ≢ a.expected_issuer
      → Judged a parsed (failed unexpected_issuer)
  wrong_audience :
      (claims : ExternalClaims)
      → parsed ≡ some (claims, true)
      → a.expected_audience ≢ ""
      → (Among a.expected_audience claims.audience → ⊥)
      → Judged a parsed (failed unexpected_audience)
  accepted :
      (claims : ExternalClaims)
      → parsed ≡ some (claims, true)
      → Expected a claims
      → Judged a parsed (ok claims)

check_claims-Judged :
    (a : Authenticator) (claims : ExternalClaims)
    → Judged a (some (claims, true)) (check_claims a claims)
unfolding check_claims
check_claims-Judged a claims = elim (Bool-cases (str_eq a.expected_issuer "")) [
  | inl any_issuer ↦
      rw (any_issuer, check_claims)
        (check_audience (λ set. ground (arith, set, any_issuer, eq_iff a.expected_issuer "")))
  | inr one_issuer ↦ elim (Bool-cases (str_eq claims.issuer a.expected_issuer)) [
    | inr other ↦
        rw (one_issuer, other, check_claims)
          (wrong_issuer claims refl (set a.expected_issuer one_issuer)
            (λ e. ground (arith, e, other, eq_iff claims.issuer a.expected_issuer)))
    | inl same ↦
        rw (one_issuer, same, check_claims)
          (check_audience (λ set. ground (arith, same, eq_iff claims.issuer a.expected_issuer)))
  ]
]
  where
    set : (x : String) → str_eq x "" ≡ false → x ≢ ""
    set x h e = ground (arith, h, e, eq_iff x "")

    check_audience :
        (a.expected_issuer ≢ "" → claims.issuer ≡ a.expected_issuer)
        → Judged a (some (claims, true)) (
            if not (str_eq a.expected_audience "")
              && not (has_audience a.expected_audience claims.audience)
            then failed unexpected_audience
            else ok claims)
    check_audience issuer = elim (Bool-cases (str_eq a.expected_audience "")) [
      | inl any ↦ rw (any) (
          accepted claims refl (record {
            issuer = issuer;
            audience =
                λ is_set. absurd (ground (arith, is_set, any, eq_iff a.expected_audience ""));
          }))
      | inr one ↦ elim (Bool-cases (has_audience a.expected_audience claims.audience)) [
        | inl there ↦
            rw (one, there)
              (accepted claims refl (record {
                issuer = issuer;
                audience = λ is_set. has_audience-Among a.expected_audience claims.audience there;
              }))
        | inr missing ↦
            rw (one, missing)
              (wrong_audience claims refl (set a.expected_audience one)
                (λ among. ground (arith, missing, Among-has_audience a.expected_audience among)))
      ]
    ]

module _ (jwt : Jwt) where
  open jwt use {parse_with_claims, is_hmac, Verified, signed_string, numeric_date}

  check_parsed-Judged :
      (a : Authenticator) (parsed : Option (ExternalClaims × Bool))
      → Judged a parsed (check_parsed jwt a parsed)
  unfolding check_parsed
  check_parsed-Judged a none = unparsed refl
  check_parsed-Judged a (some (claims, false)) = not_valid claims refl
  check_parsed-Judged a (some (claims, true)) = check_claims-Judged a claims

  -- The check of an external token ends in one of five ways. It gives the claims if the token parses, is
  -- valid, and has the issuer and among its audiences the one that are configured. It fails if the token
  -- does not parse, or is not valid, or if an issuer is configured and the token has another, or if an
  -- audience is configured and the token lacks it; the error tells which.
  pub validate_external_token-Judged :
      (a : Authenticator) (token : String)
      → Judged a
          (parse_with_claims token (external_key_func a))
          (validate_external_token jwt a token)
  unfolding validate_external_token
  validate_external_token-Judged a token = check_parsed-Judged a _
