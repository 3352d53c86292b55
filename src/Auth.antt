-- ===== src/Auth.antt =====
-- The exchange of tokens (internal/core/auth/auth.go) and the settings that it takes
-- (internal/core/config/config.go). The JWT library is a record of what is used of it; the
-- environment is a function.
pub mod Accepted
pub mod Issued
mod Examples
use eve_industry_planner_sta.Prelude.{
  String, ◌≡◌, Bool, true, false, not, List, [], ◌∷◌, Option, none, some, ◌||◌, ◌&&◌, if◌then◌else◌,
  str_eq,
}
use eve_industry_planner_sta.Prelude.Int.{ℤ, ◌+ℤ◌}

-- `WS_URL` is left out: the code never sets it.
pub record Config : Type 0 where
  pub mongo_url : String
  pub redis_url : String
  pub nats_url : String
  pub minio_url : String
  pub api_port : String
  pub ws_port : String
  pub auth_secret : String
  pub external_jwt_secret : String
  pub external_jwt_issuer : String
  pub external_jwt_audience : String

-- `os.Getenv` gives the empty text for a name that is not set.
unfoldable pub get_env : (String → String) → String → String → String
get_env env key fallback = if not (str_eq (env key) "") then env key else fallback

unfoldable pub load_config : (String → String) → Config
unfolding get_env
load_config env = record {
  mongo_url = get_env env "MONGO_URL" "mongodb://mongo:27017/eve_industry";
  redis_url = get_env env "REDIS_URL" "redis:6379";
  nats_url = get_env env "NATS_URL" "nats://nats:4222";
  minio_url = get_env env "MINIO_URL" "http://minio:9000";
  api_port = get_env env "API_PORT" "8080";
  ws_port = get_env env "WS_PORT" "8091";
  auth_secret = get_env env "AUTH_SECRET" "dev-secret-change";
  external_jwt_secret = get_env env "EXTERNAL_JWT_SECRET" "dev-external-secret";
  external_jwt_issuer = get_env env "EXTERNAL_JWT_ISSUER" "";
  external_jwt_audience = get_env env "EXTERNAL_JWT_AUDIENCE" "";
}

pub record Authenticator : Type 0 where
  pub signing_key : String
  pub external_key : String
  pub expected_issuer : String
  pub expected_audience : String

unfoldable pub new_authenticator : Config → Authenticator
new_authenticator cfg = record {
  signing_key = cfg.auth_secret;
  external_key = cfg.external_jwt_secret;
  expected_issuer = cfg.external_jwt_issuer;
  expected_audience = cfg.external_jwt_audience;
}

pub record UserClaims : Type 0 where
  pub user_id : String
  pub username : String
  pub roles : List String
  pub issued_at : ℤ
  pub expires_at : ℤ

-- The claims of the external token that the code reads.
pub record ExternalClaims : Type 0 where
  pub subject : String
  pub name : String
  pub email : String
  pub issuer : String
  pub audience : List String

-- `ParseWithClaims`: it gives the claims and `Valid` unless it fails, and asks the function for the key
-- by whether the token's method is of the HMAC family. As documented, it does not fail only if the
-- function gave a key and the token's signature is right for that key. `NewNumericDate` cuts an instant
-- to the library's precision, and `SignedString` signs with HS256, unless it fails.
pub record Jwt : Type 1 where
  pub is_hmac : String → Bool
  pub Verified : String → String → Type 0
  pub parse_with_claims : String → (Bool → Option String) → Option (ExternalClaims × Bool)
  pub numeric_date : ℤ → ℤ
  pub signed_string : UserClaims → String → Option String
  pub parse_with_claims-Verified :
      (token : String) (key_func : Bool → Option String) (parsed : ExternalClaims × Bool)
      → parse_with_claims token key_func ≡ some parsed
      → (key : String) × (key_func (is_hmac token) ≡ some key) × Verified key token

pub data AuthError : Type 0 where
  parse_failed invalid_token unexpected_issuer unexpected_audience signing_failed : AuthError

pub data Result (A : Type 0) : Type 0 where
  failed : AuthError → Result A
  ok : A → Result A

-- The loop over the audiences.
unfoldable pub has_audience : String → List String → Bool
has_audience expected [] = false
has_audience expected (aud ∷ rest) = str_eq aud expected || has_audience expected rest

-- The checks of issuer and audience, each made if it is configured. An empty list of audiences and one
-- that lacks the expected one are refused alike.
unfoldable pub check_claims : Authenticator → ExternalClaims → Result ExternalClaims
unfolding has_audience
check_claims a claims =
    if not (str_eq a.expected_issuer "") && not (str_eq claims.issuer a.expected_issuer)
    then failed unexpected_issuer
    else if not (str_eq a.expected_audience "")
        && not (has_audience a.expected_audience claims.audience)
    then failed unexpected_audience
    else ok claims

-- The key for an external token: for methods of the HMAC family only.
unfoldable pub external_key_func : Authenticator → Bool → Option String
external_key_func a true = some a.external_key
external_key_func a false = none

module _ (jwt : Jwt) where
  open jwt use {parse_with_claims, numeric_date, signed_string}

  unfoldable pub check_parsed :
      Authenticator → Option (ExternalClaims × Bool) → Result ExternalClaims
  unfolding check_claims
  check_parsed a none = failed parse_failed
  check_parsed a (some (claims, false)) = failed invalid_token
  check_parsed a (some (claims, true)) = check_claims a claims

  unfoldable pub validate_external_token : Authenticator → String → Result ExternalClaims
  unfolding check_parsed external_key_func
  validate_external_token a token = check_parsed a (parse_with_claims token (external_key_func a))

  -- The claims of the internal token.
  unfoldable pub user_claims : ExternalClaims → ℤ → ℤ → UserClaims
  user_claims ext now ttl = record {
    user_id = ext.subject;
    username = if str_eq ext.name "" then ext.email else ext.name;
    roles = [];
    issued_at = numeric_date now;
    expires_at = numeric_date (now +ℤ ttl);
  }

  unfoldable pub sign : Authenticator → UserClaims → Result (String × UserClaims)
  sign a claims = elim (signed_string claims a.signing_key) [
    | none ↦ failed signing_failed
    | some signed ↦ ok (signed, claims)
  ]

  unfoldable pub issue :
      Authenticator → Result ExternalClaims → ℤ → ℤ → Result (String × UserClaims)
  unfolding sign user_claims
  issue a (failed e) now ttl = failed e
  issue a (ok ext) now ttl = sign a (user_claims ext now ttl)

  unfoldable pub exchange_token : Authenticator → String → ℤ → ℤ → Result (String × UserClaims)
  unfolding issue validate_external_token
  exchange_token a external_token now ttl =
      issue a (validate_external_token a external_token) now ttl
