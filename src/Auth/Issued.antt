-- ===== src/Auth/Issued.antt =====
-- What is issued for an accepted token (internal/core/auth/auth.go).
use eve_industry_planner_sta.Prelude.{
  String, ◌≡◌, ◌≢◌, refl, ap, arith, Bool, true, false, [], some, Option-cases, inl, inr, eq_iff,
}
use eve_industry_planner_sta.Prelude.Int.{ℤ, ◌+ℤ◌}
use eve_industry_planner_sta.Auth.{
  Authenticator, UserClaims, ExternalClaims, Jwt, Result, failed, ok, external_key_func,
  validate_external_token, user_claims, sign, issue, exchange_token,
}
use eve_industry_planner_sta.Auth.Accepted.{
  Expected, Judged, unparsed, not_valid, wrong_issuer, wrong_audience, accepted,
  validate_external_token-Judged,
}

module _ (jwt : Jwt) where
  open jwt use {parse_with_claims, is_hmac, Verified, signed_string, numeric_date}

  -- What stands behind an internal token that was issued.
  pub record Issued (a : Authenticator) (token : String) (now ttl : ℤ) (signed : String)
      (claims : UserClaims) : Type 0 where
    pub ext : ExternalClaims
    pub parsed : parse_with_claims token (external_key_func a) ≡ some (ext, true)
    pub hmac : is_hmac token ≡ true
    pub verified : Verified a.external_key token
    pub expected : Expected a ext
    pub user : claims.user_id ≡ ext.subject
    pub named : ext.name ≢ "" → claims.username ≡ ext.name
    pub no_roles : claims.roles ≡ []
    pub expires : claims.expires_at ≡ numeric_date (now +ℤ ttl)
    pub signature : signed_string claims a.signing_key ≡ some signed

  key_of :
      (a : Authenticator) (hmac : Bool) (key : String)
      → external_key_func a hmac ≡ some key
      → (hmac ≡ true) × (a.external_key ≡ key)
  unfolding external_key_func
  key_of a true key h = (refl, ground (arith, h))
  key_of a false key h = absurd (ground (arith, h))

  sign-ok :
      (a : Authenticator) (claims claims' : UserClaims) (signed : String)
      → sign jwt a claims ≡ ok (signed, claims')
      → (claims ≡ claims') × (signed_string claims a.signing_key ≡ some signed)
  unfolding sign
  sign-ok a claims claims' signed h = elim (Option-cases (signed_string claims a.signing_key)) [
    | inl missing ↦ absurd (ground (arith, missing, h))
    | inr (s, there) ↦
        let same : ok (s, claims) ≡ ok (signed, claims') = rw (there, sign) at h in
        (ap (λ x. (ok_or claims x)) same, ground (arith, there, same))
  ]
    where
      ok_or : UserClaims → Result (String × UserClaims) → UserClaims
      ok_or other (failed e) = other
      ok_or other (ok x) = x.1

  issue-Issued :
      (a : Authenticator) (token : String) (now ttl : ℤ) (signed : String) (claims : UserClaims)
      (result : Result ExternalClaims)
      → Judged a (parse_with_claims token (external_key_func a)) result
      → issue jwt a result now ttl ≡ ok (signed, claims)
      → Issued a token now ttl signed claims
  unfolding issue user_claims
  issue-Issued a token now ttl signed claims _ (unparsed e) h = absurd (ground (arith, h))
  issue-Issued a token now ttl signed claims _ (not_valid ext e) h = absurd (ground (arith, h))
  issue-Issued a token now ttl signed claims _ (wrong_issuer ext e i j) h =
      absurd (ground (arith, h))
  issue-Issued a token now ttl signed claims _ (wrong_audience ext e i j) h =
      absurd (ground (arith, h))
  issue-Issued a token now ttl signed claims _ (accepted ext parsed expected) h =
      let (key, given, verified) =
        jwt.parse_with_claims-Verified token (external_key_func a) (ext, true) parsed in
      let (hmac, same) = key_of a (is_hmac token) key given in
      let (made, signature) = sign-ok a (user_claims jwt ext now ttl) claims signed h in
      record {
        ext = ext;
        parsed = parsed;
        hmac = hmac;
        verified = rw same verified;
        expected = expected;
        user = rw (← made) refl;
        named = λ set. rw (← made) (ground (arith, set, eq_iff ext.name ""));
        no_roles = rw (← made) refl;
        expires = rw (← made) refl;
        signature = rw (← made) signature;
      }

  -- An internal token is issued only for an external token of the HMAC family whose signature is right
  -- for the external key, which is valid and has the issuer and the audience that are configured. The
  -- internal token names the subject of the external one, with its name if it has one, has no roles,
  -- expires the given time after now, and is signed with the internal key.
  pub exchange_token-Issued :
      (a : Authenticator) (token : String) (now ttl : ℤ) (signed : String) (claims : UserClaims)
      → exchange_token jwt a token now ttl ≡ ok (signed, claims)
      → Issued a token now ttl signed claims
  unfolding exchange_token
  exchange_token-Issued a token now ttl signed claims h =
      issue-Issued a token now ttl signed claims (validate_external_token jwt a token)
        (validate_external_token-Judged jwt a token) h
