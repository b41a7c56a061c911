-- ===== src/Security/ServiceToken.antt =====
-- packages/security/src/jwt/internal.ts: the tokens between services. base64url of a JSON value, its
-- inverse and the HMAC-SHA256 in base64url are parameters. Times are seconds.
pub mod Roundtrip
mod Tests
use canton_pillar.Base.{
  ◌≡◌, refl, ℕ, ◌+◌, Bool, true, false, not, Option, none, some, List, [], ◌∷◌, ◌++◌, Text, Result,
  ok, err, ◌>>=◌, ◌>>◌, require, if◌then◌else◌, or_else, ltb, ◌==◌, length, text_eq,
}
use canton_pillar.Security.Tokens.{Parts, parts_of, signed_text, or_err}

pub data Mode : Type 0 where
  test live : Mode

pub record ServiceJwtClaims : Type 0 where
  pub sub : Text
  pub aud : Text
  pub tenant_id : Text
  pub mode : Mode
  pub exp : Option ℕ
  pub iat : Option ℕ

-- The comparison in constant time throws a RangeError on buffers of different lengths.
pub data TokenError : Type 0 where
  malformed_token range_error invalid_signature syntax_error invalid_audience expired_token :
      TokenError

-- The claims that are signed: `exp` is kept if the caller gave it.
unfoldable pub stamped : ServiceJwtClaims → ℕ → ℕ → ServiceJwtClaims
stamped claims ttl_seconds now = record claims {
  iat = some now;
  exp = some (or_else claims.exp (now + ttl_seconds));
}

module _ (header : Text) (encode : ServiceJwtClaims → Text)
    (decode : Text → Option ServiceJwtClaims) (hmac : Text → Text → Text) where
  unfoldable pub issue_service_jwt : ServiceJwtClaims → Text → ℕ → ℕ → Text
  unfolding stamped
  issue_service_jwt claims secret ttl_seconds now =
      let body = header ++ b'.' ∷ encode (stamped claims ttl_seconds now) in
      body ++ b'.' ∷ hmac secret body

  -- What is asked of the claims.
  unfoldable pub check_service_claims :
      ServiceJwtClaims → Text → ℕ → Result TokenError ServiceJwtClaims
  check_service_claims claims expected_audience now = do
    require (text_eq claims.aud expected_audience) invalid_audience
    require (not (ltb (or_else claims.exp 0) now)) expired_token
    ok claims

  unfoldable pub check_parts : Parts → Text → Text → ℕ → Result TokenError ServiceJwtClaims
  unfolding check_service_claims
  check_parts parts expected_audience secret now = do
    require (length (hmac secret (signed_text parts)) == length parts.signature) range_error
    require (text_eq (hmac secret (signed_text parts)) parts.signature) invalid_signature
    claims ← or_err syntax_error (decode parts.payload)
    check_service_claims claims expected_audience now

  unfoldable pub verify_service_jwt : Text → Text → Text → ℕ → Result TokenError ServiceJwtClaims
  unfolding check_parts
  verify_service_jwt token expected_audience secret now = do
    parts ← or_err malformed_token (parts_of token)
    check_parts parts expected_audience secret now
