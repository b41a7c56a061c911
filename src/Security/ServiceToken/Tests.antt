-- ===== src/Security/ServiceToken/Tests.antt =====
-- A service token at concrete inputs, and the theorem at it.
use canton_pillar.Base.{◌≡◌, refl, Option, none, some, [], ◌∷◌, Text, codes, ok, err}
use canton_pillar.Security.ServiceToken.{
  Mode, ServiceJwtClaims, TokenError, stamped, issue_service_jwt, verify_service_jwt, check_parts,
}
use canton_pillar.Security.ServiceToken.Roundtrip.{IsPart, verify_service_jwt-issue_service_jwt}

abbrev claims : ServiceJwtClaims
claims = record {
  sub = codes "api";
  aud = codes "ledger";
  tenant_id = codes "ten_1";
  mode = Mode.test;
  exp = none;
  iat = none;
}

abbrev on_wire : ServiceJwtClaims
on_wire = record claims { iat = some 1000; exp = some 1300 }

abbrev encode : ServiceJwtClaims → Text
encode c = codes "eyJzdWIi"

abbrev decode : Text → Option ServiceJwtClaims
decode s = some on_wire

-- A digest that depends on whether the secret is empty.
abbrev hmac : Text → Text → Text
hmac [] m = codes "sig0"
hmac (c ∷ k) m = codes "sig1"

hmac-IsPart : (k m : Text) → IsPart (hmac k m)
hmac-IsPart [] m = (refl, (refl, (refl, (refl, tt))))
hmac-IsPart (c ∷ k) m = (refl, (refl, (refl, (refl, tt))))

other_secret_test :
    verify_service_jwt
      (codes "eyJ")
      encode
      decode
      hmac
      (issue_service_jwt (codes "eyJ") encode decode hmac claims (codes "k") 300 1000)
      (codes "ledger")
      []
      1100
    ≡ err TokenError.invalid_signature
unfolding verify_service_jwt issue_service_jwt check_parts stamped
other_secret_test = refl

verify_service_jwt-issue_service_jwt_example :
    verify_service_jwt
      (codes "eyJ")
      encode
      decode
      hmac
      (issue_service_jwt (codes "eyJ") encode decode hmac claims (codes "k") 300 1000)
      (codes "ledger")
      (codes "k")
      1100
    ≡ ok on_wire
unfolding stamped
verify_service_jwt-issue_service_jwt_example =
    verify_service_jwt-issue_service_jwt (codes "eyJ") encode decode hmac claims (codes "k")
      (codes "ledger") 300 1000 1100 (refl, (refl, (refl, tt)))
      (refl, (refl, (refl, (refl, (refl, (refl, (refl, (refl, tt)))))))) hmac-IsPart refl
