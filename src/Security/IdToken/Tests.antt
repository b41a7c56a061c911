-- ===== src/Security/IdToken/Tests.antt =====
-- Identity tokens at concrete inputs, and the theorem at one.
use canton_pillar.Base.{
  ◌≡◌, refl, ℕ, Bool, true, Option, none, some, List, [], ◌∷◌, Text, codes, ok, err, text_eq,
}
use canton_pillar.Security.IdToken.{
  Jwks, OAuthError, token_expired, Header, Payload, Identity, Options, verify_id_token, verify_with,
  check_claims, get_key, refresh_keys, read_token,
}
use canton_pillar.Security.IdToken.Trusted.{IsTrusted, verify_id_token-IsTrusted}

abbrev parse_header : Text → Option Header
parse_header s = some (record { alg = some (codes "RS256"); kid = some (codes "k1") })

abbrev parse_payload : Text → Option Payload
parse_payload s = some (record {
  aud = some (codes "client");
  iss = some (codes "https://accounts.google.com");
  exp = some 5000;
  iat = some 4000;
  sub = codes "42";
  email = codes "a@b.c";
  email_verified = true;
  name = none;
  picture = none;
  hd = none;
})

abbrev create_public_key : ℕ → Option ℕ
create_public_key k = some k

abbrev is_canonical : Text → Bool
is_canonical s = true

abbrev rsa_verify : ℕ → Text → Text → Bool
rsa_verify key message signature = text_eq signature (codes "s")

abbrev opts : Options
opts = record { audience = none; client_id = codes "client"; issuer = none }

abbrev fetched : Option (List (Option Text × ℕ))
fetched = some ((none, 3) ∷ (some (codes "k1"), 7) ∷ [])

abbrev empty : Jwks ℕ
empty = record { cached_at = 0; cached_keys = [] }

abbrev filled : Jwks ℕ
filled = record { cached_at = 4500000; cached_keys = (codes "k1", 7) ∷ [] }

abbrev user : Identity
user = record {
  sub = codes "42";
  email = codes "a@b.c";
  email_verified = true;
  name = none;
  picture = none;
  hd = none;
}

verified_test :
    verify_id_token parse_header parse_payload create_public_key is_canonical rsa_verify 4500
      fetched opts
      (codes "h.p.s")
      empty
    ≡ (filled, ok user)
unfolding verify_id_token verify_with check_claims get_key refresh_keys read_token
verified_test = refl

expired_test :
    (verify_id_token parse_header parse_payload create_public_key is_canonical rsa_verify 5301
      fetched opts
      (codes "h.p.s")
      filled).1
    ≡ err (OAuthError.verification token_expired)
unfolding verify_id_token verify_with check_claims get_key refresh_keys read_token
expired_test = refl

verify_id_token-IsTrusted_example :
    IsTrusted parse_header parse_payload create_public_key rsa_verify 4500 opts
      (codes "h.p.s")
      filled
      user
verify_id_token-IsTrusted_example =
    verify_id_token-IsTrusted parse_header parse_payload create_public_key is_canonical rsa_verify
      4500 fetched opts (codes "h.p.s") empty filled user verified_test
