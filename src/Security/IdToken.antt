-- ===== src/Security/IdToken.antt =====
-- packages/security/src/oauth: jwks.ts, the cache of Google's keys, and google.ts, the verification of an
-- identity token. What `fetch` answers, JSON.parse with the base64 decoding, the canonical form of base64url,
-- and node's keys and RSA verification are parameters. Times are seconds, in the cache milliseconds.
pub mod Claims
pub mod Trusted
mod Tests
use canton_pillar.Base.{
  ◌≡◌, refl, ℕ, ◌+◌, ◌-◌, ◌*◌, Bool, true, false, ◌&&◌, ◌||◌, not, Option, none, some, List, [],
  ◌∷◌, ◌++◌, Text, codes, Result, ok, err, ◌>>=◌, ◌>>◌, require, if◌then◌else◌, or_else, is_some,
  ltb, text_eq,
}
use canton_pillar.Idempotency.Canonical.Objects.{define}
use canton_pillar.Security.Tokens.{Parts, parts_of, signed_text, or_err}

pub data OAuthVerificationCode : Type 0 where
  jwk_not_found signature_invalid audience_mismatch issuer_mismatch token_expired
        token_not_yet_valid :
      OAuthVerificationCode

-- What may be thrown: with the code, or by fetching, parsing and importing.
pub data OAuthError : Type 0 where
  verification : OAuthVerificationCode → OAuthError
  google_jwks_fetch_failed syntax_error invalid_key : OAuthError

pub record Jwks (K : Type 0) : Type 0 where
  pub cached_at : ℕ
  pub cached_keys : List (Text × K)

abbrev pub cache_ttl_ms : ℕ
cache_ttl_ms = 86400000

module _ {K : Type 0} where
  abbrev pub key_at : Text → List (Text × K) → Option K
  key_at kid [] = none
  key_at kid ((k, key) ∷ keys) = if text_eq k kid then some key else key_at kid keys

  -- The loop over the keys of the answer; one without an identifier is left out.
  abbrev pub keys_from : List (Text × K) → List (Option Text × K) → List (Text × K)
  keys_from next [] = next
  keys_from next ((none, key) ∷ keys) = keys_from next keys
  keys_from next ((some [], key) ∷ keys) = keys_from next keys
  keys_from next ((some (c ∷ kid), key) ∷ keys) = keys_from (define (c ∷ kid) key next) keys

  -- `none` is an answer that is not ok; it leaves the cache.
  unfoldable pub refresh_keys :
      ℕ → Option (List (Option Text × K)) → Jwks K → Jwks K × Result OAuthError (Unit {0})
  refresh_keys now none jwks = (jwks, err google_jwks_fetch_failed)
  refresh_keys now (some keys) jwks =
      (record { cached_at = now; cached_keys = keys_from [] keys }, ok tt)

  abbrev pub found_after :
      Text → Jwks K × Result OAuthError (Unit {0}) → Jwks K × Result OAuthError (Option K)
  found_after kid (jwks, err e) = (jwks, err e)
  found_after kid (jwks, ok done) = (jwks, ok (key_at kid jwks.cached_keys))

  unfoldable pub get_key :
      ℕ → Option (List (Option Text × K)) → Text → Jwks K → Jwks K × Result OAuthError (Option K)
  unfolding refresh_keys
  get_key now fetched kid jwks =
      if not (is_some (key_at kid jwks.cached_keys)) || ltb cache_ttl_ms (now - jwks.cached_at)
      then found_after kid (refresh_keys now fetched jwks)
      else (jwks, ok (key_at kid jwks.cached_keys))

pub record Header : Type 0 where
  pub alg : Option Text
  pub kid : Option Text

-- The claims that are read; `exp` and `iat` only if they are numbers.
pub record Payload : Type 0 where
  pub aud : Option Text
  pub iss : Option Text
  pub exp : Option ℕ
  pub iat : Option ℕ
  pub sub : Text
  pub email : Text
  pub email_verified : Bool
  pub name : Option Text
  pub picture : Option Text
  pub hd : Option Text

pub record Identity : Type 0 where
  pub sub : Text
  pub email : Text
  pub email_verified : Bool
  pub name : Option Text
  pub picture : Option Text
  pub hd : Option Text

-- `client_id` counts where there is no audience.
pub record Options : Type 0 where
  pub audience : Option Text
  pub client_id : Text
  pub issuer : Option Text

abbrev pub audience_of : Options → Text
audience_of opts = or_else opts.audience opts.client_id

abbrev pub issuer_of : Options → Text
issuer_of opts = or_else opts.issuer (codes "https://accounts.google.com")

-- `value === text`.
abbrev pub is : Option Text → Text → Bool
is none t = false
is (some s) t = text_eq s t

abbrev pub is_expired : ℕ → Option ℕ → Bool
is_expired now none = false
is_expired now (some exp) = ltb exp (now - 300)

abbrev pub is_early : ℕ → Option ℕ → Bool
is_early now none = false
is_early now (some iat) = ltb (now + 300) iat

abbrev failure : OAuthVerificationCode → OAuthError
failure code = verification code

unfoldable pub check_claims : ℕ → Options → Payload → Result OAuthError Identity
check_claims now opts payload = do
  require (is payload.aud (audience_of opts)) (failure audience_mismatch)
  require (is payload.iss (issuer_of opts)) (failure issuer_mismatch)
  require (not (is_expired now payload.exp)) (failure token_expired)
  require (not (is_early now payload.iat)) (failure token_not_yet_valid)
  ok (record {
    sub = payload.sub;
    email = payload.email;
    email_verified = payload.email_verified;
    name = payload.name;
    picture = payload.picture;
    hd = payload.hd;
  })

abbrev pub given_kid : Option Text → Option Text
given_kid (some (c ∷ kid)) = some (c ∷ kid)
given_kid kid = none

module _ {K P : Type 0} (parse_header : Text → Option Header)
    (parse_payload : Text → Option Payload) (create_public_key : K → Option P)
    (is_canonical : Text → Bool) (rsa_verify : P → Text → Text → Bool) where
  -- From the key on.
  unfoldable pub verify_with :
      ℕ → Options → Parts → Header → Payload → Option K → Result OAuthError Identity
  unfolding check_claims
  verify_with now opts parts header payload jwk = do
    jwk ← or_err (failure jwk_not_found) jwk
    key ← or_err invalid_key (create_public_key jwk)
    require
        (is header.alg (codes "RS256")
          && is_canonical parts.signature
          && rsa_verify key (signed_text parts) parts.signature)
        (failure signature_invalid)
    check_claims now opts payload

  abbrev pub after_key :
      ℕ
      → Options
      → Parts
      → Header
      → Payload
      → Jwks K × Result OAuthError (Option K)
      → Jwks K × Result OAuthError Identity
  after_key now opts parts header payload (jwks, found) =
      (jwks, found >>= verify_with now opts parts header payload)

  -- `header.kid ? await getKey(header.kid) : null`.
  abbrev pub with_kid :
      ℕ
      → Option (List (Option Text × K))
      → Options
      → Parts
      → Header
      → Payload
      → Jwks K
      → Option Text
      → Jwks K × Result OAuthError Identity
  with_kid now fetched opts parts header payload jwks none =
      (jwks, verify_with now opts parts header payload none)
  with_kid now fetched opts parts header payload jwks (some kid) =
      after_key now opts parts header payload (get_key (now * 1000) fetched kid jwks)

  abbrev pub Read : Type 0
  Read = Parts × Header × Payload

  unfoldable pub read_token : Text → Result OAuthError Read
  read_token token = do
    parts ← or_err (failure signature_invalid) (parts_of token)
    header ← or_err syntax_error (parse_header parts.header)
    payload ← or_err syntax_error (parse_payload parts.payload)
    ok (parts, header, payload)

  abbrev pub verify_read :
      ℕ
      → Option (List (Option Text × K))
      → Options
      → Jwks K
      → Result OAuthError Read
      → Jwks K × Result OAuthError Identity
  verify_read now fetched opts jwks (err e) = (jwks, err e)
  verify_read now fetched opts jwks (ok (parts, header, payload)) =
      with_kid now fetched opts parts header payload jwks (given_kid header.kid)

  unfoldable pub verify_id_token :
      ℕ
      → Option (List (Option Text × K))
      → Options
      → Text
      → Jwks K
      → Jwks K × Result OAuthError Identity
  unfolding read_token get_key verify_with
  verify_id_token now fetched opts token jwks = verify_read now fetched opts jwks (read_token token)
