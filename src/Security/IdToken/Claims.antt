-- ===== src/Security/IdToken/Claims.antt =====
-- What the checks of an identity token establish, once its key has been looked up.
use canton_pillar.Base.{
  ◌≡◌, ap, sym, ℕ, Bool, true, false, ◌&&◌, not, Option, none, some, Text, codes, ok, >>=-eq-ok,
  require-eq-ok, ok_injective, text_eq_sound, arith, &&-true,
}
use canton_pillar.Security.Tokens.{Parts, signed_text, or_err}
use canton_pillar.Security.IdToken.{
  OAuthError, Header, Payload, Identity, Options, audience_of, issuer_of, is, is_expired, is_early,
  check_claims, verify_with, jwk_not_found,
}

pub or_err-eq-ok : {E A : Type 0} (e : E) (o : Option A) {a : A} → or_err e o ≡ ok a → o ≡ some a
or_err-eq-ok e none h = absurd (ground arith)
or_err-eq-ok e (some b) {a} h = ap some (ok_injective b a h)

is-some : (o : Option Text) (t : Text) → is o t ≡ true → o ≡ some t
is-some none t h = absurd (ground arith)
is-some (some s) t h = ap some (text_eq_sound s t h)

-- The identity that the claims of a token name.
abbrev pub claimed : Payload → Identity
claimed payload = record {
  sub = payload.sub;
  email = payload.email;
  email_verified = payload.email_verified;
  name = payload.name;
  picture = payload.picture;
  hd = payload.hd;
}

module _ {K P : Type 0} where
  -- What the steps after the lookup of the key establish.
  pub record IsChecked (create_public_key : K → Option P) (rsa_verify : P → Text → Text → Bool)
      (now : ℕ) (opts : Options) (parts : Parts) (header : Header) (payload : Payload)
      (found : Option K) (identity : Identity) : Type 0 where
    pub jwk : K
    pub key : P
    pub there : found ≡ some jwk
    pub imported : create_public_key jwk ≡ some key
    pub algorithm : header.alg ≡ some (codes "RS256")
    pub signed : rsa_verify key (signed_text parts) parts.signature ≡ true
    pub audience : payload.aud ≡ some (audience_of opts)
    pub issuer : payload.iss ≡ some (issuer_of opts)
    pub in_time : (is_expired now payload.exp ≡ false) × (is_early now payload.iat ≡ false)
    pub claims : identity ≡ claimed payload

abbrev Claimed : ℕ → Options → Payload → Identity → Type 0
Claimed now opts payload identity =
    (payload.aud ≡ some (audience_of opts))
    × (payload.iss ≡ some (issuer_of opts))
    × (is_expired now payload.exp ≡ false)
    × (is_early now payload.iat ≡ false)
    × (identity ≡ claimed payload)

check_claims-Claimed :
    (now : ℕ) (opts : Options) (payload : Payload) (identity : Identity)
    → check_claims now opts payload ≡ ok identity
    → Claimed now opts payload identity
unfolding check_claims
check_claims-Claimed now opts payload identity h =
    let (aud, h1) = require-eq-ok (is payload.aud (audience_of opts)) _ _ h in
    let (iss, h2) = require-eq-ok (is payload.iss (issuer_of opts)) _ _ h1 in
    let (live, h3) = require-eq-ok (not (is_expired now payload.exp)) _ _ h2 in
    let (begun, h4) = require-eq-ok (not (is_early now payload.iat)) _ _ h3 in
    (
      is-some payload.aud (audience_of opts) aud,
      is-some payload.iss (issuer_of opts) iss,
      ground arith,
      ground arith,
      sym (ok_injective _ identity h4),
    )

module _ {K P : Type 0} (parse_header : Text → Option Header)
    (parse_payload : Text → Option Payload) (create_public_key : K → Option P)
    (is_canonical : Text → Bool) (rsa_verify : P → Text → Text → Bool) where
  pub verify_with-IsChecked :
      (now : ℕ) (opts : Options) (parts : Parts) (header : Header) (payload : Payload)
      (found : Option K) (identity : Identity)
      → verify_with parse_header parse_payload create_public_key is_canonical rsa_verify now opts
          parts header payload found
        ≡ ok identity
      → IsChecked create_public_key rsa_verify now opts parts header payload found identity
  unfolding verify_with
  verify_with-IsChecked now opts parts header payload found identity h =
      let (jwk, h1, h2) = >>=-eq-ok (or_err (OAuthError.verification jwk_not_found) found) _ h in
      let (key, h3, h4) = >>=-eq-ok (or_err OAuthError.invalid_key (create_public_key jwk)) _ h2 in
      let (both, h5) = require-eq-ok _ _ _ h4 in
      let alg = is header.alg (codes "RS256") in
      let canonical = is_canonical parts.signature in
      let verified = rsa_verify key (signed_text parts) parts.signature in
      let (first, signed) = &&-true (alg && canonical) verified both in
      let (algorithm, _) = &&-true alg canonical first in
      let (aud, iss, live, begun, named) = check_claims-Claimed now opts payload identity h5 in
      record {
        jwk = jwk;
        key = key;
        there = or_err-eq-ok _ found h1;
        imported = or_err-eq-ok _ (create_public_key jwk) h3;
        algorithm = is-some header.alg (codes "RS256") algorithm;
        signed = signed;
        audience = aud;
        issuer = iss;
        in_time = (live, begun);
        claims = named;
      }
