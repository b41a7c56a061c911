-- ===== src/Security/IdToken/Trusted.antt =====
-- What a verified identity token is.
use canton_pillar.Base.{
  ◌≡◌, refl, ◌∙◌, ℕ, ◌-◌, ◌*◌, ◌≤◌, Bool, true, false, ◌||◌, not, Option, none, some, List, ◌∷◌, [],
  Text, codes, Result, ok, err, >>=-eq-ok, ok_injective, is_some, ltb, arith, Bool-cases, inl, inr,
}
use mathlib.Core.Path.{subst}
use canton_pillar.Security.Tokens.{Parts, parts_of, signed_text, or_err}
use canton_pillar.Security.IdToken.Claims.{claimed, or_err-eq-ok, verify_with-IsChecked}
use canton_pillar.Security.IdToken.{
  Jwks, OAuthError, Header, Payload, Identity, Options, audience_of, issuer_of, is_expired,
  is_early, given_kid, key_at, refresh_keys, get_key, cache_ttl_ms, verify_with, read_token,
  verify_id_token, found_after, signature_invalid, after_key, with_kid, verify_read,
}

-- A key that is found stands in the cache, which is no older than a day.
abbrev Recent : {K : Type 0} → ℕ → Text → Jwks K × Result OAuthError (Option K) → Type 0
Recent now kid (jwks, err e) = Unit
Recent now kid (jwks, ok o) =
    (key_at kid jwks.cached_keys ≡ o) × (now - jwks.cached_at ≤ cache_ttl_ms)

get_key-Recent :
    {K : Type 0} (now : ℕ) (fetched : Option (List (Option Text × K))) (kid : Text) (jwks : Jwks K)
    → Recent now kid (get_key now fetched kid jwks)
unfolding get_key refresh_keys
get_key-Recent now fetched kid jwks =
    elim (Bool-cases
      (not (is_some (key_at kid jwks.cached_keys)) || ltb cache_ttl_ms (now - jwks.cached_at))) [
        | inl e ↦ simp e (after fetched)
        | inr e ↦ simp e (refl, ground arith)
      ]
  where
    after :
        (fetched : Option (List (Option Text × _)))
        → Recent now kid (found_after kid (refresh_keys now fetched jwks))
    after none = tt
    after (some keys) = (refl, omega arith)

module _ {K P : Type 0} where
  pub record IsTrusted (parse_header : Text → Option Header) (parse_payload : Text → Option Payload)
      (create_public_key : K → Option P) (rsa_verify : P → Text → Text → Bool) (now : ℕ)
      (opts : Options) (token : Text) (jwks : Jwks K) (identity : Identity) : Type 0 where
    pub parts : Parts
    pub header : Header
    pub payload : Payload
    pub kid : Text
    pub jwk : K
    pub key : P
    pub split : parts_of token ≡ some parts
    pub parsed :
        (parse_header parts.header ≡ some header) × (parse_payload parts.payload ≡ some payload)
    pub named : header.kid ≡ some kid
    pub cached : key_at kid jwks.cached_keys ≡ some jwk
    pub recent : now * 1000 - jwks.cached_at ≤ cache_ttl_ms
    pub imported : create_public_key jwk ≡ some key
    pub algorithm : header.alg ≡ some (codes "RS256")
    pub signed : rsa_verify key (signed_text parts) parts.signature ≡ true
    pub audience : payload.aud ≡ some (audience_of opts)
    pub issuer : payload.iss ≡ some (issuer_of opts)
    pub in_time : (is_expired now payload.exp ≡ false) × (is_early now payload.iat ≡ false)
    pub claims : identity ≡ claimed payload

module _ {K P : Type 0} (parse_header : Text → Option Header)
    (parse_payload : Text → Option Payload) (create_public_key : K → Option P)
    (is_canonical : Text → Bool) (rsa_verify : P → Text → Text → Bool) where
  abbrev Outcome : ℕ → Options → Text → Jwks K × Result OAuthError Identity → Type 0
  Outcome now opts token (jwks, err e) = Unit
  Outcome now opts token (jwks, ok identity) =
      IsTrusted parse_header parse_payload create_public_key rsa_verify now opts token jwks identity

  abbrev WasRead : Text → Parts → Header → Payload → Type 0
  WasRead token parts header payload =
      (parts_of token ≡ some parts)
      × (parse_header parts.header ≡ some header)
      × (parse_payload parts.payload ≡ some payload)

  verified-Outcome :
      (now : ℕ) (opts : Options) (token kid : Text) (parts : Parts) (header : Header)
      (payload : Payload) (jwks : Jwks K) (found : Option K) (result : Result OAuthError Identity)
      → WasRead token parts header payload
      → header.kid ≡ some kid
      → (key_at kid jwks.cached_keys ≡ found) × (now * 1000 - jwks.cached_at ≤ cache_ttl_ms)
      → verify_with parse_header parse_payload create_public_key is_canonical rsa_verify now opts
          parts header payload found
        ≡ result
      → Outcome now opts token (jwks, result)
  verified-Outcome now opts token kid parts header payload jwks found (err e) read named recent h =
      tt
  verified-Outcome now opts token kid parts header payload jwks found (ok identity)
        (split, head, body) named (cached, recent) h =
      let c =
        verify_with-IsChecked parse_header parse_payload create_public_key is_canonical rsa_verify
          now opts parts header payload found identity h in
      record {
        parts = parts;
        header = header;
        payload = payload;
        kid = kid;
        jwk = c.jwk;
        key = c.key;
        split = split;
        parsed = (head, body);
        named = named;
        cached = cached ∙ c.there;
        recent = recent;
        imported = c.imported;
        algorithm = c.algorithm;
        signed = c.signed;
        audience = c.audience;
        issuer = c.issuer;
        in_time = c.in_time;
        claims = c.claims;
      }

  after_key-Outcome :
      (now : ℕ) (opts : Options) (token kid : Text) (parts : Parts) (header : Header)
      (payload : Payload) (x : Jwks K × Result OAuthError (Option K))
      → WasRead token parts header payload
      → header.kid ≡ some kid
      → Recent (now * 1000) kid x
      → Outcome now opts token (
          after_key parse_header parse_payload create_public_key is_canonical rsa_verify now opts
            parts header payload x)
  after_key-Outcome now opts token kid parts header payload (jwks, err e) read named recent = tt
  after_key-Outcome now opts token kid parts header payload (jwks, ok found) read named recent =
      verified-Outcome now opts token kid parts header payload jwks found _ read named recent refl

  with_kid-Outcome :
      (now : ℕ) (fetched : Option (List (Option Text × K))) (opts : Options) (token : Text)
      (parts : Parts) (header : Header) (payload : Payload) (jwks : Jwks K) (kid : Option Text)
      → WasRead token parts header payload
      → header.kid ≡ kid
      → Outcome now opts token (
          with_kid parse_header parse_payload create_public_key is_canonical rsa_verify now fetched
            opts parts header payload jwks
            (given_kid kid))
  unfolding verify_with
  with_kid-Outcome now fetched opts token parts header payload jwks none read named = tt
  with_kid-Outcome now fetched opts token parts header payload jwks (some []) read named = tt
  with_kid-Outcome now fetched opts token parts header payload jwks (some (c ∷ kid)) read named =
      after_key-Outcome now opts token (c ∷ kid) parts header payload _ read named
        (get_key-Recent (now * 1000) fetched (c ∷ kid) jwks)

  read_token-WasRead :
      (token : Text) (parts : Parts) (header : Header) (payload : Payload)
      → read_token parse_header parse_payload create_public_key is_canonical rsa_verify token
        ≡ ok (parts, header, payload)
      → WasRead token parts header payload
  unfolding read_token
  read_token-WasRead token parts header payload h =
      let (ps, h1, h2) =
        >>=-eq-ok (or_err (OAuthError.verification signature_invalid) (parts_of token)) _ h in
      let (hd, h3, h4) = >>=-eq-ok (or_err OAuthError.syntax_error (parse_header ps.header)) _ h2 in
      let (pl, h5, h6) =
        >>=-eq-ok (or_err OAuthError.syntax_error (parse_payload ps.payload)) _ h4 in
      subst (λ r. WasRead token r.0 r.1 r.2) (ok_injective (ps, hd, pl) (parts, header, payload) h6)
        (
          or_err-eq-ok _ (parts_of token) h1,
          or_err-eq-ok _ (parse_header ps.header) h3,
          or_err-eq-ok _ (parse_payload ps.payload) h5,
        )

  -- If the verification of an identity token returns an identity, then the token has three parts; its
  -- header names RS256 and a key that stands in the cache, which was fetched a day ago at most; the signature
  -- is that key's over the first two parts; the audience and the issuer are the expected ones; neither
  -- time of validity is missed by more than five minutes; and the identity has the six claims of the
  -- token: the subject, the email and whether it is verified, the name, the picture and the domain.
  pub verify_id_token-IsTrusted :
      (now : ℕ) (fetched : Option (List (Option Text × K))) (opts : Options) (token : Text)
      (jwks jwks' : Jwks K) (identity : Identity)
      → verify_id_token parse_header parse_payload create_public_key is_canonical rsa_verify now
          fetched opts token jwks
        ≡ (jwks', ok identity)
      → IsTrusted parse_header parse_payload create_public_key rsa_verify now opts token jwks'
          identity
  unfolding verify_id_token
  verify_id_token-IsTrusted now fetched opts token jwks jwks' identity h =
      subst (Outcome now opts token) h (of_read _ refl)
    where
      of_read :
          (r : Result OAuthError (Parts × Header × Payload))
          → read_token parse_header parse_payload create_public_key is_canonical rsa_verify token
            ≡ r
          → Outcome now opts token (
              verify_read parse_header parse_payload create_public_key is_canonical rsa_verify now
                fetched opts jwks r)
      of_read (err e) read = tt
      of_read (ok (parts, header, payload)) read =
          with_kid-Outcome now fetched opts token parts header payload jwks header.kid
            (read_token-WasRead token parts header payload read) refl
