-- ===== src/Security/ServiceToken/Roundtrip.antt =====
-- A token that one service issues, as another verifies it.
use canton_pillar.Base.{
  ◌≡◌, ap, ◌∙◌, ℕ, ◌+◌, true, Option, some, [], ◌∷◌, ◌++◌, Text, ok, err, ◌>>=◌, if◌then◌else◌,
  or_else, ltb, ◌==◌, length, text_eq, text_eq_refl, join, Lacks, split-join, arith,
}
use mathlib.Core.List.{append_assoc}
use canton_pillar.Security.Tokens.{Parts, parts_of, three, or_err}
use canton_pillar.Security.ServiceToken.{
  ServiceJwtClaims, invalid_audience, expired_token, malformed_token, stamped, issue_service_jwt,
  check_service_claims, check_parts, verify_service_jwt,
}

-- A text that can be a part of a token: not empty, and without a point.
abbrev pub IsPart : Text → Type 0
IsPart [] = ⊥
IsPart (c ∷ s) = Lacks b'.' (c ∷ s)

three_parts :
    (h p s : Text)
    → IsPart h
    → IsPart p
    → IsPart s
    → parts_of (join b'.' (h ∷ p ∷ s ∷ []))
      ≡ some (record { header = h; payload = p; signature = s })
three_parts [] p s hh hp hs = absurd hh
three_parts (a ∷ h) [] s hh hp hs = absurd hp
three_parts (a ∷ h) (b ∷ p) [] hh hp hs = absurd hs
three_parts (a ∷ h) (b ∷ p) (c ∷ s) hh hp hs =
    ap three (split-join b'.' (a ∷ h) ((b ∷ p) ∷ (c ∷ s) ∷ []) (hh, (hp, (hs, tt))))

module _ (header : Text) (encode : ServiceJwtClaims → Text)
    (decode : Text → Option ServiceJwtClaims) (hmac : Text → Text → Text) where
  check_parts-signed :
      (payload aud secret : Text) (claims : ServiceJwtClaims) (now : ℕ)
      → decode payload ≡ some claims
      → let body = header ++ b'.' ∷ payload in
        let parts : Parts = record {
          header = header;
          payload = payload;
          signature = hmac secret body;
        } in
        check_parts header encode decode hmac parts aud secret now
        ≡ check_service_claims header encode decode hmac claims aud now
  unfolding check_parts
  check_parts-signed payload aud secret claims now h =
      let sig = hmac secret (header ++ b'.' ∷ payload) in
      let same : (length sig == length sig) ≡ true = ground arith in
      simp (same, text_eq_refl sig, h)

  -- A service token is verified with the secret that issued it: it is refused for another audience, or
  -- once its time is over, and otherwise it returns the claims with the times that were stamped.
  -- Conditions: the encoded header and claims and the HMAC are parts of a token, which have no point
  -- and are not empty, and decoding undoes the encoding of the claims.
  pub verify_service_jwt-issue_service_jwt :
      (claims : ServiceJwtClaims) (secret aud : Text) (ttl_seconds now later : ℕ)
      → IsPart header
      → IsPart (encode (stamped claims ttl_seconds now))
      → ((k m : Text) → IsPart (hmac k m))
      → decode (encode (stamped claims ttl_seconds now)) ≡ some (stamped claims ttl_seconds now)
      → verify_service_jwt header encode decode hmac
          (issue_service_jwt header encode decode hmac claims secret ttl_seconds now)
          aud
          secret
          later
        ≡ (if text_eq claims.aud aud
            then (if ltb (or_else claims.exp (now + ttl_seconds)) later
                then err expired_token
                else ok (stamped claims ttl_seconds now))
            else err invalid_audience)
  unfolding verify_service_jwt issue_service_jwt stamped check_service_claims
  verify_service_jwt-issue_service_jwt claims secret aud ttl_seconds now later hh hp hs inverse =
      let c = stamped claims ttl_seconds now in
      let body = header ++ b'.' ∷ encode c in
      let split_token =
        ap parts_of (append_assoc header (b'.' ∷ encode c) (b'.' ∷ hmac secret body))
        ∙ three_parts header (encode c) (hmac secret body) hh hp (hs secret body) in
      ap
        (λ o. or_err malformed_token o >>= λ parts.
          check_parts header encode decode hmac parts aud secret later)
        split_token
      ∙ check_parts-signed (encode c) aud secret c later inverse
      ∙ claims_if c
    where
      claims_if :
          (c : ServiceJwtClaims)
          → check_service_claims header encode decode hmac c aud later ≡ (
              if text_eq c.aud aud
              then (if ltb (or_else c.exp 0) later then err expired_token else ok c)
              else err invalid_audience)
      claims_if c = ground arith
