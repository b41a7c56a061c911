-- ===== src/Security/Tests.antt =====
-- Signatures at concrete inputs, and the theorems at them.
use canton_pillar.Base.{◌≡◌, ◌↔◌, refl, ℕ, zero, suc, arith, some, [], ◌∷◌, ◌++◌, Text, codes}
use canton_pillar.Security.Webhook.{
  sign_webhook_payload, build_signature_header, parse_header, verified, timestamp_out_of_tolerance,
  no_matching_signature, verify_webhook_signature,
}
use canton_pillar.Security.Webhook.Verdict.{IsVerified, verify_webhook_signature_iff}
use canton_pillar.Security.Webhook.Roundtrip.{
  IsSignature, parse_header-build_signature_header, verify_webhook_signature-build_signature_header,
}

abbrev repeat : ℕ → ℕ → Text
repeat zero c = []
repeat (suc n) c = c ∷ repeat n c

-- A digest of the right form that depends on whether the secret is empty.
abbrev hmac : Text → Text → Text
hmac [] m = repeat 64 b'a'
hmac (c ∷ k) m = repeat 64 b'b'

hmac-IsSignature : (k m : Text) → IsSignature (hmac k m)
hmac-IsSignature [] m = refl
hmac-IsSignature (c ∷ k) m = refl

abbrev signed : Text
signed = codes "t=100,v1=" ++ repeat 64 b'b'

verdicts :
    (verify_webhook_signature hmac (codes "{}") (some signed) (codes "k" ∷ []) 300 100000
      ≡ verified 100 0)
    × (verify_webhook_signature hmac (codes "{}") (some signed) ([] ∷ []) 300 100000
        ≡ no_matching_signature)
    × (verify_webhook_signature hmac (codes "{}") (some signed) (codes "k" ∷ []) 300 500000
        ≡ timestamp_out_of_tolerance)
unfolding verify_webhook_signature
verdicts = (refl, refl, refl)

verify_webhook_signature_iff_example :
    (verify_webhook_signature hmac (codes "{}") (some signed) (codes "k" ∷ []) 300 100000
      ≡ verified 100 0)
    ↔ IsVerified hmac (codes "{}") (some signed) (codes "k" ∷ []) 300 100000 100 0
verify_webhook_signature_iff_example =
    verify_webhook_signature_iff hmac (codes "{}") (some signed) (codes "k" ∷ []) 300 100000 100 0

parse_header-build_signature_header_example :
    parse_header (build_signature_header 100 (repeat 64 b'a' ∷ []))
    ≡ some (100, repeat 64 b'a' ∷ [])
parse_header-build_signature_header_example =
    parse_header-build_signature_header 100 (repeat 64 b'a') [] (refl, tt)

verify_webhook_signature-build_signature_header_example :
    verify_webhook_signature hmac
      (codes "{}")
      (some (
        build_signature_header 100 (
          sign_webhook_payload hmac [] 100 (codes "{}")
          ∷ sign_webhook_payload hmac (codes "k") 100 (codes "{}")
          ∷ [])))
      (codes "k" ∷ [])
      300
      100000
    ≡ verified 100 0
verify_webhook_signature-build_signature_header_example =
    verify_webhook_signature-build_signature_header hmac (codes "{}") 100 300 100000 ([] ∷ []) []
      (codes "k") [] hmac-IsSignature (omega arith)
