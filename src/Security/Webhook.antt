-- ===== src/Security/Webhook.antt =====
-- packages/security/src/webhook/sign.ts and verify.ts. `hmac secret message` is node's HMAC-SHA256 in
-- hexadecimal digits; bodies are texts of bytes, and timestamps are numbers that JavaScript holds
-- exactly (below 2^53).
pub mod Verdict
pub mod Roundtrip
use canton_pillar.Base.{
  ◌≡◌, refl, ℕ, zero, suc, ◌+◌, ◌-◌, ◌*◌, ◌/◌, Bool, true, false, ◌&&◌, ◌||◌, not, Option, none,
  some, List, [], ◌∷◌, ◌++◌, map, Text, Result, ok, err, if◌then◌else◌, ltb, leb, ◌==◌, codes,
  text_eq, starts_with, find, keep, any, drop, length, split, join, is_digit, decimal, number,
  is_some,
}

-- The decimal number and the point before the body are hashed too.
unfoldable pub sign_webhook_payload : (Text → Text → Text) → Text → ℕ → Text → Text
sign_webhook_payload hmac secret timestamp raw_body =
    hmac secret (decimal timestamp ++ b'.' ∷ raw_body)

unfoldable pub build_signature_header : ℕ → List Text → Text
build_signature_header timestamp signatures =
    codes "t=" ++ (decimal timestamp ++ b',' ∷ join b',' (map (λ s. codes "v1=" ++ s) signatures))

-- The form that takes an array of signatures with their timestamps; the first timestamp counts.
unfoldable pub build_from_array : List (ℕ × Text) → Result Text Text
unfolding build_signature_header
build_from_array [] = err (codes "at least one signature is required")
build_from_array ((t, s) ∷ rest) = ok (build_signature_header t (s ∷ map (λ x. x.1) rest))

abbrev pub all_units : (ℕ → Bool) → Text → Bool
all_units p [] = true
all_units p (c ∷ s) = p c && all_units p s

abbrev pub is_hex : ℕ → Bool
is_hex c = is_digit c || (leb b'a' c && leb c b'f') || (leb b'A' c && leb c b'F')

-- `/^[0-9a-f]{64}$/i`.
abbrev pub is_signature : Text → Bool
is_signature s = (length s == 64) && all_units is_hex s

-- `!ts || !/^\d+$/.test(ts)`.
abbrev pub timestamp_of : Option Text → Option ℕ
timestamp_of none = none
timestamp_of (some part) =
    if text_eq (drop 2 part) []
    then none
    else if all_units is_digit (drop 2 part)
    then some (number (drop 2 part))
    else none

abbrev pub Parsed : Type 0
Parsed = ℕ × List Text

abbrev pub with_signatures : List Text → Option ℕ → Option Parsed
with_signatures signatures none = none
with_signatures signatures (some t) =
    if length signatures == 0
    then none
    else if any (λ s. not (is_signature s)) signatures
    then none
    else some (t, signatures)

unfoldable pub parse_header : Text → Option Parsed
parse_header header =
    let parts = split b',' header in
    with_signatures (map (drop 3) (keep (starts_with (codes "v1=")) parts))
      (timestamp_of (find (starts_with (codes "t=")) parts))

-- `Buffer.from(s, 'hex')`, which ends at the first pair that is not hexadecimal.
abbrev pub hex_value : ℕ → ℕ
hex_value c = if is_digit c then c - b'0' else if leb b'a' c then c - 87 else c - 55

abbrev pub from_hex : Text → List ℕ
from_hex [] = []
from_hex (c ∷ []) = []
from_hex (c ∷ d ∷ s) =
    if is_hex c && is_hex d then (hex_value c * 16 + hex_value d) ∷ from_hex s else []

unfoldable pub safe_hex_equals : Text → Text → Bool
safe_hex_equals a b =
    (length (from_hex a) == length (from_hex b)) && text_eq (from_hex a) (from_hex b)

pub data Verification : Type 0 where
  verified : (timestamp matched_secret_index : ℕ) → Verification
  malformed_header timestamp_out_of_tolerance no_matching_signature : Verification

-- `if (matchedSecretIndex < 0) matchedSecretIndex = i`.
abbrev pub or_index : ℕ → Option ℕ → Option ℕ
or_index i none = some i
or_index i (some j) = some j

-- The loop over the signatures, for one secret.
abbrev pub try_signatures : ℕ → Text → List Text → Option ℕ → Option ℕ
try_signatures i expected [] found = found
try_signatures i expected (s ∷ ss) found =
    try_signatures i expected ss (if safe_hex_equals expected s then or_index i found else found)

abbrev pub age : ℕ → ℕ → ℕ
age now_ms t = (now_ms / 1000 - t) + (t - now_ms / 1000)

abbrev pub verdict : ℕ → Option ℕ → Verification
verdict t none = no_matching_signature
verdict t (some i) = verified t i

module _ (hmac : Text → Text → Text) where
  -- The loop over the secrets.
  abbrev pub try_secrets : ℕ → Text → Parsed → List Text → Option ℕ → Option ℕ
  try_secrets i raw_body (t, signatures) [] found = found
  try_secrets i raw_body (t, signatures) (secret ∷ secrets) found =
      try_secrets (suc i) raw_body (t, signatures) secrets
        (try_signatures i (sign_webhook_payload hmac secret t raw_body) signatures found)

  abbrev pub verify_parsed :
      Text → List Text → (tolerance now_ms : ℕ) → Option Parsed → Verification
  verify_parsed raw_body secrets tolerance now_ms none = malformed_header
  verify_parsed raw_body secrets tolerance now_ms (some (t, signatures)) =
      if ltb tolerance (age now_ms t)
      then timestamp_out_of_tolerance
      else verdict t (try_secrets 0 raw_body (t, signatures) secrets none)

  -- `!header` holds for a missing and for an empty header.
  unfoldable pub verify_webhook_signature :
      Text → Option Text → List Text → (tolerance now_ms : ℕ) → Verification
  unfolding parse_header safe_hex_equals sign_webhook_payload
  verify_webhook_signature raw_body none secrets tolerance now_ms = malformed_header
  verify_webhook_signature raw_body (some []) secrets tolerance now_ms = malformed_header
  verify_webhook_signature raw_body (some (c ∷ header)) [] tolerance now_ms = malformed_header
  verify_webhook_signature raw_body (some (c ∷ header)) (secret ∷ secrets) tolerance now_ms =
      verify_parsed raw_body (secret ∷ secrets) tolerance now_ms (parse_header (c ∷ header))
