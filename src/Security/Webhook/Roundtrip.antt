-- ===== src/Security/Webhook/Roundtrip.antt =====
-- A header that is built, as it is parsed and verified.
use canton_pillar.Base.{
  ◌≡◌, refl, ap, ◌∙◌, ℕ, ◌≤◌, Bool, true, false, not, some, List, [], ◌∷◌, ◌++◌, map, Text, ◌==◌,
  any, arith, All, length, keep, drop, find, starts_with, codes, text_eq, text_eq_refl, is_digit,
  decimal, number-decimal, decimal-All, decimal-cons, IsDigit, Lacks, split-join, &&-true,
}
use canton_pillar.Security.Webhook.{
  sign_webhook_payload, build_signature_header, parse_header, safe_hex_equals, verified,
  timestamp_of, with_signatures, all_units, is_hex, is_signature, age, from_hex,
  verify_webhook_signature,
}
use canton_pillar.Security.Webhook.Verdict.{verify_webhook_signature_iff}

abbrev pub IsSignature : Text → Type 0
IsSignature s = is_signature s ≡ true

abbrev v1 : Text → Text
v1 s = codes "v1=" ++ s

starts_with-empty : (s : Text) → starts_with [] s ≡ true
starts_with-empty [] = refl
starts_with-empty (c ∷ s) = refl

values-v1 : (ss : List Text) → map (drop 3) (keep (starts_with (codes "v1=")) (map v1 ss)) ≡ ss
values-v1 [] = refl
values-v1 (s ∷ ss) = simp (starts_with-empty s, values-v1 ss)

all_units-IsDigit : (s : Text) → All IsDigit s → all_units is_digit s ≡ true
all_units-IsDigit [] h = refl
all_units-IsDigit (c ∷ s) (p, h) = simp (p, all_units-IsDigit s h)

digits-Lacks : (s : Text) → All IsDigit s → Lacks b',' s
digits-Lacks [] h = tt
digits-Lacks (c ∷ s) (p, h) = (ground arith, digits-Lacks s h)

hex-Lacks : (s : Text) → all_units is_hex s ≡ true → Lacks b',' s
hex-Lacks [] h = tt
hex-Lacks (c ∷ s) h =
    let (p, q) = &&-true (is_hex c) (all_units is_hex s) h in (ground arith, hex-Lacks s q)

v1-Lacks : (ss : List Text) → All IsSignature ss → All (Lacks b',') (map v1 ss)
v1-Lacks [] h = tt
v1-Lacks (s ∷ ss) (p, h) =
    let (long, hex) = &&-true (length s == 64) (all_units is_hex s) p in
    ((refl, (refl, (refl, hex-Lacks s hex))), v1-Lacks ss h)

no_malformed : (ss : List Text) → All IsSignature ss → any (λ s. not (is_signature s)) ss ≡ false
no_malformed [] h = refl
no_malformed (s ∷ ss) (p, h) = ground (arith, p, no_malformed ss h)

timestamp_of-decimal : (t : ℕ) → timestamp_of (some (codes "t=" ++ decimal t)) ≡ some t
timestamp_of-decimal t =
    let (c, s, e) = decimal-cons t in
    let filled : text_eq (decimal t) [] ≡ false = ap (λ x. text_eq x []) e in
    simp (filled, all_units-IsDigit (decimal t) (decimal-All t), number-decimal t)

starts_with-t : (t : ℕ) → starts_with (codes "t=") (codes "t=" ++ decimal t) ≡ true
starts_with-t t = ground (arith, starts_with-empty (decimal t))

-- A header that is built from a timestamp and at least one well-formed signature parses back to
-- them, in their order.
pub parse_header-build_signature_header :
    (t : ℕ) (s : Text) (ss : List Text)
    → All IsSignature (s ∷ ss)
    → parse_header (build_signature_header t (s ∷ ss)) ≡ some (t, s ∷ ss)
unfolding parse_header build_signature_header
parse_header-build_signature_header t s ss h =
    let parts = (codes "t=" ++ decimal t) ∷ map v1 (s ∷ ss) in
    let cut =
      split-join b',' (codes "t=" ++ decimal t) (map v1 (s ∷ ss))
        ((refl, (refl, digits-Lacks (decimal t) (decimal-All t))), v1-Lacks (s ∷ ss) h) in
    let filled : (length (s ∷ ss) == 0) ≡ false = ground arith in
    let stamp : timestamp_of (find (starts_with (codes "t=")) parts) ≡ some t =
      simp (starts_with-t t) (timestamp_of-decimal t) in
    ap
      (λ ps.
        with_signatures (map (drop 3) (keep (starts_with (codes "v1=")) ps))
          (timestamp_of (find (starts_with (codes "t=")) ps)))
      cut
    ∙ ap (λ o. with_signatures (map (drop 3) (keep (starts_with (codes "v1=")) parts)) o) stamp
    ∙ ap (λ l. with_signatures l (some t)) (values-v1 (s ∷ ss))
    ∙ simp (no_malformed (s ∷ ss) h, filled)

safe_hex_equals_refl : (s : Text) → safe_hex_equals s s ≡ true
unfolding safe_hex_equals
safe_hex_equals_refl s =
    let same : (length (from_hex s) == length (from_hex s)) ≡ true = ground arith in
    simp (text_eq_refl (from_hex s), same)

any-append_head :
    (p : Text → Bool) (xs : List Text) (y : Text) (ys : List Text)
    → p y ≡ true
    → any p (xs ++ y ∷ ys) ≡ true
any-append_head p [] y ys h = simp h
any-append_head p (x ∷ xs) y ys h = ground (arith, any-append_head p xs y ys h)

map-append :
    (f : Text → Text) (xs : List Text) (y : Text) (ys : List Text)
    → map f (xs ++ y ∷ ys) ≡ map f xs ++ f y ∷ map f ys
map-append f [] y ys = refl
map-append f (x ∷ xs) y ys = ap (λ l. f x ∷ l) (map-append f xs y ys)

map-All :
    (f : Text → Text) (xs : List Text)
    → ((x : Text) → IsSignature (f x))
    → All IsSignature (map f xs)
map-All f [] h = tt
map-All f (x ∷ xs) h = (h x, map-All f xs h)

parsed_signers :
    (t : ℕ) (sign : Text → Text) (first rest : List Text) (secret : Text)
    → ((k : Text) → IsSignature (sign k))
    → parse_header (build_signature_header t (map sign (first ++ secret ∷ rest)))
      ≡ some (t, map sign (first ++ secret ∷ rest))
parsed_signers t sign [] rest secret wide =
    parse_header-build_signature_header t (sign secret) (map sign rest)
      (map-All sign (secret ∷ rest) wide)
parsed_signers t sign (k ∷ first) rest secret wide =
    parse_header-build_signature_header t (sign k) (map sign (first ++ secret ∷ rest))
      (map-All sign (k ∷ first ++ secret ∷ rest) wide)

-- If HMAC gives 64 hexadecimal digits, then a header that signs a body with several secrets, as
-- while a secret is rotated, is verified by whoever holds one of them first, within the tolerance.
pub verify_webhook_signature-build_signature_header :
    (hmac : Text → Text → Text) (raw_body : Text) (t tolerance now_ms : ℕ) (first rest : List Text)
    (secret : Text) (others : List Text)
    → ((k m : Text) → IsSignature (hmac k m))
    → age now_ms t ≤ tolerance
    → let sign : Text → Text = λ k. sign_webhook_payload hmac k t raw_body in
      verify_webhook_signature hmac raw_body
        (some (build_signature_header t (map sign (first ++ secret ∷ rest))))
        (secret ∷ others)
        tolerance
        now_ms
      ≡ verified t 0
verify_webhook_signature-build_signature_header hmac raw_body t tolerance now_ms first rest secret
      others wide timely =
    let sign : Text → Text = λ k. sign_webhook_payload hmac k t raw_body in
    let sigs = map sign (first ++ secret ∷ rest) in
    let same_as = safe_hex_equals (sign secret) in
    let signs : (k : Text) → IsSignature (sign k) =
      λ k. unfold sign_webhook_payload in wide k (decimal t ++ b'.' ∷ raw_body) in
    (verify_webhook_signature_iff hmac raw_body (some (build_signature_header t sigs))
        (secret ∷ others) tolerance now_ms t 0).1
      (record {
        text = build_signature_header t sigs;
        given = refl;
        signatures = sigs;
        parsed = parsed_signers t sign first rest secret signs;
        in_time = timely;
        first =
            ap (any same_as) (map-append sign first secret rest)
            ∙ any-append_head same_as (map sign first) (sign secret) (map sign rest)
                (safe_hex_equals_refl (sign secret));
      })
