-- ===== src/Security/Webhook/Verdict.antt =====
-- What a verification that succeeds means.
use canton_pillar.Base.{
  ◌≡◌, ◌↔◌, refl, ap, sym, ◌∙◌, ℕ, zero, suc, ◌+◌, ◌≤◌, Bool, true, false, Option, none, some, List,
  [], ◌∷◌, Text, if◌then◌else◌, ltb, any, arith, Bool-cases, inl, inr,
}
use canton_pillar.Security.Webhook.{
  sign_webhook_payload, Parsed, parse_header, safe_hex_equals, verified, timestamp_out_of_tolerance,
  try_signatures, try_secrets, age, verdict, verify_parsed, verify_webhook_signature,
}

-- A secret's signature of the body is among those of the header.
abbrev pub matches : (Text → Text → Text) → Text → Parsed → Text → Bool
matches hmac raw_body (t, signatures) secret =
    any (safe_hex_equals (sign_webhook_payload hmac secret t raw_body)) signatures

-- What the loops find, from the position `i` on.
abbrev first_from : (Text → Bool) → ℕ → List Text → Option ℕ
first_from p i [] = none
first_from p i (s ∷ ss) = if p s then some i else first_from p (suc i) ss

try_signatures-found :
    (i j : ℕ) (expected : Text) (ss : List Text) → try_signatures i expected ss (some j) ≡ some j
try_signatures-found i j expected [] = refl
try_signatures-found i j expected (s ∷ ss) = elim (Bool-cases (safe_hex_equals expected s)) [
  | inl e ↦ simp e (try_signatures-found i j expected ss)
  | inr e ↦ simp e (try_signatures-found i j expected ss)
]

try_signatures-none :
    (i : ℕ) (expected : Text) (ss : List Text)
    → try_signatures i expected ss none
      ≡ (if any (safe_hex_equals expected) ss then some i else none)
try_signatures-none i expected [] = refl
try_signatures-none i expected (s ∷ ss) = elim (Bool-cases (safe_hex_equals expected s)) [
  | inl e ↦ simp e (try_signatures-found i i expected ss)
  | inr e ↦ simp e (try_signatures-none i expected ss)
]

module _ (hmac : Text → Text → Text) (raw_body : Text) (t : ℕ) (signatures : List Text) where
  try_secrets-found :
      (i j : ℕ) (secrets : List Text)
      → try_secrets hmac i raw_body (t, signatures) secrets (some j) ≡ some j
  try_secrets-found i j [] = refl
  try_secrets-found i j (secret ∷ secrets) =
      ap (λ o. try_secrets hmac (suc i) raw_body (t, signatures) secrets o)
        (try_signatures-found i j (sign_webhook_payload hmac secret t raw_body) signatures)
      ∙ try_secrets-found (suc i) j secrets

  pub try_secrets-none :
      (i : ℕ) (secrets : List Text)
      → try_secrets hmac i raw_body (t, signatures) secrets none
        ≡ first_from (matches hmac raw_body (t, signatures)) i secrets
  try_secrets-none i [] = refl
  try_secrets-none i (secret ∷ secrets) =
      ap (λ o. try_secrets hmac (suc i) raw_body (t, signatures) secrets o)
        (try_signatures-none i (sign_webhook_payload hmac secret t raw_body) signatures)
      ∙ (elim (Bool-cases (matches hmac raw_body (t, signatures) secret)) [
        | inl e ↦ simp e (try_secrets-found (suc i) i secrets)
        | inr e ↦ simp e (try_secrets-none (suc i) secrets)
      ])

-- The secret at a position matches, and none before it does.
abbrev pub IsFirst : (Text → Bool) → List Text → ℕ → Type 0
IsFirst p [] n = ⊥
IsFirst p (s ∷ ss) zero = p s ≡ true
IsFirst p (s ∷ ss) (suc n) = (p s ≡ false) × IsFirst p ss n

first_from-IsFirst :
    (p : Text → Bool) (i j : ℕ) (ss : List Text)
    → first_from p i ss ≡ some j
    → (n : ℕ) × (j ≡ i + n) × IsFirst p ss n
first_from-IsFirst p i j [] h = absurd (ground arith)
first_from-IsFirst p i j (s ∷ ss) h = elim (Bool-cases (p s)) [
  | inl e ↦ (0, ground arith, e)
  | inr e ↦
      let (n, at, first) = first_from-IsFirst p (suc i) j ss (simp e at h) in
      (suc n, omega (arith, at), (e, first))
]

IsFirst-first_from :
    (p : Text → Bool) (i n : ℕ) (ss : List Text) → IsFirst p ss n → first_from p i ss ≡ some (i + n)
IsFirst-first_from p i n [] h = elim h [ ]
IsFirst-first_from p i zero (s ∷ ss) h = ground arith
IsFirst-first_from p i (suc n) (s ∷ ss) (e, h) =
    simp e (ground (arith, IsFirst-first_from p (suc i) n ss h))

-- What a header and the secrets say, given the signatures that the header parses to.
pub record IsVerified (hmac : Text → Text → Text) (raw_body : Text) (header : Option Text)
    (secrets : List Text) (tolerance now_ms t n : ℕ) : Type 0 where
  pub text : Text
  pub given : header ≡ some text
  pub signatures : List Text
  pub parsed : parse_header text ≡ some (t, signatures)
  pub in_time : age now_ms t ≤ tolerance
  pub first : IsFirst (matches hmac raw_body (t, signatures)) secrets n

verify_parsed-verified :
    (hmac : Text → Text → Text) (raw_body header : Text) (secrets : List Text)
    (tolerance now_ms t n : ℕ) (o : Option Parsed)
    → parse_header header ≡ o
    → verify_parsed hmac raw_body secrets tolerance now_ms o ≡ verified t n
    → IsVerified hmac raw_body (some header) secrets tolerance now_ms t n
verify_parsed-verified hmac raw_body header secrets tolerance now_ms t n none e h =
    absurd (ground arith)
verify_parsed-verified hmac raw_body header secrets tolerance now_ms t n (some (u, signatures)) e
      h =
    elim (Bool-cases (ltb tolerance (age now_ms u))) [
      | inl late ↦ absurd (ground arith)
      | inr timely ↦
          go (first_from (matches hmac raw_body (u, signatures)) 0 secrets) refl
            (ap (verdict u) (sym (try_secrets-none hmac raw_body u signatures 0 secrets))
              ∙ (simp timely at h))
            timely
    ]
  where
    go :
        (f : Option ℕ)
        → first_from (matches hmac raw_body (u, signatures)) 0 secrets ≡ f
        → verdict u f ≡ verified t n
        → ltb tolerance (age now_ms u) ≡ false
        → IsVerified hmac raw_body (some header) secrets tolerance now_ms t n
    go none q k timely = absurd (ground arith)
    go (some j) q k timely =
        let same : u ≡ t = ground arith in
        let place : j ≡ n = ground arith in
        let (m, at, first) =
          first_from-IsFirst (matches hmac raw_body (u, signatures)) 0 j secrets q in
        let here : m ≡ n = omega (arith, at, place) in
        record {
          text = header;
          given = refl;
          signatures = signatures;
          parsed = e ∙ ap (λ x. some (x, signatures)) same;
          in_time = ground arith;
          first = rw (← here, ← same) first;
        }

verified-verify_parsed :
    (hmac : Text → Text → Text) (raw_body header : Text) (secrets : List Text)
    (tolerance now_ms t n : ℕ)
    → IsVerified hmac raw_body (some header) secrets tolerance now_ms t n
    → verify_parsed hmac raw_body secrets tolerance now_ms (parse_header header) ≡ verified t n
verified-verify_parsed hmac raw_body header secrets tolerance now_ms t n v =
    let given : header ≡ v.text = ground (arith, v.given) in
    let p = matches hmac raw_body (t, v.signatures) in
    let timely : ltb tolerance (age now_ms t) ≡ false = ground (arith, v.in_time) in
    ap (verify_parsed hmac raw_body secrets tolerance now_ms) (ap parse_header given ∙ v.parsed)
    ∙ ap
        (λ b.
          if b
          then timestamp_out_of_tolerance
          else verdict t (try_secrets hmac 0 raw_body (t, v.signatures) secrets none))
        timely
    ∙ ap (verdict t) (
        try_secrets-none hmac raw_body t v.signatures 0 secrets
        ∙ IsFirst-first_from p 0 n secrets v.first
        ∙ ap some (let e : 0 + n ≡ n = omega arith in e))

-- An empty header does not parse.
not_empty : (s : Text) {p : Parsed} → [] ≡ s → parse_header s ≡ some p → ⊥
unfolding parse_header
not_empty [] e h = absurd (ground arith)
not_empty (c ∷ s) e h = absurd (ground arith)

-- A signature is reported as verified exactly for a header that parses, whose timestamp is within
-- the tolerance of the clock, and among whose signatures is that of the body by the secret at the
-- reported position, and by no secret before it.
pub verify_webhook_signature_iff :
    (hmac : Text → Text → Text) (raw_body : Text) (header : Option Text) (secrets : List Text)
    (tolerance now_ms t n : ℕ)
    → (verify_webhook_signature hmac raw_body header secrets tolerance now_ms ≡ verified t n)
      ↔ IsVerified hmac raw_body header secrets tolerance now_ms t n
unfolding verify_webhook_signature
verify_webhook_signature_iff hmac raw_body none secrets tolerance now_ms t n =
    (λ h. absurd (ground arith), λ v. absurd (ground (arith, v.given)))
verify_webhook_signature_iff hmac raw_body (some []) secrets tolerance now_ms t n =
    (λ h. absurd (ground arith), λ v. absurd (not_empty v.text (ground (arith, v.given)) v.parsed))
verify_webhook_signature_iff hmac raw_body (some (c ∷ header)) [] tolerance now_ms t n =
    (λ h. absurd (ground arith), λ v. elim v.first [ ])
verify_webhook_signature_iff hmac raw_body (some (c ∷ header)) (secret ∷ secrets) tolerance now_ms t
      n =
    (
      verify_parsed-verified hmac raw_body (c ∷ header) (secret ∷ secrets) tolerance now_ms t n
          (parse_header (c ∷ header)) refl,
      λ v.
          verified-verify_parsed hmac raw_body (c ∷ header) (secret ∷ secrets) tolerance now_ms t n
            v,
    )
