-- ===== src/Web/Generate/Keys.antt =====
-- What the mock keys are made of.
use canton_pillar.Base.{
  ◌≡◌, refl, ap, ◌∙◌, ℕ, zero, suc, ◌+◌, ◌-◌, ◌*◌, ◌%◌, ◌<◌, Bool, true, ◌&&◌, [], ◌∷◌, ◌++◌, Text,
  some, length, length-drop, ltb, arith, All, any, ◌==◌,
}
use canton_pillar.Web.Generate.{
  pos, to_int32, next_seed, ulid_char, ulid_loop, generate_mock_ulid, char_at, appended,
  ulid_alphabet, body_chars, generate_random_body, ApiPrefix, MockApiKey, value_prefix, Draws,
  last_four, create_mock_keys,
}

abbrev pub every : (ℕ → Bool) → Text → Bool
every p [] = true
every p (c ∷ s) = p c && every p s

pub every-append :
    (p : ℕ → Bool) (s t : Text) → every p s ≡ true → every p t ≡ true → every p (s ++ t) ≡ true
every-append p [] t h k = k
every-append p (c ∷ s) t h k = ground (arith, every-append p s t)

every-char_at :
    (p : ℕ → Bool) (s : Text) (i : ℕ)
    → every p s ≡ true
    → i < length s
    → (c : ℕ) × (char_at s i ≡ some c) × (p c ≡ true)
every-char_at p [] i h k = absurd (omega arith)
every-char_at p (c ∷ s) zero h k = (c, refl, ground arith)
every-char_at p (c ∷ s) (suc i) h k = every-char_at p s i (ground arith) (omega arith)

-- A text of n units that all pass the test.
abbrev pub IsOf : (ℕ → Bool) → ℕ → Text → Type 0
IsOf p n s = (every p s ≡ true) × (length s ≡ n)

IsOf-cons :
    (p : ℕ → Bool) (n i : ℕ) (alphabet rest : Text)
    → every p alphabet ≡ true
    → i < length alphabet
    → IsOf p n rest
    → IsOf p (suc n) (appended (char_at alphabet i) ++ rest)
IsOf-cons p n i alphabet rest h k (e, l) =
    let (c, found, good) = every-char_at p alphabet i h k in simp (found, good, e, l) (refl, refl)

abbrev pub is_ulid_char : ℕ → Bool
is_ulid_char c = any (λ d. d == c) ulid_alphabet

ulid_loop-IsOf : (n s : ℕ) → IsOf is_ulid_char n (ulid_loop n (pos s))
unfolding ulid_loop ulid_char next_seed
ulid_loop-IsOf zero s = (refl, refl)
ulid_loop-IsOf (suc n) s =
    let t = (s * 48271 + 1013904223) % 2147483647 in
    IsOf-cons is_ulid_char n (t % 32) ulid_alphabet _ refl (omega arith) (ulid_loop-IsOf n t)

-- The identifier of a mock key has 26 units, all of them from the alphabet, when bit 31 of the sum of
-- the clock and the random number is clear.
pub generate_mock_ulid-IsOf :
    (now random : ℕ)
    → (now + random) % 4294967296 < 2147483648
    → IsOf is_ulid_char 26 (generate_mock_ulid now random)
unfolding generate_mock_ulid to_int32
generate_mock_ulid-IsOf now random h =
    let e : ltb ((now + random) % 4294967296) 2147483648 ≡ true = ground arith in
    simp e (ulid_loop-IsOf 26 ((now + random) % 4294967296))

-- The documented range of `Math.floor(Math.random() * n)`.
abbrev pub IsBelow : (ℕ → ℕ → ℕ) → Type 0
IsBelow random = (i n : ℕ) → 0 < n → random i n < n

abbrev pub is_body_char : ℕ → Bool
is_body_char c = any (λ d. d == c) body_chars

pub generate_random_body-IsOf :
    (random : ℕ → ℕ → ℕ)
    → IsBelow random
    → (n : ℕ) → IsOf is_body_char n (generate_random_body random n)
unfolding generate_random_body
generate_random_body-IsOf random h zero = (refl, refl)
generate_random_body-IsOf random h (suc n) =
    IsOf-cons is_body_char n (random n 62) body_chars _ refl (h n 62 (omega arith))
      (generate_random_body-IsOf random h n)

-- A key whose value is the prefix of its kind and 32 units of the alphabet, of which it shows the
-- last four.
abbrev pub IsIssued : MockApiKey → Type 0
IsIssued key =
    (body : Text) × IsOf is_body_char 32 body
    × (key.value ≡ value_prefix key.prefix ++ body)
    × (key.last4 ≡ last_four key.value)
    × (length key.last4 ≡ 4)

last_four-body :
    (p : ApiPrefix) (body : Text)
    → length body ≡ 32
    → (last_four body ≡ last_four (value_prefix p ++ body)) × (length (last_four body) ≡ 4)
last_four-body ApiPrefix.secret_test body h = rw h (refl, length-drop 28 body ∙ ap (λ n. n - 28) h)
last_four-body ApiPrefix.restricted_test body h =
    rw h (refl, length-drop 28 body ∙ ap (λ n. n - 28) h)
last_four-body ApiPrefix.publishable_test body h =
    rw h (refl, length-drop 28 body ∙ ap (λ n. n - 28) h)

pub create_mock_keys-IsIssued :
    (draws : Draws)
    → ((p : ApiPrefix) → IsBelow (draws.random_body p))
    → All IsIssued (create_mock_keys draws)
unfolding create_mock_keys
create_mock_keys-IsIssued draws h = (
  one ApiPrefix.secret_test,
  (one ApiPrefix.restricted_test, (one ApiPrefix.publishable_test, tt)),
)
  where
    one :
        (p : ApiPrefix)
        → (body : Text) × IsOf is_body_char 32 body
          × (value_prefix p ++ generate_random_body (draws.random_body p) 32
              ≡ value_prefix p ++ body)
          × (last_four (generate_random_body (draws.random_body p) 32)
              ≡ last_four (value_prefix p ++ generate_random_body (draws.random_body p) 32))
          × (length (last_four (generate_random_body (draws.random_body p) 32)) ≡ 4)
    one p =
        let body = generate_random_body (draws.random_body p) 32 in
        let good = generate_random_body-IsOf (draws.random_body p) (h p) 32 in
        let (same, four) = last_four-body p body good.1 in (body, good, refl, same, four)
