-- ===== src/Api/PathTemplate/Fuel.antt =====
-- The fuel of the two replacements of a path template.
use canton_pillar.Base.{
  ◌≡◌, refl, ap, inl, inr, ℕ, zero, suc, ◌≤◌, Bool, ◌&&◌, ◌||◌, Option, none, some, [], ◌∷◌, ◌++◌,
  Text, codes, ◌==◌, length, arith, Bool-cases,
}
use canton_pillar.Api.PathTemplate.{
  is_letter, is_word, span, braces_from, braces, after_underscore, after_letters, identifier_rest,
  ids_from, ids,
}

length-span : (p : ℕ → Bool) (s : Text) → length (span p s).1 ≤ length s
length-span p [] = omega arith
length-span p (c ∷ s) = elim (Bool-cases (p c)) [
  | inl e ↦ simp e (omega (arith, length-span p s))
  | inr e ↦ simp e (omega arith)
]

-- What is left to replace after an identifier is no longer than the text.
abbrev Shorter : ℕ → Option Text → Type 0
Shorter n none = Unit
Shorter n (some rest) = length rest ≤ n

after_underscore-Shorter : (n : ℕ) (s : Text) → length s ≤ n → Shorter n (after_underscore s)
after_underscore-Shorter n [] h = tt
after_underscore-Shorter n (c ∷ s) h = elim (Bool-cases (is_word c)) [
  | inl e ↦ simp e (omega (arith, h, length-span is_word s))
  | inr e ↦ simp e tt
]

after_letters-Shorter : (n : ℕ) (x : Text × Text) → length x.1 ≤ n → Shorter n (after_letters x)
after_letters-Shorter n ([], rest) h = tt
after_letters-Shorter n (c ∷ letters, []) h = tt
after_letters-Shorter n (c ∷ letters, d ∷ rest) h = elim (Bool-cases (d == b'_')) [
  | inl e ↦ simp e (after_underscore-Shorter n rest (omega (arith, h)))
  | inr e ↦ simp e tt
]

ids_from-enough : (f g : ℕ) (s : Text) → length s ≤ f → length s ≤ g → ids_from f s ≡ ids_from g s
unfolding ids_from
ids_from-enough zero zero s h k = refl
ids_from-enough zero (suc g) [] h k = refl
ids_from-enough zero (suc g) (c ∷ s) h k = absurd (omega arith)
ids_from-enough (suc f) zero [] h k = refl
ids_from-enough (suc f) zero (c ∷ s) h k = absurd (omega arith)
ids_from-enough (suc f) (suc g) [] h k = refl
ids_from-enough (suc f) (suc g) (c ∷ s) h k =
    let plain = ap (λ l. c ∷ l) (ids_from-enough f g s (omega (arith, h)) (omega (arith, k))) in
    elim (Bool-cases (c == b'/')) [
      | inl e ↦ simp e (
          by_rest (λ t m. ids_from-enough f g t (omega (arith, h, m)) (omega (arith, k, m)))
            (identifier_rest s)
            (after_letters-Shorter (length s) (span is_letter s) (length-span is_letter s)))
      | inr e ↦ simp e plain
    ]
  where
    replaced : ℕ → Option Text → Text
    replaced fuel none = c ∷ ids_from fuel s
    replaced fuel (some rest) = codes "/{id}" ++ ids_from fuel rest

    by_rest :
        ((t : Text) → length t ≤ length s → ids_from f t ≡ ids_from g t)
        → (o : Option Text) → Shorter (length s) o
        → replaced f o ≡ replaced g o
    by_rest again none _ = ap (λ l. c ∷ l) (again s (omega arith))
    by_rest again (some rest) short = ap (λ l. codes "/{id}" ++ l) (again rest short)

braces_from-enough :
    (f g : ℕ) (s : Text) → length s ≤ f → length s ≤ g → braces_from f s ≡ braces_from g s
unfolding braces_from
braces_from-enough zero zero s h k = refl
braces_from-enough zero (suc g) [] h k = refl
braces_from-enough zero (suc g) (c ∷ s) h k = absurd (omega arith)
braces_from-enough (suc f) zero [] h k = refl
braces_from-enough (suc f) zero (c ∷ s) h k = absurd (omega arith)
braces_from-enough (suc f) (suc g) [] h k = refl
braces_from-enough (suc f) (suc g) (c ∷ []) h k = refl
braces_from-enough (suc f) (suc g) (c ∷ d ∷ s) h k =
    let found = span is_word (d ∷ s) in
    let short : length found.1 ≤ suc (length s) = length-span is_word (d ∷ s) in
    let named =
      braces_from-enough f g found.1 (omega (arith, h, short)) (omega (arith, k, short)) in
    let plain = braces_from-enough f g (d ∷ s) (omega (arith, h)) (omega (arith, k)) in
    elim (Bool-cases ((c == b':') && (is_letter d || (d == b'_')))) [
      | inl e ↦ simp e (ap (λ l. b'{' ∷ (found.0 ++ b'}' ∷ l)) named)
      | inr e ↦ simp e (ap (λ l. c ∷ l) plain)
    ]

-- The two replacements of a path template end within one step for each unit of the text: with any
-- fuel that is at least the length, they give the text that they give with the length itself.
ids_from-ids :
    (fuel : ℕ) (s : Text)
    → length s ≤ fuel
    → (ids_from fuel s ≡ ids s) × (braces_from fuel s ≡ braces s)
unfolding ids braces
ids_from-ids fuel s h = (
  ids_from-enough fuel (length s) s h (omega arith),
  braces_from-enough fuel (length s) s h (omega arith),
)
