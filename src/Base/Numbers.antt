-- ===== src/Base/Numbers.antt =====
-- `String(n)` and `Number(s)` for natural numbers, in decimal digits; the laws of `split` and `join`.
use Prim.Native.Nat.{ℕ, zero, suc, ◌+◌, ◌-◌, ◌*◌, ◌/◌, ◌%◌, ◌<◌}
use mathlib.Core.Path.{◌≡◌, refl, ap, ◌∙◌}
use mathlib.Core.Bool.{true, false}
use mathlib.Core.Logic.{inl, inr}
use mathlib.Core.List.{List, [], ◌∷◌, ◌++◌}
use native.Mathlib.Omega.{arith}
use canton_pillar.Base.Tests.{ltb, ◌==◌, if◌then◌else◌, Bool-cases}
use canton_pillar.Base.Lists.{All, All-append}
use canton_pillar.Base.Strings.{Text, is_digit, split, join}

-- The last digit goes last; `fuel` exceeds the number.
digits : ℕ → ℕ → Text
digits zero n = []
digits (suc fuel) n =
    let front = digits fuel (n / 10) in
    if ltb n 10 then (b'0' + n) ∷ [] else front ++ (b'0' + n % 10) ∷ []

unfoldable pub decimal : ℕ → Text
unfolding digits
decimal n = digits (suc n) n

abbrev pub number_from : ℕ → Text → ℕ
number_from acc [] = acc
number_from acc (c ∷ s) = number_from (acc * 10 + (c - b'0')) s

abbrev pub number : Text → ℕ
number = number_from 0

number_from-append :
    (acc : ℕ) (s : Text) (c : ℕ)
    → number_from acc (s ++ c ∷ []) ≡ number_from acc s * 10 + (c - b'0')
number_from-append acc [] c = refl
number_from-append acc (d ∷ s) c = number_from-append (acc * 10 + (d - b'0')) s c

number-digits : (fuel n : ℕ) → n < fuel → number (digits fuel n) ≡ n
unfolding digits
number-digits zero n h = absurd (omega arith)
number-digits (suc fuel) n h = elim (Bool-cases (ltb n 10)) [
  | inl small ↦ simp small (ground arith)
  | inr large ↦
      let rest = number-digits fuel (n / 10) (ground arith) in
      simp large (ground (arith, rest, number_from-append 0 (digits fuel (n / 10)) (b'0' + n % 10)))
]

-- Reading back the digits of a number.
pub number-decimal : (n : ℕ) → number (decimal n) ≡ n
unfolding decimal
number-decimal n = number-digits (suc n) n (omega arith)

abbrev pub IsDigit : ℕ → Type 0
IsDigit c = is_digit c ≡ true

digits-All : (fuel n : ℕ) → All IsDigit (digits fuel n)
unfolding digits
digits-All zero n = tt
digits-All (suc fuel) n = elim (Bool-cases (ltb n 10)) [
  | inl small ↦ simp small (ground arith, tt)
  | inr large ↦
      simp large
        (All-append IsDigit (digits fuel (n / 10)) _ (digits-All fuel (n / 10)) (ground arith, tt))
]

pub decimal-All : (n : ℕ) → All IsDigit (decimal n)
unfolding decimal
decimal-All n = digits-All (suc n) n

digits-cons : (fuel n : ℕ) → n < fuel → (c : ℕ) × (s : Text) × (digits fuel n ≡ c ∷ s)
unfolding digits
digits-cons zero n h = absurd (omega arith)
digits-cons (suc fuel) n h = elim (Bool-cases (ltb n 10)) [
  | inl small ↦ simp small (b'0' + n, [], refl)
  | inr large ↦
      let (c, s, e) = digits-cons fuel (n / 10) (ground arith) in
      simp large (c, s ++ (b'0' + n % 10) ∷ [], ap (λ x. x ++ (b'0' + n % 10) ∷ []) e)
]

pub decimal-cons : (n : ℕ) → (c : ℕ) × (s : Text) × (decimal n ≡ c ∷ s)
unfolding decimal
decimal-cons n = digits-cons (suc n) n (omega arith)

-- No unit of the text is the separator.
abbrev pub Lacks : ℕ → Text → Type 0
Lacks sep s = All (λ c. (c == sep) ≡ false) s

split-Lacks : (sep : ℕ) (w : Text) → Lacks sep w → split sep w ≡ w ∷ []
split-Lacks sep [] h = refl
split-Lacks sep (c ∷ w) (p, h) = simp (p, split-Lacks sep w h)

split-append : (sep : ℕ) (w s : Text) → Lacks sep w → split sep (w ++ sep ∷ s) ≡ w ∷ split sep s
split-append sep [] s h = ground arith
split-append sep (c ∷ w) s (p, h) = simp (p, split-append sep w s h)

pub split-join :
    (sep : ℕ) (w : Text) (ws : List Text)
    → All (Lacks sep) (w ∷ ws)
    → split sep (join sep (w ∷ ws)) ≡ w ∷ ws
split-join sep w [] (h, _) = split-Lacks sep w h
split-join sep w (v ∷ ws) (h, hs) =
    split-append sep w (join sep (v ∷ ws)) h ∙ ap (λ l. w ∷ l) (split-join sep v ws hs)
