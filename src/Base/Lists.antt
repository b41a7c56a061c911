-- ===== src/Base/Lists.antt =====
-- Arrays as lists, measured by native numbers; `All` and `Any` by recursion.
use Prim.Native.Nat.{ℕ, zero, suc, ◌+◌, ◌-◌, ◌≤◌, min}
use mathlib.Core.Path.{◌≡◌, refl, ap}
use mathlib.Core.Bool.{Bool, true, false, ◌||◌}
use mathlib.Core.Logic.{◌⊎◌, inl, inr}
use mathlib.Core.List.{List, [], ◌∷◌, ◌++◌, map}
use mathlib.Core.Option.{Option, none, some}
use native.Mathlib.Omega.{arith}
use canton_pillar.Base.Tests.{if◌then◌else◌, Bool-cases, ltb}

module _ {ℓ} {A : Type ℓ} where
  abbrev pub length : List A → ℕ
  length [] = 0
  length (x ∷ xs) = suc (length xs)

  -- `filter`, `find` and `some` of an array.
  abbrev pub keep : (A → Bool) → List A → List A
  keep p [] = []
  keep p (x ∷ xs) = if p x then x ∷ keep p xs else keep p xs

  abbrev pub find : (A → Bool) → List A → Option A
  find p [] = none
  find p (x ∷ xs) = if p x then some x else find p xs

  abbrev pub any : (A → Bool) → List A → Bool
  any p [] = false
  any p (x ∷ xs) = p x || any p xs

  -- `find`, and a change of the object that is found.
  abbrev pub update_first : (A → Bool) → (A → A) → List A → List A
  update_first p f [] = []
  update_first p f (x ∷ xs) = if p x then f x ∷ xs else x ∷ update_first p f xs

  -- `slice(0, n)` and `slice(n)`.
  abbrev pub take : ℕ → List A → List A
  take zero xs = []
  take (suc n) [] = []
  take (suc n) (x ∷ xs) = x ∷ take n xs

  abbrev pub drop : ℕ → List A → List A
  drop zero xs = xs
  drop (suc n) [] = []
  drop (suc n) (x ∷ xs) = drop n xs

  -- `shift()` on a bounded buffer: the first element goes.
  abbrev pub rest_of : List A → List A
  rest_of [] = []
  rest_of (x ∷ xs) = xs

  -- `while (buffer.length > capacity) buffer.shift()`.
  abbrev pub trim_front : ℕ → List A → List A
  trim_front cap [] = []
  trim_front cap (x ∷ xs) = if ltb cap (length (x ∷ xs)) then trim_front cap xs else x ∷ xs

  pub length-append : (xs ys : List A) → length (xs ++ ys) ≡ length xs + length ys
  length-append [] ys = omega arith
  length-append (x ∷ xs) ys = omega (arith, length-append xs ys)

  pub length-take-le : (n : ℕ) (xs : List A) → length (take n xs) ≤ n
  length-take-le zero xs = omega arith
  length-take-le (suc n) [] = omega arith
  length-take-le (suc n) (x ∷ xs) = omega (arith, length-take-le n xs)

  pub length-keep-le : (p : A → Bool) (xs : List A) → length (keep p xs) ≤ length xs
  length-keep-le p [] = omega arith
  length-keep-le p (x ∷ xs) = ground (arith, length-keep-le p xs)

  pub length-drop : (n : ℕ) (xs : List A) → length (drop n xs) ≡ length xs - n
  length-drop zero xs = omega arith
  length-drop (suc n) [] = omega arith
  length-drop (suc n) (x ∷ xs) = omega (arith, length-drop n xs)

  pub append-take-drop : (n : ℕ) (xs : List A) → take n xs ++ drop n xs ≡ xs
  append-take-drop zero xs = refl
  append-take-drop (suc n) [] = refl
  append-take-drop (suc n) (x ∷ xs) = ap (λ l. x ∷ l) (append-take-drop n xs)

  pub drop-length : (xs ys : List A) → drop (length xs) (xs ++ ys) ≡ ys
  drop-length [] ys = refl
  drop-length (x ∷ xs) ys = drop-length xs ys

  -- The loop keeps the last `cap` elements.
  pub trim_front-drop : (cap : ℕ) (xs : List A) → trim_front cap xs ≡ drop (length xs - cap) xs
  trim_front-drop cap [] = ground arith
  trim_front-drop cap (x ∷ xs) = elim (Bool-cases (ltb cap (length (x ∷ xs)))) [
    | inl over ↦
        let e : length (x ∷ xs) - cap ≡ suc (length xs - cap) = ground arith in
        simp (over, e) (trim_front-drop cap xs)
    | inr fits ↦ let e : length (x ∷ xs) - cap ≡ 0 = ground arith in simp (fits, e)
  ]

  pub length-trim_front : (cap : ℕ) (xs : List A) → length (trim_front cap xs) ≡ min cap (length xs)
  length-trim_front cap [] = ground arith
  length-trim_front cap (x ∷ xs) = ground (arith, length-trim_front cap xs)

  pub trim_front-fits : (cap : ℕ) (xs : List A) → length xs ≤ cap → trim_front cap xs ≡ xs
  trim_front-fits cap [] h = refl
  trim_front-fits cap (x ∷ xs) h = ground arith

module _ {ℓ κ} {A : Type ℓ} (P : A → Type κ) where
  abbrev pub All : List A → Type κ
  All [] = Unit
  All (x ∷ xs) = P x × All xs

  pub All-append : (xs ys : List A) → All xs → All ys → All (xs ++ ys)
  All-append [] ys h k = k
  All-append (x ∷ xs) ys (p, h) k = (p, All-append xs ys h k)

  pub All-drop : (n : ℕ) (xs : List A) → All xs → All (drop n xs)
  All-drop zero xs h = h
  All-drop (suc n) [] h = tt
  All-drop (suc n) (x ∷ xs) (_, h) = All-drop n xs h

  pub All-keep : (p : A → Bool) (xs : List A) → All xs → All (keep p xs)
  All-keep p [] h = tt
  All-keep p (x ∷ xs) (q, h) = elim (p x) as (λ b. All (if b then x ∷ keep p xs else keep p xs)) [
    | true ↦ (q, All-keep p xs h)
    | false ↦ All-keep p xs h
  ]

  pub All-take : (n : ℕ) (xs : List A) → All xs → All (take n xs)
  All-take zero xs h = tt
  All-take (suc n) [] h = tt
  All-take (suc n) (x ∷ xs) (p, h) = (p, All-take n xs h)

  pub All-trim_front : (cap : ℕ) (xs : List A) → All xs → All (trim_front cap xs)
  All-trim_front cap [] h = tt
  All-trim_front cap (x ∷ xs) (q, h) =
      elim (ltb cap (length (x ∷ xs))) as (λ b. All (if b then trim_front cap xs else x ∷ xs)) [
        | true ↦ All-trim_front cap xs h
        | false ↦ (q, h)
      ]

module _ {ℓ} {A : Type ℓ} (P : A → Type 0) where
  abbrev pub Any : List A → Type 0
  Any [] = ⊥
  Any (x ∷ xs) = P x ⊎ Any xs

-- Implications between predicates, and elements of a list, under `All`.
module _ {A : Type 0} {P Q : A → Type 0} where
  pub All-imp : (f : (x : A) → P x → Q x) (xs : List A) → All P xs → All Q xs
  All-imp f [] h = tt
  All-imp f (x ∷ xs) (p, h) = (f x p, All-imp f xs h)

  pub Any-imp : (f : (x : A) → P x → Q x) (xs : List A) → Any P xs → Any Q xs
  Any-imp f [] h = absurd h
  Any-imp f (x ∷ xs) (inl p) = inl (f x p)
  Any-imp f (x ∷ xs) (inr h) = inr (Any-imp f xs h)

module _ {A B : Type 0} where
  pub All-map :
      (P : B → Type 0) (f : A → B) (xs : List A) → All (λ x. P (f x)) xs → All P (map f xs)
  All-map P f [] h = tt
  All-map P f (x ∷ xs) (p, h) = (p, All-map P f xs h)

module _ {A : Type 0} (p : A → Bool) where
  -- What a filter keeps is in the list and passes the test.
  pub keep-Any : (xs : List A) → All (λ x. Any (λ y. y ≡ x) xs × (p x ≡ true)) (keep p xs)
  keep-Any [] = tt
  keep-Any (x ∷ xs) =
      let rest =
        All-imp {P = λ y. Any (λ z. z ≡ y) xs × (p y ≡ true)}
          {Q = λ y. Any (λ z. z ≡ y) (x ∷ xs) × (p y ≡ true)} (λ y h. (inr h.0, h.1)) (keep p xs)
          (keep-Any xs) in
      elim (Bool-cases (p x)) [ inl e ↦ simp e ((inl refl, refl), rest) | inr e ↦ simp e rest ]

  pub any-All : (xs : List A) → any p xs ≡ false → All (λ x. p x ≡ false) xs
  any-All [] h = tt
  any-All (x ∷ xs) h = (ground arith, any-All xs (ground arith))
