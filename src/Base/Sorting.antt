-- ===== src/Base/Sorting.antt =====
-- `Array.prototype.sort`, which is stable, as insertion sort over a comparison; its laws.
use mathlib.Core.Path.{◌≡◌, refl, sym, ap, ◌∙◌}
use mathlib.Core.Bool.{Bool, true, false, ◌&&◌}
use mathlib.Core.Logic.{inl, inr}
use mathlib.Core.List.{List, [], ◌∷◌}
use native.Mathlib.Omega.{arith}
use canton_pillar.Base.Tests.{if◌then◌else◌, Bool-cases}
use canton_pillar.Base.Lists.{All, keep, All-keep}

module _ {ℓ} {A : Type ℓ} (le : A → A → Bool) where
  -- An equal element goes before the ones that came after it.
  abbrev pub insert : A → List A → List A
  insert a [] = a ∷ []
  insert a (b ∷ l) = if le a b then a ∷ b ∷ l else b ∷ insert a l

  abbrev pub sort : List A → List A
  sort [] = []
  sort (a ∷ l) = insert a (sort l)

  abbrev pub IsTotal : Type ℓ
  IsTotal = (a b : A) → le a b ≡ false → le b a ≡ true

  abbrev pub IsTransitive : Type ℓ
  IsTransitive = (a b c : A) → le a b ≡ true → le b c ≡ true → le a c ≡ true

  abbrev pub IsSorted : List A → Type ℓ
  IsSorted [] = Unit
  IsSorted (a ∷ l) = All (λ b. le a b ≡ true) l × IsSorted l

module _ {ℓ κ} {A : Type ℓ} (le : A → A → Bool) (P : A → Type κ) where
  pub All-insert : (a : A) (l : List A) → P a → All P l → All P (insert le a l)
  All-insert a [] p h = (p, tt)
  All-insert a (b ∷ l) p (q, h) =
      elim (le a b) as (λ t. All P (if t then a ∷ b ∷ l else b ∷ insert le a l)) [
        | true ↦ (p, (q, h))
        | false ↦ (q, All-insert a l p h)
      ]

  pub All-sort : (l : List A) → All P l → All P (sort le l)
  All-sort [] h = tt
  All-sort (a ∷ l) (p, h) = All-insert a (sort le l) p (All-sort l h)

module _ {ℓ} {A : Type ℓ} (le : A → A → Bool) (total : IsTotal le) (trans : IsTransitive le) where
  pub insert_comm :
      (a b : A) (l : List A)
      → (le a b && le b a) ≡ false
      → insert le a (insert le b l) ≡ insert le b (insert le a l)
  insert_comm a b [] h = ground (arith, total a b)
  insert_comm a b (c ∷ l) h = ground (
    arith,
    total a b,
    total a c,
    total b c,
    trans a b c,
    trans b a c,
    trans a c b,
    trans b c a,
    insert_comm a b l,
  )

  All-le :
      (a b : A) (l : List A)
      → le a b ≡ true
      → All (λ c. le b c ≡ true) l
      → All (λ c. le a c ≡ true) l
  All-le a b [] h k = tt
  All-le a b (c ∷ l) h (p, k) = (trans a b c h p, All-le a b l h k)

  insert-IsSorted : (a : A) (l : List A) → IsSorted le l → IsSorted le (insert le a l)
  insert-IsSorted a [] h = (tt, tt)
  insert-IsSorted a (b ∷ l) (p, h) = elim (Bool-cases (le a b)) [
    | inl e ↦ rw e ((e, All-le a b l e p), (p, h))
    | inr e ↦ rw e (All-insert le (λ c. le b c ≡ true) a l (total a b e) p, insert-IsSorted a l h)
  ]

  pub sort-IsSorted : (l : List A) → IsSorted le (sort le l)
  sort-IsSorted [] = tt
  sort-IsSorted (a ∷ l) = insert-IsSorted a (sort le l) (sort-IsSorted l)

  insert-least : (a : A) (l : List A) → All (λ b. le a b ≡ true) l → insert le a l ≡ a ∷ l
  insert-least a [] h = refl
  insert-least a (b ∷ l) (h, _) = simp h

  keep-insert :
      (p : A → Bool) (a : A) (l : List A)
      → IsSorted le l
      → keep p (insert le a l) ≡ (if p a then insert le a (keep p l) else keep p l)
  keep-insert p a [] h = elim (Bool-cases (p a)) [ inl e ↦ simp e | inr e ↦ simp e ]
  keep-insert p a (b ∷ l) (h, hs) = elim (Bool-cases (le a b)) [
    | inl e ↦
        let least = All-keep (λ c. le a c ≡ true) p (b ∷ l) (e, All-le a b l e h) in
        let front = insert-least a (keep p (b ∷ l)) least in
        elim (Bool-cases (p a)) [ inl q ↦ simp (e, q) (sym front) | inr q ↦ simp (e, q) ]
    | inr e ↦
        let rest = keep-insert p a l hs in
        elim (Bool-cases (p a)) [
          | inl q ↦ elim (Bool-cases (p b)) [
            | inl r ↦ simp (e, q, r) (ap (λ m. b ∷ m) (simp q at rest))
            | inr r ↦ simp (e, q, r) (simp q at rest)
          ]
          | inr q ↦ elim (Bool-cases (p b)) [
            | inl r ↦ simp (e, q, r) (ap (λ m. b ∷ m) (simp q at rest))
            | inr r ↦ simp (e, q, r) (simp q at rest)
          ]
        ]
  ]

  -- To drop elements before sorting is to drop them after it.
  pub sort-keep : (p : A → Bool) (l : List A) → sort le (keep p l) ≡ keep p (sort le l)
  sort-keep p [] = refl
  sort-keep p (a ∷ l) =
      let rest = sort-keep p l in
      let moved = keep-insert p a (sort le l) (sort-IsSorted l) in
      elim (Bool-cases (p a)) [
        | inl e ↦ simp e (ap (insert le a) rest ∙ sym (simp e at moved))
        | inr e ↦ simp e (rest ∙ sym (simp e at moved))
      ]
