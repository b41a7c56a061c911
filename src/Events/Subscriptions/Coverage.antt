-- ===== src/Events/Subscriptions/Coverage.antt =====
-- Which types a subscription expands to, and when the expansion throws.
use canton_pillar.Base.{
  ◌≡◌, refl, ap, sym, ◌∙◌, Bool, true, false, ◌&&◌, ◌||◌, not, none, some, List, [], ◌∷◌, ◌++◌, map,
  Text, ok, err, ◌>>=◌, if◌then◌else◌, codes, text_eq, text_eq_sound, text_eq_comm, text_le,
  text_le-total, text_le_trans, starts_with, find, keep, any, arith, Bool-cases, Option-cases, inl,
  inr, is_some,
}
use canton_pillar.Base.Sorting.{sort, insert, IsSorted, sort-IsSorted}
use canton_pillar.Events.Registry.{EventType, event_type_registry}
use canton_pillar.Events.Subscriptions.{
  known_or, require_known_event_type, all_types, add, add_all, without_last, is_family,
  expand_pattern, expand_loop, or_star, expand_wildcard_subscription,
}

-- A pattern covers a type: `*` every type, a family its types, and any other pattern itself.
abbrev pub covers : Text → Text → Bool
covers t pattern =
    if text_eq pattern (codes "*")
    then true
    else if is_family pattern
    then starts_with (without_last pattern) t
    else text_eq t pattern

abbrev pub is_known : Text → Bool
is_known t = any (text_eq t) all_types

abbrev holds : Text → List Text → Bool
holds t out = any (text_eq t) out

holds-append :
    (t u : Text) (out : List Text) → holds t (out ++ u ∷ []) ≡ (holds t out || text_eq t u)
holds-append t u [] = ground arith
holds-append t u (x ∷ out) = ground (arith, holds-append t u out)

holds-add : (t u : Text) (out : List Text) → holds t (add u out) ≡ (holds t out || text_eq t u)
holds-add t u out = elim (Bool-cases (holds u out)) [
  | inl e ↦ elim (Bool-cases (text_eq t u)) [
    | inl s ↦
        let same : holds t out ≡ true = ap (λ x. holds x out) (text_eq_sound t u s) ∙ e in
        simp (e, s, same)
    | inr s ↦ simp (e, s) (ground arith)
  ]
  | inr e ↦ simp e (holds-append t u out)
]

holds-add_all :
    (t : Text) (us out : List Text) → holds t (add_all us out) ≡ (holds t out || holds t us)
holds-add_all t [] out = ground arith
holds-add_all t (u ∷ us) out = holds-add_all t us (add u out) ∙ ground (arith, holds-add t u out)

holds-keep :
    (p : Text → Bool) (t : Text) (us : List Text) → holds t (keep p us) ≡ (holds t us && p t)
holds-keep p t [] = refl
holds-keep p t (u ∷ us) = elim (Bool-cases (text_eq t u)) [
  | inl s ↦
      let same : p u ≡ p t = ap p (sym (text_eq_sound t u s)) in
      elim (Bool-cases (p u)) [
        | inl e ↦ ground (arith, same)
        | inr e ↦ ground (arith, same, holds-keep p t us)
      ]
  | inr s ↦ ground (arith, holds-keep p t us)
]

holds-insert :
    (t u : Text) (out : List Text) → holds t (insert text_le u out) ≡ (text_eq t u || holds t out)
holds-insert t u [] = refl
holds-insert t u (x ∷ out) = ground (arith, holds-insert t u out)

holds-sort : (t : Text) (out : List Text) → holds t (sort text_le out) ≡ holds t out
holds-sort t [] = refl
holds-sort t (x ∷ out) =
    holds-insert t x (sort text_le out) ∙ ap (λ b. text_eq t x || b) (holds-sort t out)

-- No type stands twice.
abbrev pub IsDistinct : List Text → Type 0
IsDistinct [] = Unit
IsDistinct (t ∷ ts) = (holds t ts ≡ false) × IsDistinct ts

append-IsDistinct :
    (u : Text) (out : List Text) → IsDistinct out → holds u out ≡ false → IsDistinct (out ++ u ∷ [])
append-IsDistinct u [] d h = (refl, tt)
append-IsDistinct u (x ∷ out) (n, d) h = (
  ground (arith, holds-append x u out, text_eq_comm x u),
  append-IsDistinct u out d (ground arith),
)

add-IsDistinct : (u : Text) (out : List Text) → IsDistinct out → IsDistinct (add u out)
add-IsDistinct u out d = elim (Bool-cases (holds u out)) [
  | inl e ↦ simp e d
  | inr e ↦ simp e (append-IsDistinct u out d e)
]

add_all-IsDistinct : (us out : List Text) → IsDistinct out → IsDistinct (add_all us out)
add_all-IsDistinct [] out d = d
add_all-IsDistinct (u ∷ us) out d = add_all-IsDistinct us (add u out) (add-IsDistinct u out d)

insert-IsDistinct :
    (u : Text) (out : List Text)
    → holds u out ≡ false
    → IsDistinct out
    → IsDistinct (insert text_le u out)
insert-IsDistinct u [] h d = (refl, tt)
insert-IsDistinct u (x ∷ out) h (n, d) = elim (Bool-cases (text_le u x)) [
  | inl e ↦ simp e (h, (n, d))
  | inr e ↦ simp e (
    ground (arith, holds-insert x u out, text_eq_comm x u),
    insert-IsDistinct u out (ground arith) d,
  )
]

sort-IsDistinct : (out : List Text) → IsDistinct out → IsDistinct (sort text_le out)
sort-IsDistinct [] d = tt
sort-IsDistinct (x ∷ out) (n, d) =
    insert-IsDistinct x (sort text_le out) (holds-sort x out ∙ n) (sort-IsDistinct out d)

find-holds :
    (t : Text) (es : List EventType)
    → is_some (find (λ e. text_eq e.type t) es) ≡ holds t (map (λ e. e.type) es)
find-holds t [] = refl
find-holds t (e ∷ es) = ground (arith, find-holds t es, text_eq_comm e.type t)

require-known :
    (t : Text) → is_known t ≡ true → (e : EventType) × (require_known_event_type t ≡ ok e)
unfolding require_known_event_type
require-known t h = elim (Option-cases (find (λ e. text_eq e.type t) event_type_registry)) [
  | inl e ↦ absurd (ground (arith, find-holds t event_type_registry, ap is_some e))
  | inr (x, e) ↦ (x, ap (known_or t) e)
]

require-unknown : (t : Text) → is_known t ≡ false → require_known_event_type t ≡ err t
unfolding require_known_event_type
require-unknown t h = elim (Option-cases (find (λ e. text_eq e.type t) event_type_registry)) [
  | inl e ↦ ap (known_or t) e
  | inr (x, e) ↦ absurd (ground (arith, find-holds t event_type_registry, ap is_some e))
]

-- A pattern that is no wildcard and names no known type.
abbrev pub is_unknown : Text → Bool
is_unknown pattern =
    not (text_eq pattern (codes "*")) && not (is_family pattern) && not (is_known pattern)

-- What patterns add, each type once.
record Adds (ps out out' : List Text) : Type 0 where
  adds : (t : Text) → holds t out' ≡ (holds t out || (is_known t && any (covers t) ps))
  once : IsDistinct out → IsDistinct out'

exact-known : (t p : Text) → is_known p ≡ true → (is_known t && text_eq t p) ≡ text_eq t p
exact-known t p h = elim (Bool-cases (text_eq t p)) [
  | inl e ↦ let same : is_known t ≡ true = ap is_known (text_eq_sound t p e) ∙ h in simp (e, same)
  | inr e ↦ simp e (ground arith)
]

expand_pattern-ok :
    (p : Text) (out : List Text)
    → is_unknown p ≡ false
    → (out' : List Text) × (expand_pattern p out ≡ ok out') × Adds (p ∷ []) out out'
unfolding expand_pattern
expand_pattern-ok p out h = elim (Bool-cases (text_eq p (codes "*"))) [
  | inl star ↦ (
    add_all all_types out,
    simp star,
    record {
      adds = λ t. simp star (holds-add_all t all_types out ∙ ground arith);
      once = add_all-IsDistinct all_types out;
    },
  )
  | inr plain ↦ elim (Bool-cases (is_family p)) [
    | inl family ↦
        let members = keep (starts_with (without_last p)) all_types in
        (
          add_all members out,
          simp (plain, family),
          record {
            adds = λ t.
                simp (plain, family)
                  (holds-add_all t members out
                    ∙ ap (λ b. holds t out || b)
                        (holds-keep (starts_with (without_last p)) t all_types)
                    ∙ ground arith);
            once = add_all-IsDistinct members out;
          },
        )
    | inr exact ↦
        let known : is_known p ≡ true = ground arith in
        let (e, found) = require-known p known in
        (
          add p out,
          simp (plain, exact, found),
          record {
            adds = λ t.
                simp (plain, exact)
                  (holds-add t p out
                    ∙ ap (λ b. holds t out || b) (sym (exact-known t p known))
                    ∙ ground arith);
            once = add-IsDistinct p out;
          },
        )
  ]
]

expand_pattern-err :
    (p : Text) (out : List Text) → is_unknown p ≡ true → expand_pattern p out ≡ err p
unfolding expand_pattern
expand_pattern-err p out h =
    let plain : text_eq p (codes "*") ≡ false = ground arith in
    let exact : is_family p ≡ false = ground arith in
    let unknown : is_known p ≡ false = ground arith in
    simp (plain, exact, require-unknown p unknown)

expand_loop-ok :
    (ps out : List Text)
    → find is_unknown ps ≡ none
    → (out' : List Text) × (expand_loop ps out ≡ ok out') × Adds ps out out'
unfolding expand_loop
expand_loop-ok [] out h = (out, refl, record { adds = λ t. ground arith; once = λ d. d })
expand_loop-ok (p ∷ ps) out h =
    let fine : is_unknown p ≡ false = ground arith in
    let (o1, e1, a1) = expand_pattern-ok p out fine in
    let (o2, e2, a2) = expand_loop-ok ps o1 (simp fine at h) in
    (
      o2,
      ap (λ r. r >>= expand_loop ps) e1 ∙ e2,
      record {
        adds = λ t.
            a2.adds t ∙ ap (λ b. b || (is_known t && any (covers t) ps)) (a1.adds t) ∙ ground arith;
        once = λ d. a2.once (a1.once d);
      },
    )

expand_loop-err :
    (ps out : List Text) (p : Text) → find is_unknown ps ≡ some p → expand_loop ps out ≡ err p
unfolding expand_loop
expand_loop-err [] out p h = absurd (ground arith)
expand_loop-err (q ∷ ps) out p h = elim (Bool-cases (is_unknown q)) [
  | inl bad ↦
      let same : q ≡ p = ground arith in
      ap (λ r. r >>= expand_loop ps) (expand_pattern-err q out bad) ∙ ap err same
  | inr fine ↦
      let (o1, e1, a1) = expand_pattern-ok q out fine in
      ap (λ r. r >>= expand_loop ps) e1 ∙ expand_loop-err ps o1 p (simp fine at h)
]

-- If every pattern is `*`, a family or a known type, the expansion succeeds with a sorted list of
-- exactly the known types that a pattern covers, each once; no pattern at all stands for `*`.
pub expand_wildcard_subscription-covers :
    (ps : List Text)
    → find is_unknown (or_star ps) ≡ none
    → (out : List Text) × (expand_wildcard_subscription ps ≡ ok out)
      × IsSorted text_le out
      × IsDistinct out
      × ((t : Text) → any (text_eq t) out ≡ (is_known t && any (covers t) (or_star ps)))
unfolding expand_wildcard_subscription
expand_wildcard_subscription-covers ps h =
    let (out, e, a) = expand_loop-ok (or_star ps) [] h in
    (
      sort text_le out,
      ap (λ r. r >>= λ o. ok (sort text_le o)) e,
      sort-IsSorted text_le text_le-total text_le_trans out,
      sort-IsDistinct out (a.once tt),
      λ t. holds-sort t out ∙ a.adds t,
    )

-- If some pattern is neither `*` nor a family nor a known type, the expansion throws, with the first
-- such pattern.
pub expand_wildcard_subscription-unknown :
    (ps : List Text) (p : Text)
    → find is_unknown (or_star ps) ≡ some p
    → expand_wildcard_subscription ps ≡ err p
unfolding expand_wildcard_subscription
expand_wildcard_subscription-unknown ps p h =
    ap (λ r. r >>= λ o. ok (sort text_le o)) (expand_loop-err (or_star ps) [] p h)
