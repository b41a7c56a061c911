-- ===== src/Idempotency/Canonical/Objects.antt =====
-- Properties of a JavaScript object as its entries in order: setting one, spreading, reading one.
use canton_pillar.Base.{
  ◌≡◌, refl, ap, ◌∙◌, false, Option, none, some, List, [], ◌∷◌, Text, if◌then◌else◌, text_eq,
  text_eq_refl, text_eq_sound, Bool-cases, inl, inr,
}
use canton_pillar.Idempotency.Canonical.{Json, Entry}

-- A property that is defined again keeps its place and takes the new value.
abbrev pub define {ℓ} : {A : Type ℓ} → Text → A → List (Text × A) → List (Text × A)
define k v [] = (k, v) ∷ []
define k v ((j, w) ∷ l) = if text_eq j k then (k, v) ∷ l else (j, w) ∷ define k v l

abbrev pub spread {ℓ} : {A : Type ℓ} → List (Text × A) → List (Text × A) → List (Text × A)
spread l [] = l
spread l ((k, v) ∷ m) = spread (define k v l) m

-- `input[key]`; `undefined` is `none`.
abbrev pub value_of : Text → List Entry → Option Json
value_of key [] = none
value_of key ((k, j) ∷ es) = if text_eq k key then some j else value_of key es

pub value_of-define_self :
    (k : Text) (v : Json) (es : List Entry) → value_of k (define k v es) ≡ some v
value_of-define_self k v [] = simp (text_eq_refl k)
value_of-define_self k v ((j, w) ∷ es) = elim (Bool-cases (text_eq j k)) [
  | inl e ↦ simp (e, text_eq_refl k)
  | inr e ↦ simp e (value_of-define_self k v es)
]

pub value_of-define_other :
    (key k : Text) (v : Json) (es : List Entry)
    → text_eq k key ≡ false
    → value_of key (define k v es) ≡ value_of key es
value_of-define_other key k v [] h = simp h
value_of-define_other key k v ((j, w) ∷ es) h = elim (Bool-cases (text_eq j k)) [
  | inl e ↦
      let same : text_eq j key ≡ false = ap (λ x. text_eq x key) (text_eq_sound j k e) ∙ h in
      simp (e, h, same)
  | inr e ↦ elim (Bool-cases (text_eq j key)) [
    | inl e' ↦ simp (e, e')
    | inr e' ↦ simp (e, e') (value_of-define_other key k v es h)
  ]
]

value_of-define :
    (key k : Text) (v : Json) (es : List Entry)
    → value_of key (define k v es) ≡ (if text_eq k key then some v else value_of key es)
value_of-define key k v es = elim (Bool-cases (text_eq k key)) [
  | inl e ↦ rw e (
      ap (λ x. value_of key (define x v es)) (text_eq_sound k key e)
      ∙ value_of-define_self key v es)
  | inr e ↦ rw e (value_of-define_other key k v es e)
]

-- The last value that the properties give to a key, over one that it has.
abbrev pub last_value : Text → Option Json → List Entry → Option Json
last_value key d [] = d
last_value key d ((k, v) ∷ es) = last_value key (if text_eq k key then some v else d) es

pub value_of-spread :
    (key : Text) (es fs : List Entry)
    → value_of key (spread es fs) ≡ last_value key (value_of key es) fs
value_of-spread key es [] = refl
value_of-spread key es ((k, v) ∷ fs) =
    value_of-spread key (define k v es) fs
    ∙ ap (λ o. last_value key o fs) (value_of-define key k v es)
