-- ===== src/Idempotency/Canonical/Order.antt =====
-- Bodies that differ in the order of keys that `localeCompare` tells apart, and their canonical form.
use canton_pillar.Base.{◌≡◌, refl, ◌∙◌, ap, Bool, false, ◌&&◌, Text, some, List}
use mathlib.Core.Path.{ap₂}
use canton_pillar.Base.Sorting.{sort, insert, insert_comm, IsTotal, IsTransitive}
use canton_pillar.Idempotency.Canonical.{
  Json, Items, Fields, Entry, entries, fields, own_order, entry_le, norm, norm_items, norm_fields,
  canonical_body,
}

module _ (compare_le : Text → Text → Bool) where
  -- `a.localeCompare(b) !== 0`.
  abbrev pub Differ : Text → Text → Type 0
  Differ a b = (compare_le a b && compare_le b a) ≡ false

  -- Two bodies that differ only in the order in which their objects list keys; two keys change places
  -- only if `localeCompare` tells them apart.
  mutual
    pub data Same : Json → Json → Type 0 where
      same : (j : Json) → Same j j
      arr : {xs ys : Items} → SameItems xs ys → Same (Json.arr xs) (Json.arr ys)
      obj : {fs gs : Fields} → SameFields fs gs → Same (Json.obj fs) (Json.obj gs)

    pub data SameItems : Items → Items → Type 0 where
      nil : SameItems Items.nil Items.nil
      cons :
          {j k : Json} {xs ys : Items}
          → Same j k
          → SameItems xs ys
          → SameItems (Items.cons j xs) (Items.cons k ys)

    pub data SameFields : Fields → Fields → Type 0 where
      end : SameFields Fields.end Fields.end
      field :
          {j k : Json} {fs gs : Fields} (key : Text)
          → Same j k
          → SameFields fs gs
          → SameFields (Fields.field key j fs) (Fields.field key k gs)
      swap :
          (a b : Text) (j k : Json) (fs : Fields)
          → Differ a b
          → SameFields
              (Fields.field a j (Fields.field b k fs))
              (Fields.field b k (Fields.field a j fs))
      trans : {fs gs hs : Fields} → SameFields fs gs → SameFields gs hs → SameFields fs hs

  module _ (total : IsTotal compare_le) (transitive : IsTransitive compare_le) where
    abbrev sorted : Fields → List Entry
    sorted fs = sort (entry_le compare_le) (entries fs)

    mutual
      unfolding norm

      norm-Same_from : {j k : Json} → Same j k → norm compare_le j ≡ norm compare_le k
      norm-Same_from (same j) = refl
      norm-Same_from (arr s) = ap Json.arr (norm_items-Same s)
      norm-Same_from (obj s) = ap (λ es. Json.obj (fields (own_order es))) (norm_fields-Same s)

      norm_items-Same :
          {xs ys : Items} → SameItems xs ys → norm_items compare_le xs ≡ norm_items compare_le ys
      norm_items-Same nil = refl
      norm_items-Same (cons s ss) = ap₂ Items.cons (norm-Same_from s) (norm_items-Same ss)

      norm_fields-Same :
          {fs gs : Fields}
          → SameFields fs gs
          → sorted (norm_fields compare_le fs) ≡ sorted (norm_fields compare_le gs)
      norm_fields-Same end = refl
      norm_fields-Same (field key s ss) =
          ap₂ (λ v es. insert (entry_le compare_le) (key, v) es) (norm-Same_from s)
            (norm_fields-Same ss)
      norm_fields-Same (swap a b j k fs h) =
          insert_comm (entry_le compare_le) (λ x y. total x.0 y.0) (λ x y z. transitive x.0 y.0 z.0)
            (a, norm compare_le j) (b, norm compare_le k) (sorted (norm_fields compare_le fs)) h
      norm_fields-Same (trans s t) = norm_fields-Same s ∙ norm_fields-Same t

pub canonical_body-Same :
    (compare_le : Text → Text → Bool)
    → IsTotal compare_le
    → IsTransitive compare_le
    → {fs gs : Fields} → SameFields compare_le fs gs
    → canonical_body compare_le (some (Json.obj fs))
      ≡ canonical_body compare_le (some (Json.obj gs))
unfolding canonical_body
canonical_body-Same compare_le total transitive s =
    norm-Same_from compare_le total transitive (Same.obj s)
