-- ===== src/Events/Tests.antt =====
-- Subscriptions at concrete inputs, and the theorems at them.
use canton_pillar.Base.{
  ◌≡◌, refl, ◌&&◌, List, [], ◌∷◌, Text, ok, err, codes, text_eq, text_le, any, length,
}
use canton_pillar.Base.Sorting.{IsSorted}
use canton_pillar.Events.Registry.{event_type_registry}
use canton_pillar.Events.Subscriptions.{
  expand_wildcard_subscription, require_known_event_type, or_star,
}
use canton_pillar.Events.Subscriptions.Coverage.{
  IsDistinct, covers, is_known, expand_wildcard_subscription-covers,
  expand_wildcard_subscription-unknown,
}

abbrev accounts : List Text
accounts = codes "account.*" ∷ codes "asset.created" ∷ codes "nothing.*" ∷ []

accounts_test :
    expand_wildcard_subscription accounts
    ≡ ok (codes "account.created" ∷ codes "account.updated" ∷ codes "asset.created" ∷ [])
unfolding expand_wildcard_subscription event_type_registry require_known_event_type
accounts_test = refl

length_test : length event_type_registry ≡ 60
unfolding event_type_registry
length_test = refl

expand_wildcard_subscription-covers_example :
    (out : List Text) × (expand_wildcard_subscription accounts ≡ ok out)
    × IsSorted text_le out
    × IsDistinct out
    × ((t : Text) → any (text_eq t) out ≡ (is_known t && any (covers t) (or_star accounts)))
unfolding event_type_registry
expand_wildcard_subscription-covers_example = expand_wildcard_subscription-covers accounts refl

abbrev mistyped : List Text
mistyped = codes "account.*" ∷ codes "account.create" ∷ []

expand_wildcard_subscription-unknown_example :
    expand_wildcard_subscription mistyped ≡ err (codes "account.create")
unfolding event_type_registry
expand_wildcard_subscription-unknown_example =
    expand_wildcard_subscription-unknown mistyped (codes "account.create") refl
