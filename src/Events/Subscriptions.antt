-- ===== src/Events/Subscriptions.antt =====
-- apps/api/src/events/registry.ts: `requireKnownEventType` and `expandWildcardSubscription`. The set
-- `out` is the list of its members in the order in which they came.
pub mod Coverage
use canton_pillar.Base.{
  ◌≡◌, refl, Bool, true, false, ◌&&◌, ◌||◌, Option, none, some, List, [], ◌∷◌, ◌++◌, map, Text,
  Result, ok, err, ◌>>=◌, if◌then◌else◌, codes, text_eq, text_le, starts_with, ends_with, find,
  keep, any,
}
use canton_pillar.Base.Sorting.{sort}
use canton_pillar.Events.Registry.{EventType, event_type_registry}

-- The error names the type that is not in the registry.
abbrev pub known_or : Text → Option EventType → Result Text EventType
known_or type none = err type
known_or type (some e) = ok e

unfoldable pub require_known_event_type : Text → Result Text EventType
require_known_event_type type = known_or type (find (λ e. text_eq e.type type) event_type_registry)

abbrev pub all_types : List Text
all_types = map (λ e. e.type) event_type_registry

-- `Set.add`, and `forEach(t => out.add(t))`.
abbrev pub add : Text → List Text → List Text
add t out = if any (text_eq t) out then out else out ++ t ∷ []

abbrev pub add_all : List Text → List Text → List Text
add_all [] out = out
add_all (t ∷ ts) out = add_all ts (add t out)

-- `slice(0, -1)`.
abbrev pub without_last : Text → Text
without_last [] = []
without_last (c ∷ []) = []
without_last (c ∷ d ∷ s) = c ∷ without_last (d ∷ s)

abbrev pub is_family : Text → Bool
is_family pattern = ends_with (codes ".*") pattern

unfoldable pub expand_pattern : Text → List Text → Result Text (List Text)
unfolding require_known_event_type
expand_pattern pattern out =
    if text_eq pattern (codes "*")
    then ok (add_all all_types out)
    else if is_family pattern
    then ok (add_all (keep (starts_with (without_last pattern)) all_types) out)
    else (require_known_event_type pattern >>= λ e. ok (add pattern out))

unfoldable pub expand_loop : List Text → List Text → Result Text (List Text)
unfolding expand_pattern
expand_loop [] out = ok out
expand_loop (p ∷ ps) out = expand_pattern p out >>= expand_loop ps

abbrev pub or_star : List Text → List Text
or_star [] = codes "*" ∷ []
or_star (p ∷ ps) = p ∷ ps

unfoldable pub expand_wildcard_subscription : List Text → Result Text (List Text)
unfolding expand_loop
expand_wildcard_subscription patterns =
    expand_loop (or_star patterns) [] >>= λ out. ok (sort text_le out)
