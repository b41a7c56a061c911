-- ===== src/Api/PathTemplate.antt =====
-- apps/api/src/middleware/idempotency.ts: `isMutatingPost` and `pathTemplate`, over code units.
mod Fuel
mod Tests
use canton_pillar.Base.{
  ◌≡◌, refl, ℕ, zero, suc, Bool, ◌&&◌, ◌||◌, Option, none, some, List, [], ◌∷◌, ◌++◌, Text,
  if◌then◌else◌, leb, ◌==◌, codes, text_eq, starts_with, before, split, is_digit, is_some, length,
  keep, not,
}

abbrev pub is_letter : ℕ → Bool
is_letter c = (leb b'A' c && leb c b'Z') || (leb b'a' c && leb c b'z')

-- `\w`.
abbrev pub is_word : ℕ → Bool
is_word c = is_letter c || is_digit c || (c == b'_')

abbrev pub last {ℓ} : {A : Type ℓ} → List A → Option A
last [] = none
last (x ∷ []) = some x
last (x ∷ y ∷ xs) = last (y ∷ xs)

-- `path.split('/').filter(Boolean).at(-1)`.
abbrev last_segment : Text → Option Text
last_segment path = last (keep (λ s. not (text_eq s [])) (split b'/' path))

unfoldable pub is_mutating_post : Text → Text → Bool
is_mutating_post method url =
    text_eq method (codes "POST")
    && starts_with (codes "/v1/") (before b'?' url)
    && is_some (last_segment (before b'?' url))

-- The longest prefix of units that satisfy the test, and the rest.
abbrev pub span : (ℕ → Bool) → Text → Text × Text
span p [] = ([], [])
span p (c ∷ s) = if p c then (let (front, rest) = span p s in (c ∷ front, rest)) else ([], c ∷ s)

-- `.replace(/:([A-Za-z_][\w]*)/g, '{$1}')`; `fuel` counts the units that are left.
pub braces_from : ℕ → Text → Text
braces_from zero s = []
braces_from (suc fuel) [] = []
braces_from (suc fuel) (c ∷ []) = c ∷ []
braces_from (suc fuel) (c ∷ d ∷ s) =
    let found = span is_word (d ∷ s) in
    let named = b'{' ∷ (found.0 ++ b'}' ∷ braces_from fuel found.1) in
    let plain = c ∷ braces_from fuel (d ∷ s) in
    if (c == b':') && (is_letter d || (d == b'_')) then named else plain

unfoldable pub braces : Text → Text
unfolding braces_from
braces s = braces_from (length s) s

abbrev pub after_underscore : Text → Option Text
after_underscore [] = none
after_underscore (c ∷ s) = if is_word c then some (span is_word s).1 else none

abbrev pub after_letters : Text × Text → Option Text
after_letters ([], rest) = none
after_letters (c ∷ letters, []) = none
after_letters (c ∷ letters, d ∷ rest) = if d == b'_' then after_underscore rest else none

-- What follows a slash: letters, an underscore and at least one more word unit are an identifier.
abbrev pub identifier_rest : Text → Option Text
identifier_rest s = after_letters (span is_letter s)

-- `.replace(/\/([A-Za-z]+_[A-Za-z0-9_]+)/g, '/{id}')`.
pub ids_from : ℕ → Text → Text
ids_from zero s = []
ids_from (suc fuel) [] = []
ids_from (suc fuel) (c ∷ s) =
    let plain = c ∷ ids_from fuel s in
    let slash : Text = elim (identifier_rest s) [
      | none ↦ plain
      | some rest ↦ codes "/{id}" ++ ids_from fuel rest
    ] in
    if c == b'/' then slash else plain

unfoldable pub ids : Text → Text
unfolding ids_from
ids s = ids_from (length s) s

-- `route` is `routeOptions.url ?? routerPath`; an empty one counts as missing.
unfoldable pub path_template : Option Text → Text → Text → Text
unfolding braces ids
path_template none prefix url = ids (before b'?' url)
path_template (some []) prefix url = ids (before b'?' url)
path_template (some (c ∷ route)) prefix url = braces (prefix ++ c ∷ route)
