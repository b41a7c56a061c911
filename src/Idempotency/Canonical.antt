-- ===== src/Idempotency/Canonical.antt =====
-- packages/idempotency/src/canonical-hash.ts: the canonical form of a JSON body, and the hash of a
-- request. `compare_le a b` says that `a.localeCompare(b) <= 0`, which depends on the locale data of
-- the host, and `sha256` is the digest of node:crypto: both are parameters. Header names and
-- methods are ASCII, as HTTP has them.
pub mod Objects
pub mod Order
pub mod Print
pub mod Request
use canton_pillar.Base.{
  ◌≡◌, refl, ℕ, ◌+◌, ◌-◌, Bool, true, false, ◌&&◌, ◌||◌, not, Option, none, some, List, [], ◌∷◌,
  ◌++◌, map, Text, String, if◌then◌else◌, leb, ltb, ◌==◌, is_digit, codes, text_eq, or_else, keep,
  ◌*◌,
}
use canton_pillar.Base.Sorting.{sort}
use canton_pillar.Idempotency.Decimal.{normalize_decimal, trim, all_digits}

-- A JSON value. A number is the text that JSON.stringify prints for it.
mutual
  pub data Json : Type 0 where
    null : Json
    bool : Bool → Json
    num : Text → Json
    str : Text → Json
    arr : Items → Json
    obj : Fields → Json

  pub data Items : Type 0 where
    nil : Items
    cons : Json → Items → Items

  pub data Fields : Type 0 where
    end : Fields
    field : Text → Json → Fields → Fields

abbrev pub Entry : Type 0
Entry = Text × Json

abbrev pub entries : Fields → List Entry
entries end = []
entries (field k j fs) = (k, j) ∷ entries fs

abbrev pub fields : List Entry → Fields
fields [] = end
fields ((k, j) ∷ es) = field k j (fields es)

-- An array index as a property key: its digits have no leading zero, and it is below 2^32 - 1.
abbrev pub decimal_value : ℕ → Text → ℕ
decimal_value acc [] = acc
decimal_value acc (c ∷ s) = decimal_value (acc * 10 + (c - b'0')) s

abbrev pub is_index : Text → Bool
is_index [] = false
is_index (c ∷ []) = is_digit c
is_index (c ∷ d ∷ s) =
    not (c == b'0') && all_digits (c ∷ d ∷ s) && ltb (decimal_value 0 (c ∷ d ∷ s)) 4294967295

-- The order in which an object lists its own properties: indices ascending, then the other keys as
-- they were defined. `Object.fromEntries` and the spread both build such an object.
unfoldable pub own_order : List Entry → List Entry
own_order es =
    sort (λ a b. leb (decimal_value 0 a.0) (decimal_value 0 b.0)) (keep (λ e. is_index e.0) es)
    ++ keep (λ e. not (is_index e.0)) es

module _ (compare_le : Text → Text → Bool) where
  abbrev pub entry_le : Entry → Entry → Bool
  entry_le a b = compare_le a.0 b.0

  -- The values are normalised before the entries are sorted, not after: the order looks only at
  -- the keys.
  unfoldable mutual
    pub norm : Json → Json
    norm null = null
    norm (bool b) = bool b
    norm (num n) = num n
    norm (str s) = str (normalize_decimal (trim s))
    norm (arr xs) = arr (norm_items xs)
    norm (obj fs) = obj (fields (own_order (sort entry_le (entries (norm_fields fs)))))

    pub norm_items : Items → Items
    norm_items nil = nil
    norm_items (cons j xs) = cons (norm j) (norm_items xs)

    pub norm_fields : Fields → Fields
    norm_fields end = end
    norm_fields (field k j fs) = field k (norm j) (norm_fields fs)

  -- `value ?? {}`.
  abbrev pub body_or_empty : Option Json → Json
  body_or_empty none = obj end
  body_or_empty (some null) = obj end
  body_or_empty (some j) = j

  -- `JSON.parse(canonicalJson(body))`: to print a value and parse it again gives the value.
  unfoldable pub canonical_body : Option Json → Json
  unfolding norm
  canonical_body body = norm (body_or_empty body)
