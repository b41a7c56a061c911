-- ===== src/Idempotency/Canonical/Request.antt =====
-- packages/idempotency/src/canonical-hash.ts: `canonicalRequestHash`; and the fingerprint of
-- packages/idempotency/src/request-fingerprint.ts.
use canton_pillar.Base.{
  ◌≡◌, refl, ℕ, ◌+◌, ◌-◌, Bool, ◌&&◌, Option, some, List, [], ◌∷◌, ◌++◌, map, Text, String,
  if◌then◌else◌, leb, codes, text_eq, or_else, keep, arith,
}
use canton_pillar.Base.Sorting.{sort, IsTotal, IsTransitive}
use canton_pillar.Idempotency.Decimal.{trim}
use canton_pillar.Idempotency.Canonical.{Json, str, obj, Fields, Entry, fields, canonical_body}
use canton_pillar.Idempotency.Canonical.Print.{stringify}
use canton_pillar.Idempotency.Canonical.Order.{SameFields, canonical_body-Same}
use canton_pillar.Idempotency.Canonical.Objects.{define, spread}

abbrev pub upper_unit : ℕ → ℕ
upper_unit c = if leb b'a' c && leb c b'z' then c - 32 else c

abbrev pub lower_unit : ℕ → ℕ
lower_unit c = if leb b'A' c && leb c b'Z' then c + 32 else c

abbrev pub to_upper : Text → Text
to_upper = map upper_unit

abbrev pub to_lower : Text → Text
to_lower = map lower_unit

abbrev pub Headers : Type 0
Headers = List (Text × Option Text)

pub record CanonicalRequest : Type 0 where
  pub method : Text
  pub path_template : Option Text
  pub path_template_camel : Option Text
  pub api_version : Option Text
  pub api_version_camel : Option Text
  pub body : Option Json
  pub headers : Headers
  pub headers_subset : Headers

module _ (compare_le : Text → Text → Bool) where
  unfoldable pub normalize_headers : CanonicalRequest → Text → List Entry
  unfolding trim
  normalize_headers req path_template =
      let input = spread req.headers req.headers_subset in
      let wanted = keep (λ h. text_eq (to_lower h.0) (codes "pillar-version")) input in
      let sorted = sort (λ a b. compare_le a.0 b.0) wanted in
      let headers : List Entry =
        spread [] (map (λ h. (to_lower h.0, str (trim (or_else h.1 [])))) sorted) in
      define (codes "pillar-path-template") (str (to_upper req.method ++ 32 ∷ path_template))
        headers

  unfoldable pub payload : CanonicalRequest → Json
  unfolding normalize_headers
  payload req =
      let path_template = or_else req.path_template_camel (or_else req.path_template []) in
      let api_version = or_else req.api_version_camel (or_else req.api_version []) in
      obj (
        fields (
          (codes "method", str (to_upper req.method))
          ∷ (codes "path_template", str path_template)
          ∷ (codes "api_version", str api_version)
          ∷ (codes "body", canonical_body compare_le req.body)
          ∷ (codes "headers", obj (fields (normalize_headers req path_template)))
          ∷ []))

  unfoldable pub canonical_request_hash : (Text → String) → CanonicalRequest → String
  unfolding payload
  canonical_request_hash sha256 req = sha256 (stringify (payload req))

pub record Fingerprint : Type 0 where
  pub method : Text
  pub path_template : Option Text
  pub api_version : Option Text
  pub request_hash : String

unfoldable pub request_fingerprint :
    (Text → Text → Bool) → (Text → String) → CanonicalRequest → Fingerprint
unfolding canonical_request_hash
request_fingerprint compare_le sha256 req = record {
  method = to_upper req.method;
  path_template = req.path_template;
  api_version = req.api_version;
  request_hash = canonical_request_hash compare_le sha256 req;
}

upper_unit_idem : (c : ℕ) → upper_unit (upper_unit c) ≡ upper_unit c
upper_unit_idem c = ground arith

to_upper_idem : (s : Text) → to_upper (to_upper s) ≡ to_upper s
to_upper_idem [] = refl
to_upper_idem (c ∷ s) = cc (upper_unit_idem c, to_upper_idem s)

-- If `localeCompare` is a total preorder, the hash of a request whose body is an object is the same
-- for the body with the keys of its objects in another order, where keys that change places are told
-- apart by `localeCompare`, and for the method in upper case.
pub canonical_request_hash-Same :
    (compare_le : Text → Text → Bool) (sha256 : Text → String)
    → IsTotal compare_le
    → IsTransitive compare_le
    → (req : CanonicalRequest) {fs gs : Fields} → SameFields compare_le fs gs
    → canonical_request_hash compare_le sha256 (record req { body = some (obj fs) })
      ≡ canonical_request_hash compare_le sha256
          (record req { body = some (obj gs); method = to_upper req.method })
unfolding canonical_request_hash
canonical_request_hash-Same compare_le sha256 total transitive req s =
    simp (to_upper_idem req.method, canonical_body-Same compare_le total transitive s)
