-- ===== src/Idempotency/Store/Lookup.antt =====
-- How each statement on the table changes the row that a key finds.
use canton_pillar.Base.{
  ◌≡◌, refl, sym, ◌∙◌, ◌⊎◌, inl, inr, ap, String, Bool, true, false, none, some, [], ◌∷◌, ◌++◌,
  Text, if◌then◌else◌, keep, arith, eq_iff, Bool-cases, &&-true,
}
use mathlib.Core.Option
use canton_pillar.Idempotency.Store.{
  Key, Row, Table, key_eq, find_row, update_row, RowStatus, is_done, release, claim_key,
}

pub key_eq_sound : (a b : Key) → key_eq a b ≡ true → a ≡ b
key_eq_sound a b h =
    let (t, k) = &&-true _ _ h in
    let tenants = (eq_iff a.tenant_id b.tenant_id).0 t in
    let hashes = (eq_iff a.key_hash b.key_hash).0 k in
    λ i. record { tenant_id = tenants i; key_hash = hashes i }

pub key_eq_refl : (a : Key) → key_eq a a ≡ true
key_eq_refl a =
    ground (arith, (eq_iff a.tenant_id a.tenant_id).1 refl, (eq_iff a.key_hash a.key_hash).1 refl)

pub key_eq_self : (a b : Key) → a ≡ b → key_eq a b ≡ true
key_eq_self a b e = rw e (key_eq_refl b)

-- The row found under `j` after the update of the row of `k`, by an `f` that leaves the key.
pub find_row-update_row :
    (j k : Key) (f : Row → Row) (t : Table)
    → ((row : Row) → (f row).key ≡ row.key)
    → find_row j (update_row k f t)
      ≡ Option.map (λ row. if key_eq row.key k then f row else row) (find_row j t)
find_row-update_row j k f [] same = refl
find_row-update_row j k f (row ∷ t) same =
    let moved = ap (λ x. key_eq x j) (same row) in
    let later = find_row-update_row j k f t same in
    elim (Bool-cases (key_eq row.key k)) [
      | inl hit ↦ elim (Bool-cases (key_eq row.key j)) [
        | inl e ↦ simp (hit, moved, e)
        | inr e ↦ simp (hit, moved, e) later
      ]
      | inr miss ↦ elim (Bool-cases (key_eq row.key j)) [
        | inl e ↦ simp (miss, e)
        | inr e ↦ simp (miss, e) later
      ]
    ]

-- A row that is found has the key.
pub find_row-key : (k : Key) (t : Table) {row : Row} → find_row k t ≡ some row → row.key ≡ k
find_row-key k [] h = cc
find_row-key k (r ∷ t) h = elim (Bool-cases (key_eq r.key k)) [
  | inl e ↦ ground (arith, key_eq_sound r.key k e)
  | inr e ↦ find_row-key k t (rw e at h)
]

pub find_row-append_some :
    (k : Key) (t u : Table) {row : Row} → find_row k t ≡ some row → find_row k (t ++ u) ≡ some row
find_row-append_some k [] u h = cc
find_row-append_some k (r ∷ t) u h = elim (Bool-cases (key_eq r.key k)) [
  | inl e ↦ rw e (rw e at h)
  | inr e ↦ rw e (find_row-append_some k t u (rw e at h))
]

pub find_row-append_none :
    (k : Key) (t u : Table) → find_row k t ≡ none → find_row k (t ++ u) ≡ find_row k u
find_row-append_none k [] u h = refl
find_row-append_none k (r ∷ t) u h = elim (Bool-cases (key_eq r.key k)) [
  | inl e ↦ absurd (ground arith)
  | inr e ↦ rw e (find_row-append_none k t u (rw e at h))
]

-- A row that the filter keeps is still found.
pub find_row-keep :
    (k : Key) (p : Row → Bool) (t : Table) {row : Row}
    → find_row k t ≡ some row
    → p row ≡ true
    → find_row k (keep p t) ≡ some row
find_row-keep k p [] h q = cc
find_row-keep k p (r ∷ t) h q = elim (Bool-cases (key_eq r.key k)) [
  | inl e ↦ ground (arith, eq_iff r.key.tenant_id k.tenant_id)
  | inr e ↦ elim (Bool-cases (p r)) [
    | inl in_table ↦ rw in_table (rw e (find_row-keep k p t (rw e at h) q))
    | inr gone ↦ rw gone (find_row-keep k p t (rw e at h) q)
  ]
]

-- No row of the table has the key when none is found, whatever is filtered.
pub find_row-keep-none :
    (k : Key) (p : Row → Bool) (t : Table) → find_row k t ≡ none → find_row k (keep p t) ≡ none
find_row-keep-none k p [] h = refl
find_row-keep-none k p (r ∷ t) h = elim (Bool-cases (key_eq r.key k)) [
  | inl e ↦ absurd (ground arith)
  | inr e ↦ elim (Bool-cases (p r)) [
    | inl in_table ↦ rw in_table (rw e (find_row-keep-none k p t (rw e at h)))
    | inr gone ↦ rw gone (find_row-keep-none k p t (rw e at h))
  ]
]

pub find_row-update_some :
    (j k : Key) (f : Row → Row) (t : Table) {row : Row}
    → ((r : Row) → (f r).key ≡ r.key)
    → find_row j t ≡ some row
    → find_row j (update_row k f t) ≡ some (if key_eq row.key k then f row else row)
find_row-update_some j k f t same h = rw (find_row-update_row j k f t same, h)

pub find_row-update_other :
    (j k : Key) (f : Row → Row) (t : Table) {row : Row}
    → ((r : Row) → (f r).key ≡ r.key)
    → find_row j t ≡ some row
    → key_eq j k ≡ false
    → find_row j (update_row k f t) ≡ some row
find_row-update_other j k f t {row} same h other =
    let e : key_eq row.key k ≡ false = ap (λ x. key_eq x k) (find_row-key j t h) ∙ other in
    find_row-update_some j k f t same h ∙ ap (λ b. some (if b then f row else row)) e

pub find_row-update_self :
    (k : Key) (f : Row → Row) (t : Table) {row : Row}
    → ((r : Row) → (f r).key ≡ r.key)
    → find_row k t ≡ some row
    → find_row k (update_row k f t) ≡ some (f row)
find_row-update_self k f t {row} same h =
    let e = ap (λ x. key_eq x k) (find_row-key k t h) ∙ key_eq_refl k in
    find_row-update_some k k f t same h ∙ ap (λ b. some (if b then f row else row)) e

pub key_eq_comm : (a b : Key) → key_eq a b ≡ key_eq b a
key_eq_comm a b = elim (Bool-cases (key_eq a b)) [
  | inl e ↦ e ∙ sym (key_eq_self b a (sym (key_eq_sound a b e)))
  | inr e ↦ elim (Bool-cases (key_eq b a)) [
    | inl e' ↦ key_eq_self a b (sym (key_eq_sound b a e')) ∙ sym e'
    | inr e' ↦ e ∙ sym e'
  ]
]

-- A release leaves a row of another key, and one that is completed.
pub find_row-release :
    (k : Key) (sha256 : Text → String) (tenant : String) (key : Text) (t : Table) {row : Row}
    → find_row k t ≡ some row
    → (key_eq (claim_key sha256 tenant key) k ≡ false) ⊎ (row.status ≡ RowStatus.completed)
    → find_row k (release sha256 tenant key t) ≡ some row
unfolding release is_done
find_row-release k sha256 tenant key t {row} h why =
    let k' = claim_key sha256 tenant key in
    let mine = find_row-key k t h in
    find_row-keep k _ t h (elim why [
      | inl other ↦ let e : key_eq row.key k' ≡ false = rw mine (key_eq_comm k k' ∙ other) in rw e
      | inr finished ↦ elim (Bool-cases (key_eq row.key k')) [
        | inl e ↦ rw (finished, e)
        | inr e ↦ rw e
      ]
    ])
