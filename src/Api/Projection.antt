-- ===== src/Api/Projection.antt =====
-- apps/api/src/repositories/projection-repo.ts: the pages of the projected balances and holdings. The tables
-- are lists; with PILLAR_DEMO_DATA=true the rows in memory stand in for them. Parameters are
-- JavaScript's decimal numbers with `Number`, `+` and `toFixed(6)`, the order
-- of localeCompare, and the order of texts in the database. Times are milliseconds.
pub mod Pages
pub mod Routes
mod Tests
use canton_pillar.Base.{
  ◌≡◌, refl, ℕ, zero, suc, ◌+◌, ◌-◌, ◌*◌, min, max, Bool, true, false, ◌&&◌, ◌||◌, not, Option,
  none, some, List, [], ◌∷◌, map, Text, String, codes, Result, ok, err, ◌>>=◌, if◌then◌else◌,
  or_else, ltb, leb, keep, find, take, text_eq, text_le,
}
use canton_pillar.Base.Sorting.{sort}
use canton_pillar.Idempotency.Canonical.{Json, obj, end}

-- A page size of the query, as `Number` reads it.
pub data Limit : Type 0 where
  not_a_number below_one : Limit
  whole : ℕ → Limit

pub record Page : Type 0 where
  pub account : Option Text
  pub asset : Option Text
  pub status : Option Text
  pub limit : Option Limit
  pub starting_after : Option Text
  pub ending_before : Option Text

pub record ProjectionMeta : Type 0 where
  pub stale : Bool
  pub as_of_ledger_offset : Option Text

pub record Balance : Type 0 where
  pub id : Text
  pub created : ℕ
  pub livemode : Bool
  pub account : Text
  pub asset : Text
  pub available : Text
  pub pending : Text
  pub reserved : Text
  pub settled : Text
  pub as_of_ledger_offset : Text
  pub as_of_ledger_time : ℕ
  pub metadata : Json
  pub projection : Option ProjectionMeta

pub record Holding : Type 0 where
  pub id : Text
  pub created : ℕ
  pub livemode : Bool
  pub account : Text
  pub asset : Text
  pub amount : Text
  pub status : Text
  pub source_intent : Text
  pub metadata : Json
  pub projection : Option ProjectionMeta

-- `Math.max(1, Math.min(100, Number(limit ?? 10)))`; `none` is NaN.
unfoldable pub clamp_limit : Option Limit → Option ℕ
clamp_limit none = some 10
clamp_limit (some not_a_number) = none
clamp_limit (some below_one) = some 1
clamp_limit (some (whole n)) = some (max 1 (min 100 n))

-- `slice(0, n)`; to NaN it is empty.
abbrev pub slice_to_limit {ℓ} : {A : Type ℓ} → Option ℕ → List A → List A
slice_to_limit none rows = []
slice_to_limit (some n) rows = take n rows

-- What a page reads of a row.
pub record Sortable : Type 0 where
  pub id : Text
  pub account : Text
  pub asset : Text
  pub status : Option Text

-- `!filter || value === filter`.
abbrev pub passes : Option Text → Option Text → Bool
passes none value = true
passes (some []) value = true
passes (some (c ∷ s)) none = false
passes (some (c ∷ s)) (some v) = text_eq v (c ∷ s)

abbrev pub is_past : Option Text → Text → Bool
is_past none id = true
is_past (some []) id = true
is_past (some (c ∷ s)) id = not (text_le id (c ∷ s))

abbrev pub is_before : Option Text → Text → Bool
is_before none id = true
is_before (some []) id = true
is_before (some (c ∷ s)) id = not (text_le (c ∷ s) id)

-- The first difference of two comparisons in a row decides.
abbrev pub by_then : (Text → Text → Bool) → Text → Text → Bool → Bool
by_then le a b rest = if le a b then (if le b a then rest else true) else false

abbrev pub sortable_le : (Text → Text → Bool) → Sortable → Sortable → Bool
sortable_le le a b = by_then le a.asset b.asset (by_then le a.account b.account (le a.id b.id))

module _ {A : Type 0} (locale_le : Text → Text → Bool) (view : A → Sortable) where
  unfoldable pub matches : Page → A → Bool
  matches p r =
      passes p.account (some (view r).account)
      && passes p.asset (some (view r).asset)
      && passes p.status (view r).status

  unfoldable pub ordered_page : List A → Page → List A
  unfolding matches clamp_limit
  ordered_page rows p =
      let out = sort (λ a b. sortable_le locale_le (view a) (view b)) (keep (matches p) rows) in
      let after = keep (λ r. is_past p.starting_after (view r).id) out in
      let between = keep (λ r. is_before p.ending_before (view r).id) after in
      slice_to_limit (clamp_limit p.limit) between

-- The columns of `balances` and `holdings` that are read; the others are there for `stale`.
pub record ProjectionRow : Type 0 where
  pub id : Text
  pub tenant_id : Text
  pub account_id : Text
  pub asset_id : Text
  pub created_at : ℕ
  pub available : Option Text
  pub pending : Option Text
  pub reserved : Option Text
  pub total : Option Text
  pub status : Option Text
  pub source_intent : Option Text
  pub metadata : Option Json
  pub as_of_ledger_offset : Option Text
  pub ledger_offset : Option Text
  pub projection_watermark : Option Text
  pub as_of_ledger_time : Option ℕ
  pub projected_at : Option ℕ
  pub updated_at : Option ℕ

-- `a ?? b` of two values that may be missing.
abbrev pub first_of {ℓ} : {A : Type ℓ} → Option A → Option A → Option A
first_of none b = b
first_of (some a) b = some a

-- Older than the limit in seconds; a row without a time has the age 0.
abbrev pub is_older : ℕ → ℕ → Option ℕ → Bool
is_older seconds now none = false
is_older seconds now (some t) = ltb (seconds * 1000) (now - t)

unfoldable pub stale : ℕ → ℕ → ProjectionRow → ProjectionMeta
stale seconds now row = record {
  stale =
      is_older seconds now
        (first_of row.as_of_ledger_time (first_of row.projected_at row.updated_at));
  as_of_ledger_offset =
      first_of row.as_of_ledger_offset (first_of row.ledger_offset row.projection_watermark);
}

-- `meta`: an object that is not an array, or an empty one.
abbrev pub meta : Option Json → Json
meta (some (obj fs)) = obj fs
meta j = obj end

pub data QueryError : Type 0 where
  invalid_limit : QueryError

module _ {N : Type 0} (number : Option Text → N) (plus : N → N → N) (to_fixed : N → Text)
    (seconds now : ℕ) where
  -- `Number(v ?? 0).toFixed(6)`.
  abbrev pub dec : Option Text → Text
  dec v = to_fixed (number (some (or_else v (codes "0"))))

  unfoldable pub balance_of : ProjectionRow → Balance
  unfolding stale
  balance_of row = record {
    id = row.id;
    created = row.created_at;
    livemode = false;
    account = row.account_id;
    asset = row.asset_id;
    available = dec row.available;
    pending = dec row.pending;
    reserved = dec row.reserved;
    settled =
        to_fixed (plus (plus (number row.available) (number row.pending)) (number row.reserved));
    as_of_ledger_offset = or_else row.as_of_ledger_offset (codes "0");
    as_of_ledger_time = or_else row.as_of_ledger_time now;
    metadata = meta row.metadata;
    projection = some (stale seconds now row);
  }

  unfoldable pub holding_of : ProjectionRow → Holding
  unfolding stale
  holding_of row = record {
    id = row.id;
    created = row.created_at;
    livemode = false;
    account = row.account_id;
    asset = row.asset_id;
    amount = dec (first_of row.total row.available);
    status = or_else row.status (codes "active");
    source_intent = or_else row.source_intent (codes "trint_projection");
    metadata = meta row.metadata;
    projection = some (stale seconds now row);
  }

abbrev pub balance_view : Balance → Sortable
balance_view b = record { id = b.id; account = b.account; asset = b.asset; status = none }

abbrev pub holding_view : Holding → Sortable
holding_view h = record { id = h.id; account = h.account; asset = h.asset; status = some h.status }

abbrev pub row_view : ProjectionRow → Sortable
row_view r = record { id = r.id; account = r.account_id; asset = r.asset_id; status = r.status }

-- `$2 is null or account_id=$2`.
abbrev pub is_null_or : Option Text → Text → Bool
is_null_or none v = true
is_null_or (some w) v = text_eq v w

-- `limit $4`, one more than the page has; the database refuses NaN.
abbrev pub limited : {A : Type 0} → Option ℕ → List A → Result QueryError (List A)
limited none rows = err invalid_limit
limited (some n) rows = ok (take (n + 1) rows)

abbrev pub is_hit : Text → Page → ProjectionRow → Bool
is_hit tenant p r =
    text_eq r.tenant_id tenant && is_null_or p.account r.account_id && is_null_or p.asset r.asset_id

-- The query of a list.
unfoldable pub select_page :
    (Text → Text → Bool) → List ProjectionRow → Text → Page → Result QueryError (List ProjectionRow)
unfolding clamp_limit
select_page collate_le table tenant p =
    limited (clamp_limit p.limit) (
      sort (λ a b. sortable_le collate_le (row_view a) (row_view b)) (keep (is_hit tenant p) table))

-- The rows in memory, made when the module was loaded.
abbrev pub memory_balances : ℕ → List Balance
memory_balances started =
    record {
      id = codes "bal_demo0001";
      created = started;
      livemode = false;
      account = codes "acct_demo";
      asset = codes "asst_demo0001";
      available = codes "100.000000";
      pending = codes "0.000000";
      reserved = codes "0.000000";
      settled = codes "100.000000";
      as_of_ledger_offset = codes "10";
      as_of_ledger_time = started;
      metadata = obj end;
      projection = none;
    }
    ∷ []

abbrev pub memory_holdings : ℕ → List Holding
memory_holdings started =
    record {
      id = codes "hld_demo0001";
      created = started;
      livemode = false;
      account = codes "acct_demo";
      asset = codes "asst_demo0001";
      amount = codes "100.000000";
      status = codes "active";
      source_intent = codes "trint_demo0001";
      metadata = obj end;
      projection = none;
    }
    ∷ []

-- `useDemo()`, with the rows that it stands for.
abbrev pub demo_rows : {A : Type 0} → Bool → List A → Option (List A)
demo_rows true memory = some memory
demo_rows false memory = none

-- The rows in memory, whatever the tenant, or those of the table.
unfoldable pub list_rows :
    {A : Type 0}
    → (Text → Text → Bool)
    → (Text → Text → Bool)
    → (A → Sortable)
    → (ProjectionRow → A)
    → Option (List A)
    → List ProjectionRow
    → Text
    → Page
    → Result QueryError (List A)
unfolding select_page ordered_page
list_rows collate_le locale_le view of_row (some memory) table tenant p =
    ok (ordered_page locale_le view memory p)
list_rows collate_le locale_le view of_row none table tenant p = do
  rows ← select_page collate_le table tenant p
  ok (ordered_page locale_le view (map of_row rows) p)
