-- ===== src/Api/Projection/Routes.antt =====
-- apps/api/src/routes/v1/balances.ts and holdings.ts: the lists, and what they answer under each
-- consistency. The presenters, which check a schema, and the envelope of a list are not modelled.
use canton_pillar.Base.{
  ℕ, Bool, false, ◌&&◌, Option, none, some, List, [], ◌∷◌, map, Text, String, codes, Result, ok,
  err, if◌then◌else◌, or_else, find, text_eq, any,
}
use canton_pillar.Api.Projection.{
  Page, Balance, Holding, ProjectionMeta, ProjectionRow, QueryError, list_rows, balance_of,
  holding_of, demo_rows, memory_balances, memory_holdings, balance_view, holding_view,
}

pub record Query : Type 0 where
  pub consistency : Option Text
  pub operation : Option Text
  pub simulate_lag : Option Text
  pub page : Page

pub data Reply (A : Type 0) : Type 0 where
  bad_request : Reply A
  accepted : (object : String) → Text → Reply A
  stale_error : (offset : Option Text) → Reply A
  failed : QueryError → Reply A
  listed : List A → Reply A

abbrev pub is_text : String → Option Text → Bool
is_text s none = false
is_text s (some t) = text_eq t (codes s)

abbrev pub is_stale : Option ProjectionMeta → Bool
is_stale none = false
is_stale (some m) = m.stale

abbrev pub offset_of : Option ProjectionMeta → Option Text
offset_of none = none
offset_of (some m) = m.as_of_ledger_offset

module _ {A : Type 0} (projection : A → Option ProjectionMeta) (with_livemode : Bool → A → A) where
  -- The offset of the first row that is stale.
  abbrev stale_offset : List A → Option Text
  stale_offset [] = none
  stale_offset (r ∷ rows) =
      if is_stale (projection r) then offset_of (projection r) else stale_offset rows

  unfoldable pub answer : Bool → Option Text → Result QueryError (List A) → Reply A
  answer livemode consistency (err e) = failed e
  answer livemode consistency (ok rows) =
      if is_text "strong" consistency && any (λ r. is_stale (projection r)) rows
      then stale_error (stale_offset rows)
      else listed (map (with_livemode livemode) rows)

-- The status of an operation's projection: the cached one, or that of its row in the tenant, or `missing`.
pub record OperationRow : Type 0 where
  pub tenant_id : Text
  pub operation_id : Text
  pub status : Option Text

abbrev pub status_of : Option OperationRow → Text
status_of none = codes "missing"
status_of (some row) = or_else row.status (codes "projected")

-- What is read: whether demo data is on and when it was made, the status that the cache holds for a
-- tenant and an operation, and the table.
pub record Operations : Type 0 where
  pub use_demo : Bool
  pub started : ℕ
  pub cached : Text → Text → Option Text
  pub rows : List OperationRow

abbrev loaded_status : Operations → Text → Text → Text
loaded_status o tenant operation =
    if o.use_demo
    then codes "projected"
    else status_of
        (find (λ row. text_eq row.tenant_id tenant && text_eq row.operation_id operation) o.rows)

unfoldable pub operation_status : Operations → Text → Text → Text
operation_status o tenant operation =
    or_else (o.cached tenant operation) (loaded_status o tenant operation)

-- An empty operation is a missing one.
abbrev pub given : Option Text → Option Text
given none = none
given (some []) = none
given (some (c ∷ s)) = some (c ∷ s)

module _ {A : Type 0} where
  unfoldable pub wait_for : Operations → Text → Option Text → Option Text → Option (Reply A)
  unfolding operation_status
  wait_for operations tenant simulate_lag none = some bad_request
  wait_for operations tenant simulate_lag (some operation) =
      if is_text "true" simulate_lag
      then some (accepted "balance_pending" operation)
      else if text_eq (operation_status operations tenant operation) (codes "projected")
      then none
      else some (accepted "projection_pending" operation)

  -- The replies that come before the list under `wait_for_operation`.
  unfoldable pub wait_for_operation : Operations → Text → Query → Option (Reply A)
  unfolding wait_for
  wait_for_operation operations tenant q =
      if is_text "wait_for_operation" q.consistency
      then wait_for operations tenant q.simulate_lag (given q.operation)
      else none

abbrev pub balance_livemode : Bool → Balance → Balance
balance_livemode livemode b = record b { livemode = livemode }

abbrev pub holding_livemode : Bool → Holding → Holding
holding_livemode livemode h = record h { livemode = livemode }

module _ {N : Type 0} (number : Option Text → N) (plus : N → N → N) (to_fixed : N → Text)
    (seconds now : ℕ) (collate_le locale_le : Text → Text → Bool) where
  unfoldable pub get_balances :
      List ProjectionRow → Operations → Text → Bool → Query → Reply Balance
  unfolding wait_for_operation answer list_rows balance_of
  get_balances table operations tenant livemode q =
      or_else (wait_for_operation operations tenant q) (
        answer (λ b. b.projection) balance_livemode livemode q.consistency
          (list_rows collate_le locale_le balance_view (balance_of number plus to_fixed seconds now)
            (demo_rows operations.use_demo (memory_balances operations.started)) table tenant
            (record q.page { status = none })))

  unfoldable pub get_holdings :
      Bool → (started : ℕ) → List ProjectionRow → Text → Bool → Query → Reply Holding
  unfolding answer list_rows holding_of
  get_holdings use_demo started table tenant livemode q =
      answer (λ h. h.projection) holding_livemode livemode q.consistency
        (list_rows collate_le locale_le holding_view (holding_of number plus to_fixed seconds now)
          (demo_rows use_demo (memory_holdings started)) table tenant q.page)
