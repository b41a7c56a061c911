-- ===== src/Usage.antt =====
-- services/usage-meter: the consumer, the rollups and their reconciliation. `UsageEnvelope.parse` has
-- been passed. A quantity is any text; one that BigInt does not read is a SyntaxError where it is read.
pub mod Quantity
pub mod Reconciliation
pub mod Consumption
mod Tests
use canton_pillar.Base.{
  ◌≡◌, refl, ℕ, suc, ◌+◌, Bool, true, false, ◌&&◌, not, Option, none, some, List, [], ◌∷◌, ◌++◌,
  map, Text, Result, ok, err, ◌>>=◌, if◌then◌else◌, codes, text_eq, any, keep, decimal, ◌==◌,
}
use canton_pillar.Base.Sorting.{sort}
use canton_pillar.Usage.Quantity.{ℤ, pos, ◌+ℤ◌, eq_ℤ, big_int, big_text}

-- The fields that the service reads.
pub record UsageEnvelope : Type 0 where
  pub tenant_id : Text
  pub environment_id : Text
  pub meter : Text
  pub quantity : Text
  pub dedupe_key : Text
  pub billable : Bool

abbrev pub known_meters : List Text
known_meters =
    codes "api.request.accepted"
    ∷ codes "api.request.read_sampled"
    ∷ codes "api.request.replayed"
    ∷ codes "intent.created"
    ∷ codes "ledger.command.submitted"
    ∷ codes "ledger.command.rejected"
    ∷ codes "webhook.delivery.attempted"
    ∷ codes "webhook.delivery.succeeded"
    ∷ codes "webhook.delivery.failed"
    ∷ codes "webhook.delivery.dlq"
    ∷ codes "projection.storage.byte_hour"
    ∷ codes "search.indexed_object"
    ∷ codes "export.bytes"
    ∷ codes "workflow.task.executed"
    ∷ []

-- `StreamConsumer`: the set `seen` and `rows`.
pub record Consumer : Type 0 where
  pub seen : List Text
  pub rows : List UsageEnvelope

abbrev pub dedupe_of : UsageEnvelope → Text
dedupe_of env = env.tenant_id ++ b':' ∷ env.dedupe_key

-- What `consume` returns, or the meter that it throws at.
unfoldable pub consume : UsageEnvelope → Consumer → Consumer × Result Text Bool
consume env c =
    if not (any (text_eq env.meter) known_meters)
    then (c, err env.meter)
    else if any (text_eq (dedupe_of env)) c.seen
    then (c, ok false)
    else (record { seen = c.seen ++ dedupe_of env ∷ []; rows = c.rows ++ env ∷ [] }, ok true)

-- An entry of the map: its key, the first event, and what was added up.
pub record Group : Type 0 where
  pub key : Text
  pub first : UsageEnvelope
  pub quantity : ℤ
  pub count : ℕ

pub record Rollup : Type 0 where
  pub key : Text
  pub tenant_id : Text
  pub environment_id : Text
  pub meter : Text
  pub granularity : Text
  pub period_start : Text
  pub period_end : Text
  pub quantity : Text
  pub event_count : ℕ
  pub source_checksum : Text

abbrev pub bar : Text → Text → Text
bar a b = a ++ b'|' ∷ b

abbrev pub rollup_key : (granularity start end_ : Text) → UsageEnvelope → Text
rollup_key granularity start end_ e =
    bar e.tenant_id (bar e.environment_id (bar e.meter (bar granularity (bar start end_))))

-- `map.get(k) ?? …`, and `map.set`, with the quantity that was read.
unfoldable pub add_event : Text → UsageEnvelope → ℤ → List Group → List Group
add_event k e q [] = record { key = k; first = e; quantity = pos 0 +ℤ q; count = 1 } ∷ []
add_event k e q (g ∷ gs) =
    if text_eq g.key k
    then record g { quantity = g.quantity +ℤ q; count = suc g.count } ∷ gs
    else g ∷ add_event k e q gs

-- `BigInt(text)`, with the text at which it throws.
abbrev pub read_or_throw : Text → Option ℤ → Result Text ℤ
read_or_throw s none = err s
read_or_throw s (some q) = ok q

abbrev pub quantity_of : Text → Result Text ℤ
quantity_of s = read_or_throw s (big_int s)

unfoldable pub group_events :
    (granularity start end_ : Text) → List UsageEnvelope → List Group → Result Text (List Group)
unfolding add_event
group_events granularity start end_ [] gs = ok gs
group_events granularity start end_ (e ∷ es) gs =
    let skipped = group_events granularity start end_ es gs in
    if e.billable
    then (quantity_of e.quantity >>= λ q.
        group_events granularity start end_ es
          (add_event (rollup_key granularity start end_ e) e q gs))
    else skipped

abbrev pub rollup_of : (granularity start end_ : Text) → Group → Rollup
rollup_of granularity start end_ g = record {
  key = g.key;
  tenant_id = g.first.tenant_id;
  environment_id = g.first.environment_id;
  meter = g.first.meter;
  granularity = granularity;
  period_start = start;
  period_end = end_;
  quantity = big_text g.quantity;
  event_count = g.count;
  source_checksum = g.key ++ b':' ∷ (big_text g.quantity ++ b':' ∷ decimal g.count);
}

-- `compare_le` is localeCompare.
unfoldable pub rebuild_rollup :
    (Text → Text → Bool)
    → List UsageEnvelope
    → (granularity start end_ : Text) → Result Text (List Rollup)
unfolding group_events
rebuild_rollup compare_le events granularity start end_ =
    group_events granularity start end_ events [] >>= λ gs.
    ok (map (rollup_of granularity start end_) (sort (λ a b. compare_le a.key b.key) gs))

-- The reductions of `compare`, from a first total.
unfoldable pub raw_total : ℤ → List UsageEnvelope → Result Text ℤ
raw_total n [] = ok n
raw_total n (e ∷ es) =
    let skipped = raw_total n es in
    if e.billable then (quantity_of e.quantity >>= λ q. raw_total (n +ℤ q) es) else skipped

unfoldable pub roll_total : ℤ → List Rollup → Result Text ℤ
roll_total n [] = ok n
roll_total n (r ∷ rs) = quantity_of r.quantity >>= λ q. roll_total (n +ℤ q) rs

pub record Comparison : Type 0 where
  pub agrees : Bool
  pub expected : Text
  pub actual : Text

unfoldable pub compare_totals : List UsageEnvelope → List Rollup → Result Text Comparison
unfolding raw_total roll_total
compare_totals raw rollups = do
  expected ← raw_total (pos 0) raw
  actual ← roll_total (pos 0) rollups
  ok (record {
    agrees = eq_ℤ expected actual;
    expected = big_text expected;
    actual = big_text actual;
  })

pub data CloseError : Type 0 where
  syntax_error : Text → CloseError
  reconciliation_mismatch : (expected actual : Text) → CloseError

-- A mismatch is thrown.
abbrev pub block_unless : Bool → Comparison → Result CloseError Comparison
block_unless true r = ok r
block_unless false r = err (reconciliation_mismatch r.expected r.actual)

abbrev pub closed : Result Text Comparison → Result CloseError Comparison
closed (err s) = err (syntax_error s)
closed (ok r) = block_unless r.agrees r

unfoldable pub block_monthly_close : List UsageEnvelope → List Rollup → Result CloseError Comparison
unfolding compare_totals
block_monthly_close raw rollups = closed (compare_totals raw rollups)
