-- ===== src/Api/Projection/Pages.antt =====
-- Which rows a list of balances or holdings may hold.
use canton_pillar.Base.{
  ◌≡◌, ◌⊎◌, ℕ, ◌≤◌, Bool, true, false, Option, some, List, [], map, Text, codes, length, All, Any,
  or_else,
}
use canton_pillar.Api.Projection.{Balance, ProjectionRow, memory_balances}
use canton_pillar.Api.Projection.Routes.{
  Query, Reply, listed, is_text, is_stale, OperationRow, Operations, balance_livemode,
}

-- The row stands in the table and is the tenant's.
abbrev pub IsOwn : Text → List ProjectionRow → ProjectionRow → Type 0
IsOwn tenant table row = Any (λ r. r ≡ row) table × (row.tenant_id ≡ tenant)

abbrev rows_of : {A : Type 0} → Reply A → List A
rows_of (listed rows) = rows
rows_of reply = []

-- The operation is projected: the cache says so, or demo data is on, or a row of the tenant.
abbrev pub IsProjected : Operations → Text → Text → Type 0
IsProjected o tenant operation =
    (o.cached tenant operation ≡ some (codes "projected"))
    ⊎ (o.use_demo ≡ true)
    ⊎ (row : OperationRow) × Any (λ r. r ≡ row) o.rows
      × (row.tenant_id ≡ tenant)
      × (row.operation_id ≡ operation)
      × (or_else row.status (codes "projected") ≡ codes "projected")

-- The operation that the query names is projected, if the query waits for one.
abbrev pub Waited : Operations → Text → Query → Type 0
Waited operations tenant q =
    (is_text "wait_for_operation" q.consistency ≡ false)
    ⊎ (operation : Text) × (q.operation ≡ some operation) × IsProjected operations tenant operation

module _ {A : Type 0} (tenant : Text) (table : List ProjectionRow)
    (of_row : ProjectionRow → A) where
  abbrev pub FromOwn : A → Type 0
  FromOwn a = (row : ProjectionRow) × IsOwn tenant table row × (a ≡ of_row row)

-- A balance of the demo data.
abbrev pub IsMemory : ℕ → Balance → Type 0
IsMemory started b =
    Any (λ m. (m.id ≡ b.id) × (m.account ≡ b.account) × (m.asset ≡ b.asset))
      (memory_balances started)

-- A balance that shows a row of the tenant.
abbrev pub Shows : Text → List ProjectionRow → Balance → Type 0
Shows tenant table b =
    (row : ProjectionRow) × IsOwn tenant table row
    × (b.id ≡ row.id)
    × (b.account ≡ row.account_id)
    × (b.asset ≡ row.asset_id)

pub record IsServed (table : List ProjectionRow) (operations : Operations) (tenant : Text)
    (q : Query) (out : List Balance) : Type 0 where
  pub own :
      ((operations.use_demo ≡ true) × All (IsMemory operations.started) out)
      ⊎ ((operations.use_demo ≡ false) × All (Shows tenant table) out)
  pub short : length out ≤ 100
  pub fresh :
      (is_text "strong" q.consistency ≡ false) ⊎ All (λ b. is_stale b.projection ≡ false) out
  pub waited : Waited operations tenant q

module _ {N : Type 0} (number : Option Text → N) (plus : N → N → N) (to_fixed : N → Text)
    (seconds now : ℕ) (collate_le locale_le : Text → Text → Bool) where
  -- What a page of balances came from: the rows in memory, or those of the tenant.
  abbrev CameFrom : Bool → ℕ → List ProjectionRow → Text → Bool → List Balance → Type 0
  CameFrom use_demo started table tenant livemode rows =
      ((use_demo ≡ true) × All (IsMemory started) (map (balance_livemode livemode) rows))
      ⊎ ((use_demo ≡ false) × All (Shows tenant table) (map (balance_livemode livemode) rows))
