-- ===== src/Db/Migrations.antt =====
-- packages/db/src/migration-runner.ts: `loadMigrations`, and `plan`, `up`, `status` and `dryRun` of
-- `MigrationRunner`. `sha256` is node's digest. What a script does to the database is a parameter:
-- `exec sql db` is the database after the script, or `none` if the script fails. A transaction that
-- fails is rolled back; the advisory lock lets one `up` run at a time, so `up` is one step.
pub mod Ledger
pub mod Runs
use canton_pillar.Base.{
  ◌≡◌, refl, ℕ, Bool, true, false, ◌&&◌, ◌||◌, not, Option, none, some, List, [], ◌∷◌, ◌++◌, map,
  Text, Result, ok, err, ◌>>=◌, if◌then◌else◌, codes, text_eq, text_le, ends_with, starts_with,
  find, keep, is_some,
}
use canton_pillar.Base.Sorting.{sort}

pub data Variant : Type 0 where
  versioned repeatable : Variant

pub record Migration : Type 0 where
  pub name : Text
  pub sql : Text
  pub checksum : Text
  pub variant : Variant

-- A row of `_migrations`.
pub record Applied : Type 0 where
  pub name : Text
  pub checksum : Text
  pub variant : Variant

abbrev pub Ledger : Type 0
Ledger = List Applied

-- The directory that `walk` reads: names with contents.
mutual
  pub data Node : Type 0 where
    file : (content : Text) → Node
    directory : Nodes → Node

  pub data Nodes : Type 0 where
    leaf : Nodes
    node : (name : Text) → Node → Nodes → Nodes

abbrev pub join_path : Text → Text → Text
join_path [] name = name
join_path (c ∷ dir) name = (c ∷ dir) ++ b'/' ∷ name

-- The files under a directory that end in .sql, by their path relative to the root.
unfoldable mutual
  pub walk : Text → Nodes → List (Text × Text)
  walk path leaf = []
  walk path (node name n ns) = walk_node path name n ++ walk path ns

  pub walk_node : Text → Text → Node → List (Text × Text)
  walk_node path name (directory ns) = walk (join_path path name) ns
  walk_node path name (file content) =
      if ends_with (codes ".sql") name then (join_path path name, content) ∷ [] else []

unfoldable pub load_migrations : (Text → Text) → Nodes → List Migration
unfolding walk
load_migrations sha256 root =
    map
      (λ f. record {
        name = f.0;
        sql = f.1;
        checksum = sha256 f.1;
        variant = if starts_with (codes "repeatable/") f.0 then repeatable else versioned;
      })
      (sort (λ a b. text_le a.0 b.0) (walk [] root))

abbrev pub applied : Text → Ledger → Option Applied
applied name = find (λ r. text_eq r.name name)

abbrev pub is_repeatable : Variant → Bool
is_repeatable repeatable = true
is_repeatable versioned = false

abbrev pub is_pending : Migration → Option Applied → Bool
is_pending m none = true
is_pending m (some r) = is_repeatable m.variant && not (text_eq r.checksum m.checksum)

abbrev pub needs_run : Ledger → Migration → Bool
needs_run l m = is_pending m (applied m.name l)

abbrev pub has_drift : Migration → Option Applied → Bool
has_drift m none = false
has_drift m (some r) = not (text_eq r.checksum m.checksum)

unfoldable pub plan : Ledger → List Migration → List Migration
plan l = keep (needs_run l)

-- `insert … on conflict(name) do update`.
unfoldable pub record_run : Migration → Ledger → Ledger
record_run m [] = record { name = m.name; checksum = m.checksum; variant = m.variant } ∷ []
record_run m (r ∷ l) =
    if text_eq r.name m.name
    then record { name = m.name; checksum = m.checksum; variant = m.variant } ∷ l
    else r ∷ record_run m l

pub data UpError : Type 0 where
  checksum_drift : (name : Text) → UpError
  sql_failed : (name : Text) → UpError

pub record Status : Type 0 where
  pub name : Text
  pub applied : Bool
  pub checksum : Text
  pub drift : Bool

pub data Action : Type 0 where
  drifted skips runs : Action

-- The guards of the loop of `up`.
abbrev pub action : Migration → Option Applied → Action
action m none = runs
action m (some r) =
    if text_eq r.checksum m.checksum
    then skips
    else if is_repeatable m.variant
    then runs
    else drifted

module _ {D : Type 0} (exec : Text → D → Option D) where
  abbrev pub run_script : Migration → D × Ledger → Result UpError (D × Ledger)
  run_script m (db, l) = elim (exec m.sql db) [
    | none ↦ err (sql_failed m.name)
    | some db' ↦ ok (db', record_run m l)
  ]

  abbrev pub act : Action → Migration → D × Ledger → Result UpError (D × Ledger)
  act drifted m s = err (checksum_drift m.name)
  act skips m s = ok s
  act runs m s = run_script m s

  unfoldable pub up_loop : List Migration → D × Ledger → Result UpError (D × Ledger)
  up_loop [] s = ok s
  up_loop (m ∷ ms) s = act (action m (applied m.name s.1)) m s >>= up_loop ms

  -- COMMIT, or ROLLBACK and the error.
  unfoldable pub up : List Migration → D × Ledger → (D × Ledger) × Result UpError (Unit {0})
  unfolding up_loop
  up ms s = elim (up_loop ms s) [ ok s' ↦ (s', ok tt) | err e ↦ (s, err e) ]

  unfoldable pub dry_run_loop : List Migration → D → Result UpError D
  dry_run_loop [] db = ok db
  dry_run_loop (m ∷ ms) db = elim (exec m.sql db) [
    | none ↦ err (sql_failed m.name)
    | some db' ↦ dry_run_loop ms db'
  ]

  abbrev dry_result : D × Ledger → Result UpError D → (D × Ledger) × Result UpError (Unit {0})
  dry_result s (ok db) = (s, ok tt)
  dry_result s (err e) = (s, err e)

  -- The scripts of the plan, and ROLLBACK in any case. `plan` makes sure of the ledger on a second
  -- connection: if no committed table `_migrations` is there (`ledger_exists`), then it waits for the
  -- transaction that has just created one, and that waits for it. `none` is a call that never ends.
  unfoldable pub dry_run :
      (ledger_exists : Bool)
      → List Migration
      → D × Ledger
      → Option ((D × Ledger) × Result UpError (Unit {0}))
  unfolding dry_run_loop plan
  dry_run false ms s = none
  dry_run true ms s = some (dry_result s (dry_run_loop (plan s.1 ms) s.0))

unfoldable pub status : Ledger → List Migration → List Status
status l = map λ m. record {
  name = m.name;
  applied = is_some (applied m.name l);
  checksum = m.checksum;
  drift = has_drift m (applied m.name l);
}
