-- ===== src/Db/Tests.antt =====
-- The migrations of a small directory, and the theorems at concrete inputs.
use canton_pillar.Base.{
  ◌≡◌, refl, arith, true, Option, none, some, List, [], ◌∷◌, ◌++◌, Text, ok, err, codes, All, inl,
  inr, if◌then◌else◌, text_eq, map,
}
use canton_pillar.Db.Migrations.{
  Migration, Ledger, Variant, versioned, repeatable, Nodes, file, directory, leaf, node,
  load_migrations, walk, plan, up, up_loop, record_run, dry_run, dry_run_loop, status, UpError,
}
use canton_pillar.Db.Migrations.Runs.{IsCurrent, IsCause, up-plan, up-IsDrifted}

abbrev digest : Text → Text
digest s = s ++ codes "#"

-- A database that is the list of the scripts it ran, and that rejects the script `bad`.
abbrev exec : Text → List Text → Option (List Text)
exec sql db = if text_eq sql (codes "bad") then none else some (db ++ sql ∷ [])

abbrev tree : Nodes
tree = node (codes "repeatable") (directory (node (codes "r.sql") (file (codes "view")) leaf)) (
    node (codes "b.sql") (file (codes "two"))
      (node (codes "a.sql") (file (codes "one")) (node (codes "x.md") (file []) leaf)))

load_test :
    map {B = Text × Variant} (λ m. (m.name, m.variant)) (load_migrations digest tree)
    ≡ (codes "a.sql", versioned)
      ∷ (codes "b.sql", versioned)
      ∷ (codes "repeatable/r.sql", repeatable)
      ∷ []
unfolding load_migrations walk
load_test = refl

abbrev a_sql : Migration
a_sql = record {
  name = codes "a.sql";
  sql = codes "one";
  checksum = codes "one#";
  variant = versioned;
}

abbrev r_sql : Migration
r_sql = record {
  name = codes "r.sql";
  sql = codes "view";
  checksum = codes "view#";
  variant = repeatable;
}

abbrev ledger : Ledger
ledger = record { name = codes "r.sql"; checksum = codes "old#"; variant = repeatable } ∷ []

abbrev drifted_ledger : Ledger
drifted_ledger = record { name = codes "a.sql"; checksum = codes "old#"; variant = versioned } ∷ []

up-plan_example :
    let s' = (up exec (a_sql ∷ r_sql ∷ []) ([], ledger)).0 in
    (dry_run_loop exec (plan ledger (a_sql ∷ r_sql ∷ [])) [] ≡ ok s'.0)
    × (dry_run exec true (a_sql ∷ r_sql ∷ []) ([], ledger) ≡ some (([], ledger), ok tt))
    × (plan s'.1 (a_sql ∷ r_sql ∷ []) ≡ [])
    × All IsCurrent (status s'.1 (a_sql ∷ r_sql ∷ []))
    × (up exec (a_sql ∷ r_sql ∷ []) s' ≡ (s', ok tt))
unfolding up up_loop record_run
up-plan_example = up-plan exec (a_sql ∷ r_sql ∷ []) ([], ledger) ((refl, tt), (tt, tt)) refl

up-IsDrifted_example :
    (e : UpError) × (up exec (r_sql ∷ a_sql ∷ []) ([], drifted_ledger)
      ≡ (([], drifted_ledger), err e))
    × IsCause drifted_ledger (r_sql ∷ a_sql ∷ []) e
up-IsDrifted_example =
    up-IsDrifted exec (r_sql ∷ a_sql ∷ []) ([], drifted_ledger) ((refl, tt), (tt, tt))
      (inr (inl (_, refl, (λ h. absurd (ground arith)), refl)))
