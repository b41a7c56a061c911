-- ===== src/Db/Migrations/Runs.antt =====
-- What `up` leaves behind: the plan, the status and a second `up` after it; drift.
use canton_pillar.Base.{
  ◌≡◌, ◌≢◌, refl, ap, sym, ◌∙◌, true, false, Option, none, some, List, [], ◌∷◌, Text, Result, ok,
  err, ◌>>=◌, >>=-eq-ok, if◌then◌else◌, text_eq, text_eq_sound, Bool-cases, arith, Option-cases,
  inl, inr, text_eq_refl, text_eq_comm, All, Any, is_some,
}
use mathlib.Core.Path.{subst}
use canton_pillar.Db.Migrations.{
  Migration, Applied, Ledger, applied, record_run, needs_run, is_pending, has_drift, plan, Action,
  versioned, checksum_drift, sql_failed, drifted, skips, runs, action, act, up_loop, up, UpError,
  dry_run_loop, dry_run, Status, status,
}
use canton_pillar.Db.Migrations.Ledger.{applied-record_run_self, applied-record_run_other}

-- No two migrations have one name, as no two files have one path.
abbrev pub IsOther : Migration → Migration → Type 0
IsOther m n = text_eq m.name n.name ≡ false

abbrev pub AreDistinct : List Migration → Type 0
AreDistinct [] = Unit
AreDistinct (m ∷ ms) = All (IsOther m) ms × AreDistinct ms

-- The ledger has the migration with its checksum.
abbrev pub IsSettled : Ledger → Migration → Type 0
IsSettled l m = action m (applied m.name l) ≡ skips

-- The migration is versioned, and the ledger has it with another checksum.
abbrev pub IsDrifted : Ledger → Migration → Type 0
IsDrifted l m =
    (r : Applied) × (applied m.name l ≡ some r)
    × (r.checksum ≢ m.checksum)
    × (m.variant ≡ versioned)

-- The loop stops at the migration.
abbrev Stops : Ledger → Migration → Type 0
Stops l m = action m (applied m.name l) ≡ drifted

IsDrifted-Stops : (l : Ledger) (m : Migration) → IsDrifted l m → Stops l m
IsDrifted-Stops l m (r, e, other, v) = elim (Bool-cases (text_eq r.checksum m.checksum)) [
  | inl same ↦ absurd (other (text_eq_sound r.checksum m.checksum same))
  | inr differs ↦ simp (e, differs, v)
]

drifted_row :
    (m : Migration) (r : Applied)
    → action m (some r) ≡ drifted
    → (text_eq r.checksum m.checksum ≡ false) × (m.variant ≡ versioned)
drifted_row m r h = ground arith

Stops-IsDrifted : (l : Ledger) (m : Migration) → Stops l m → IsDrifted l m
Stops-IsDrifted l m h = elim (Option-cases (applied m.name l)) [
  | inl e ↦ absurd (ground arith)
  | inr (r, e) ↦
      let (differs, v) = drifted_row m r (ap (action m) (sym e) ∙ h) in
      (
        r,
        e,
        λ same.
            absurd (
              ground
                (arith, differs, ap (λ c. text_eq c m.checksum) same, text_eq_refl m.checksum)),
        v,
      )
]

-- What an error of `up` names: a migration that has drifted, or one whose script failed.
abbrev pub IsCause : Ledger → List Migration → UpError → Type 0
IsCause l ms (checksum_drift name) = Any (λ m. IsDrifted l m × (m.name ≡ name)) ms
IsCause l ms (sql_failed name) = Any (λ m. m.name ≡ name) ms

IsSettled-record_run : (m : Migration) (l : Ledger) → IsSettled (record_run m l) m
IsSettled-record_run m l = simp (applied-record_run_self m l, text_eq_refl m.checksum)

needs_run-settled : (m : Migration) (l : Ledger) → IsSettled l m → needs_run l m ≡ false
needs_run-settled m l h = elim (Option-cases (applied m.name l)) [
  | inl e ↦ absurd (ground arith)
  | inr (r, e) ↦ ground arith
]

needs_run-runs :
    (m : Migration) (l : Ledger) → action m (applied m.name l) ≡ runs → needs_run l m ≡ true
needs_run-runs m l h = elim (Option-cases (applied m.name l)) [
  | inl e ↦ ground arith
  | inr (r, e) ↦ ground arith
]

-- A run that is recorded leaves what the ledger says of the others.
plan-record_run :
    (m : Migration) (l : Ledger) (ms : List Migration)
    → All (IsOther m) ms
    → plan (record_run m l) ms ≡ plan l ms
unfolding plan
plan-record_run m l [] h = refl
plan-record_run m l (n ∷ ms) (h, hs) =
    let same = applied-record_run_other m n.name l h in
    ap (λ o. if is_pending n o then n ∷ plan (record_run m l) ms else plan (record_run m l) ms) same
    ∙ ap (λ p. if needs_run l n then n ∷ p else p) (plan-record_run m l ms hs)

module _ {D : Type 0} (exec : Text → D → Option D) where
  -- A step that succeeds settles its migration, and leaves what the ledger says of other names.
  act-effect :
      (m : Migration) (s s' : D × Ledger) (a : Action)
      → action m (applied m.name s.1) ≡ a
      → act exec a m s ≡ ok s'
      → IsSettled s'.1 m
        × ((n : Migration) → IsOther m n → applied n.name s'.1 ≡ applied n.name s.1)
  act-effect m s s' drifted e h = absurd (ground arith)
  act-effect m s s' skips e h =
      let same : s ≡ s' = ground arith in
      let ledger = ap (λ x. x.1) same in
      (
        ap (λ l. action m (applied m.name l)) (sym ledger) ∙ e,
        λ n o. ap (λ l. applied n.name l) (sym ledger),
      )
  act-effect m s s' runs e h = elim (Option-cases (exec m.sql s.0)) [
    | inl fails ↦ absurd (ground arith)
    | inr (db, done) ↦
        let ledger : record_run m s.1 ≡ s'.1 = ground arith in
        (
          ap (λ l. action m (applied m.name l)) (sym ledger) ∙ IsSettled-record_run m s.1,
          λ n o. ap (λ l. applied n.name l) (sym ledger) ∙ applied-record_run_other m n.name s.1 o,
        )
  ]

  up_loop-other :
      (ms : List Migration) (n : Migration) (s s' : D × Ledger)
      → All (λ m. IsOther m n) ms
      → up_loop exec ms s ≡ ok s'
      → applied n.name s'.1 ≡ applied n.name s.1
  unfolding up_loop
  up_loop-other [] n s s' o h =
      ap (λ x. applied n.name x.1) (sym (let e : s ≡ s' = ground arith in e))
  up_loop-other (m ∷ ms) n s s' (o, os) h =
      let (t, first, later) = >>=-eq-ok _ _ h in
      up_loop-other ms n t s' os later ∙ (act-effect m s t _ refl first).1 n o

  IsOther-symm :
      (m : Migration) (ms : List Migration) → All (IsOther m) ms → All (λ n. IsOther n m) ms
  IsOther-symm m [] h = tt
  IsOther-symm m (n ∷ ms) (h, hs) = (text_eq_comm n.name m.name ∙ h, IsOther-symm m ms hs)

  up_loop-settles :
      (ms : List Migration) (s s' : D × Ledger)
      → AreDistinct ms
      → up_loop exec ms s ≡ ok s'
      → All (IsSettled s'.1) ms
  unfolding up_loop
  up_loop-settles [] s s' d h = tt
  up_loop-settles (m ∷ ms) s s' (d, ds) h =
      let (t, first, later) = >>=-eq-ok _ _ h in
      let kept = up_loop-other ms m t s' (IsOther-symm m ms d) later in
      (
        ap (λ a. action m a) kept ∙ (act-effect m s t _ refl first).0,
        up_loop-settles ms t s' ds later,
      )

  up_loop-settled :
      (ms : List Migration) (s : D × Ledger) → All (IsSettled s.1) ms → up_loop exec ms s ≡ ok s
  unfolding up_loop
  up_loop-settled [] s h = refl
  up_loop-settled (m ∷ ms) s (h, hs) =
      ap (λ a. act exec a m s >>= up_loop exec ms) h ∙ up_loop-settled ms s hs

  plan-settled : (l : Ledger) (ms : List Migration) → All (IsSettled l) ms → plan l ms ≡ []
  unfolding plan
  plan-settled l [] h = refl
  plan-settled l (m ∷ ms) (h, hs) =
      ap (λ b. if b then m ∷ plan l ms else plan l ms) (needs_run-settled m l h)
      ∙ plan-settled l ms hs

  -- The scripts that run are those of the plan, in its order.
  up_loop-plan :
      (ms : List Migration) (s s' : D × Ledger)
      → AreDistinct ms
      → up_loop exec ms s ≡ ok s'
      → dry_run_loop exec (plan s.1 ms) s.0 ≡ ok s'.0
  unfolding up_loop dry_run_loop plan
  up_loop-plan [] s s' d h = ground arith
  up_loop-plan (m ∷ ms) (db, l) s' (d, ds) h =
      let (t, first, later) = >>=-eq-ok _ _ h in
      let rest = up_loop-plan ms t s' ds later in go (action m (applied m.name l)) refl t first rest
    where
      go :
          (a : Action)
          → action m (applied m.name l) ≡ a
          → (t : D × Ledger) → act exec a m (db, l) ≡ ok t
          → dry_run_loop exec (plan t.1 ms) t.0 ≡ ok s'.0
          → dry_run_loop exec (plan l (m ∷ ms)) db ≡ ok s'.0
      go drifted e t first rest = absurd (ground arith)
      go skips e t first rest =
          let same : (db, l) ≡ t = ground arith in
          ap (λ b. dry_run_loop exec (if b then m ∷ plan l ms else plan l ms) db)
            (needs_run-settled m l e)
          ∙ ap (λ x. dry_run_loop exec (plan x.1 ms) x.0) same
          ∙ rest
      go runs e t first rest = elim (Option-cases (exec m.sql db)) [
        | inl fails ↦ absurd (ground arith)
        | inr (db', done) ↦
            let same : (db', record_run m l) ≡ t = ground arith in
            ap (λ b. dry_run_loop exec (if b then m ∷ plan l ms else plan l ms) db)
              (needs_run-runs m l e)
            ∙ simp done (
                ap (λ p. dry_run_loop exec p db') (sym (plan-record_run m l ms d))
                ∙ ap (λ x. dry_run_loop exec (plan x.1 ms) x.0) same
                ∙ rest)
      ]

  up_loop-up :
      (ms : List Migration) (s : D × Ledger)
      → (up exec ms s).1 ≡ ok tt
      → up_loop exec ms s ≡ ok (up exec ms s).0
  unfolding up
  up_loop-up ms s h = go (up_loop exec ms s) refl
    where
      go :
          (r : Result UpError (D × Ledger))
          → up_loop exec ms s ≡ r
          → up_loop exec ms s ≡ ok (up exec ms s).0
      go (ok s') e = ground arith
      go (err e') e = absurd (ground arith)

  up_of_loop :
      (ms : List Migration) (s s' : D × Ledger)
      → up_loop exec ms s ≡ ok s'
      → up exec ms s ≡ (s', ok tt)
  unfolding up
  up_of_loop ms s s' h = ground arith

  up_loop-drifted :
      (ms : List Migration) (s s' : D × Ledger)
      → AreDistinct ms
      → Any (Stops s.1) ms
      → up_loop exec ms s ≡ ok s'
      → ⊥
  unfolding up_loop
  up_loop-drifted [] s s' d h k = elim h [ ]
  up_loop-drifted (m ∷ ms) s s' (d, ds) (inl h) k =
      absurd (ground (arith, ap (λ a. act exec a m s >>= up_loop exec ms) h))
  up_loop-drifted (m ∷ ms) s s' (d, ds) (inr h) k =
      let (t, first, later) = >>=-eq-ok _ _ k in
      up_loop-drifted ms t s' ds (kept t.1 ms d h (act-effect m s t _ refl first).1) later
    where
      kept :
          (t : Ledger) (ns : List Migration)
          → All (IsOther m) ns
          → Any (Stops s.1) ns
          → ((n : Migration) → IsOther m n → applied n.name t ≡ applied n.name s.1)
          → Any (Stops t) ns
      kept t [] o h same = elim h [ ]
      kept t (n ∷ ns) (o, os) (inl e) same = inl (ap (λ a. action n a) (same n o) ∙ e)
      kept t (n ∷ ns) (o, os) (inr e) same = inr (kept t ns os e same)

  -- Another ledger that says the same of the migrations has the same causes.
  IsCause-IsOther :
      (l t : Ledger) (m : Migration) (ms : List Migration) (e : UpError)
      → All (IsOther m) ms
      → ((n : Migration) → IsOther m n → applied n.name t ≡ applied n.name l)
      → IsCause t ms e
      → IsCause l (m ∷ ms) e
  IsCause-IsOther l t m ms (sql_failed name) o same h = inr h
  IsCause-IsOther l t m ms (checksum_drift name) o same h = inr (go ms o h)
    where
      go :
          (ns : List Migration)
          → All (IsOther m) ns
          → Any (λ n. IsDrifted t n × (n.name ≡ name)) ns
          → Any (λ n. IsDrifted l n × (n.name ≡ name)) ns
      go [] o h = elim h [ ]
      go (n ∷ ns) (o, os) (inl ((r, e, rest, v), named)) =
          inl ((r, sym (same n o) ∙ e, rest, v), named)
      go (n ∷ ns) (o, os) (inr h) = inr (go ns os h)

  up_loop-IsCause :
      (ms : List Migration) (s : D × Ledger) (e : UpError)
      → AreDistinct ms
      → up_loop exec ms s ≡ err e
      → IsCause s.1 ms e
  unfolding up_loop
  up_loop-IsCause [] s e d h = absurd (ground arith)
  up_loop-IsCause (m ∷ ms) s e (d, ds) h =
      later (action m (applied m.name s.1)) (act exec (action m (applied m.name s.1)) m s) refl refl
        h (λ t k. up_loop-IsCause ms t e ds k)
    where
      stop :
          (a : Action) (x : UpError)
          → action m (applied m.name s.1) ≡ a
          → act exec a m s ≡ err x
          → IsCause s.1 (m ∷ ms) x
      stop drifted x at h =
          subst (IsCause s.1 (m ∷ ms)) (let q : checksum_drift m.name ≡ x = ground arith in q)
            (inl (Stops-IsDrifted s.1 m at, refl))
      stop skips x at h = absurd (ground arith)
      stop runs x at h = elim (Option-cases (exec m.sql s.0)) [
        | inl fails ↦
            subst (IsCause s.1 (m ∷ ms)) (let q : sql_failed m.name ≡ x = ground arith in q)
              (inl refl)
        | inr (db, done) ↦ absurd (ground arith)
      ]

      later :
          (a : Action) (r : Result UpError (D × Ledger))
          → action m (applied m.name s.1) ≡ a
          → act exec a m s ≡ r
          → (r >>= up_loop exec ms) ≡ err e
          → ((t : D × Ledger) → up_loop exec ms t ≡ err e → IsCause t.1 ms e)
          → IsCause s.1 (m ∷ ms) e
      later a (err x) at ran h rest = stop a e at (ran ∙ ap err (let q : x ≡ e = ground arith in q))
      later a (ok t) at ran h rest =
          IsCause-IsOther s.1 t.1 m ms e d (act-effect m s t a at ran).1 (rest t h)

abbrev pub IsCurrent : Status → Type 0
IsCurrent st = (st.applied ≡ true) × (st.drift ≡ false)

status-settled :
    (l : Ledger) (ms : List Migration) → All (IsSettled l) ms → All IsCurrent (status l ms)
unfolding status
status-settled l [] h = tt
status-settled l (m ∷ ms) (h, hs) = (current (applied m.name l) h, status-settled l ms hs)
  where
    current :
        (o : Option Applied) → action m o ≡ skips → (is_some o ≡ true) × (has_drift m o ≡ false)
    current none e = absurd (ground arith)
    current (some r) e = ground arith

-- If `up` succeeds and no two migrations have one name, then exactly the scripts of the plan ran, in
-- its order; its dry run would have passed and changed nothing, if the ledger's table was there.
-- Afterwards the plan is empty, every migration is reported as applied without drift, and a second
-- `up` succeeds and changes nothing.
pub up-plan :
    {D : Type 0} (exec : Text → D → Option D) (ms : List Migration) (s : D × Ledger)
    → AreDistinct ms
    → (up exec ms s).1 ≡ ok tt
    → let s' = (up exec ms s).0 in
      (dry_run_loop exec (plan s.1 ms) s.0 ≡ ok s'.0)
      × (dry_run exec true ms s ≡ some (s, ok tt))
      × (plan s'.1 ms ≡ [])
      × All IsCurrent (status s'.1 ms)
      × (up exec ms s' ≡ (s', ok tt))
unfolding dry_run
up-plan exec ms s d h =
    let s' = (up exec ms s).0 in
    let ran = up_loop-up exec ms s h in
    let scripts = up_loop-plan exec ms s s' d ran in
    let settled = up_loop-settles exec ms s s' d ran in
    (
      scripts,
      ground (arith, scripts),
      plan-settled exec s'.1 ms settled,
      status-settled s'.1 ms settled,
      up_of_loop exec ms s' s' (up_loop-settled exec ms s' settled),
    )

-- If no two migrations have one name and a versioned one stands in the ledger with another checksum,
-- then `up` throws, and the database and the ledger are as before, whatever else would run. The error
-- names a migration that has drifted so, or one whose script failed.
pub up-IsDrifted :
    {D : Type 0} (exec : Text → D → Option D) (ms : List Migration) (s : D × Ledger)
    → AreDistinct ms
    → Any (IsDrifted s.1) ms
    → (e : UpError) × (up exec ms s ≡ (s, err e)) × IsCause s.1 ms e
unfolding up
up-IsDrifted exec ms s d h = go (up_loop exec ms s) refl
  where
    any_stops : (ns : List Migration) → Any (IsDrifted s.1) ns → Any (Stops s.1) ns
    any_stops [] h = elim h [ ]
    any_stops (n ∷ ns) (inl h) = inl (IsDrifted-Stops s.1 n h)
    any_stops (n ∷ ns) (inr h) = inr (any_stops ns h)

    go :
        (r : Result UpError (_ × Ledger))
        → up_loop exec ms s ≡ r
        → (e : UpError) × (up exec ms s ≡ (s, err e)) × IsCause s.1 ms e
    go (ok s') e = absurd (up_loop-drifted exec ms s s' d (any_stops ms h) e)
    go (err e') e = (e', ground arith, up_loop-IsCause exec ms s e' d e)
