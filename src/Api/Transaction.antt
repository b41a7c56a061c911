-- ===== src/Api/Transaction.antt =====
-- apps/api/src/db/transaction.ts: `withTx`, over any database and any statements. A statement that
-- the database rejects throws; a transaction that is not committed leaves the database as it was.
-- `held` counts the clients that the pool has given out.
use canton_pillar.Base.{
  ◌≡◌, refl, ℕ, suc, ◌-◌, Option, none, some, Result, ok, err, ◌>>=◌, ◌>>◌, or_else, arith,
  >>=-eq-ok, >>-eq-ok, ◌∙◌,
}

pub data TxStage : Type 0 where
  connect begin_tx commit rollback : TxStage

pub record World (D : Type 0) : Type 0 where
  pub db : D
  pub held : ℕ

-- `await client.query(…)` of a statement of the transaction itself.
abbrev pub stage : {E : Type 0} → Option E → Result E (Unit {0})
stage none = ok tt
stage (some e) = err e

abbrev pub check_out : {D : Type 0} → World D → World D
check_out w = record w { held = suc w.held }

module _ {D E A : Type 0} where
  abbrev committed : (TxStage → Option E) → A × D → Result E (A × D)
  committed fails result = do stage (fails commit); ok result

  -- The `try`.
  abbrev attempt : (TxStage → Option E) → (D → Result E (A × D)) → D → Result E (A × D)
  attempt fails body d = do stage (fails begin_tx); result ← body d; committed fails result

  -- The `catch`, after which the error is thrown again, unless the rollback throws its own.
  abbrev settled : (TxStage → Option E) → World D → Result E (A × D) → World D × Result E A
  settled fails w (ok (a, d)) = (record w { db = d }, ok a)
  settled fails w (err e) = (w, err (or_else (fails rollback) e))

  -- The `finally`.
  abbrev put_back : World D × Result E A → World D × Result E A
  put_back (w, r) = (record w { held = w.held - 1 }, r)

  abbrev connected :
      (TxStage → Option E) → (D → Result E (A × D)) → World D → Option E → World D × Result E A
  connected fails body w (some e) = (w, err e)
  connected fails body w none = put_back (settled fails (check_out w) (attempt fails body w.db))

  unfoldable pub with_tx :
      (TxStage → Option E) → (D → Result E (A × D)) → World D → World D × Result E A
  with_tx fails body w = connected fails body w (fails connect)

  -- All that the body did is in the database, or nothing of it.
  abbrev pub AllOrNothing : (D → Result E (A × D)) → World D → World D × Result E A → Type 0
  AllOrNothing body w (w', err e) = w'.db ≡ w.db
  AllOrNothing body w (w', ok a) = body w.db ≡ ok (a, w'.db)

  attempt-ok :
      (fails : TxStage → Option E) (body : D → Result E (A × D)) (d d' : D) (a : A)
      → attempt fails body d ≡ ok (a, d')
      → body d ≡ ok (a, d')
  attempt-ok fails body d d' a h =
      let started = >>-eq-ok (stage (fails begin_tx)) (body d >>= committed fails) h in
      let (result, done, kept) = >>=-eq-ok (body d) (committed fails) started in
      done ∙ >>-eq-ok (stage (fails commit)) (ok result) kept

  settled-AllOrNothing :
      (fails : TxStage → Option E) (body : D → Result E (A × D)) (w : World D)
      (r : Result E (A × D))
      → attempt fails body w.db ≡ r
      → ((put_back (settled fails (check_out w) r)).0.held ≡ w.held)
        × AllOrNothing body w (put_back (settled fails (check_out w) r))
  settled-AllOrNothing fails body w (err e) h = (omega arith, refl)
  settled-AllOrNothing fails body w (ok (a, d)) h = (omega arith, attempt-ok fails body w.db d a h)

  -- The transaction gives its client back on every path. If it throws, the database is as before, and if
  -- it returns, the body has returned the same value and left the database as it is now.
  pub with_tx-AllOrNothing :
      (fails : TxStage → Option E) (body : D → Result E (A × D)) (w : World D)
      → ((with_tx fails body w).0.held ≡ w.held) × AllOrNothing body w (with_tx fails body w)
  unfolding with_tx
  with_tx-AllOrNothing fails body w =
      elim (fails connect)
        as (λ o.
          ((connected fails body w o).0.held ≡ w.held)
          × AllOrNothing body w (connected fails body w o)) [
            | some e ↦ (refl, refl)
            | none ↦ settled-AllOrNothing fails body w (attempt fails body w.db) refl
          ]
