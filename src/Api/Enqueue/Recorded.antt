-- ===== src/Api/Enqueue/Recorded.antt =====
-- What an enqueued intent leaves in the database, and what a second request with the same key learns.
use canton_pillar.Base.{
  ◌≡◌, refl, ap, ◌∙◌, ℕ, Bool, true, false, not, some, [], ◌∷◌, ◌++◌, Text, String, codes, Result,
  ok, err, >>-eq-ok, require, if◌then◌else◌, arith, ok_injective, str_eq,
}
use mathlib.Core.Path.{subst}
use canton_pillar.Idempotency.Canonical.{str}
use canton_pillar.Idempotency.Canonical.Objects.{value_of, last_value, value_of-spread}
use canton_pillar.Idempotency.Store.{
  Row, ClaimInput, in_progress, conflict, claim, claim_key, bind_claim_to_operation, find_row,
  examine, RowStatus,
}
use canton_pillar.Idempotency.Store.Lookup.{find_row-update_self}
use canton_pillar.Idempotency.Store.Replay.{no_faults, claim-found}
use canton_pillar.Api.Transaction.{World, with_tx, AllOrNothing, with_tx-AllOrNothing}
use canton_pillar.Api.IntentRows.{
  Db, EnqueueInput, EnqueueResult, Ids, ApiRequest, Intent, Operation, LedgerCommand,
}
use canton_pillar.Api.Enqueue.{
  Statement, record_all, result_of, api_request_row, intent_row, operation_row, command_row,
  enqueue_intent, command_payload, command_fields, tx_fails, insert_api_request, insert_intent,
  insert_operation, insert_command, bind_claim,
}

module _ (sha256 : Text → String) where
  -- One row more in each of the four tables, all for the operation that is returned, and the claim bound to it.
  pub record IsRecorded (input : EnqueueInput) (r : EnqueueResult) (old db : Db) : Type 0 where
    pub api_request : ApiRequest
    pub intent : Intent
    pub operation : Operation
    pub command : LedgerCommand
    pub api_requests : db.api_requests ≡ old.api_requests ++ api_request ∷ []
    pub intents : db.intents ≡ old.intents ++ intent ∷ []
    pub operations : db.operations ≡ old.operations ++ operation ∷ []
    pub commands : db.ledger_command_requests ≡ old.ledger_command_requests ++ command ∷ []
    pub claims :
        db.idempotency_keys
        ≡ bind_claim_to_operation sha256 input.tenant_id input.idempotency_key input.request_id
            r.operation_id old.idempotency_keys
    pub same_operation :
        (api_request.operation_id ≡ r.operation_id)
        × (intent.operation_id ≡ r.operation_id)
        × (operation.operation_id ≡ r.operation_id)
        × (operation.id ≡ r.operation_id)
        × (command.operation_id ≡ r.operation_id)
    pub same_tenant :
        (api_request.tenant_id ≡ input.tenant_id)
        × (intent.tenant_id ≡ input.tenant_id)
        × (operation.tenant_id ≡ input.tenant_id)
        × (command.tenant_id ≡ input.tenant_id)
    pub same_command :
        (intent.id ≡ r.intent_id)
        × (operation.command_id ≡ r.command_id)
        × (command.command_id ≡ r.command_id)
    pub payload :
        (value_of (codes "operation_id") command.command_payload
          ≡ some (str (codes r.operation_id)))
        × (value_of (codes "intent_id") command.command_payload ≡ some (str r.intent_id))
        × (value_of (codes "command_id") command.command_payload ≡ some (str (codes r.command_id)))
        × (value_of (codes "amount") command.command_payload
            ≡ value_of (codes "amount") input.payload)

  command_payload-keeps :
      (input : EnqueueInput) (intent_id : Text) (operation_id command_id submission : String)
      → let payload = command_payload input intent_id operation_id command_id submission in
        (value_of (codes "operation_id") payload ≡ some (str (codes operation_id)))
        × (value_of (codes "intent_id") payload ≡ some (str intent_id))
        × (value_of (codes "command_id") payload ≡ some (str (codes command_id)))
        × (value_of (codes "amount") payload ≡ value_of (codes "amount") input.payload)
  command_payload-keeps input intent_id operation_id command_id submission =
      (read "operation_id", read "intent_id", read "command_id", read "amount")
    where
      read :
          (key : String)
          → value_of
              (codes key)
              (command_payload input intent_id operation_id command_id submission)
            ≡ last_value
                (codes key)
                (value_of (codes key) input.payload)
                (command_fields input.intent_kind intent_id operation_id command_id submission)
      read key =
          value_of-spread (codes key) input.payload
            (command_fields input.intent_kind intent_id operation_id command_id submission)

  abbrev recorded : ℕ → EnqueueInput → Ids → Db → EnqueueResult × Db
  recorded now input ids db =
      let r = result_of sha256 input ids in
      (
        r,
        record {
          api_requests = db.api_requests ++ api_request_row sha256 input ids r ∷ [];
          intents = db.intents ++ intent_row sha256 input r ∷ [];
          operations = db.operations ++ operation_row sha256 input r ∷ [];
          ledger_command_requests =
              db.ledger_command_requests ++ command_row sha256 now input ids r ∷ [];
          idempotency_keys =
              bind_claim_to_operation sha256 input.tenant_id input.idempotency_key input.request_id
                r.operation_id db.idempotency_keys;
        },
      )

  recorded-IsRecorded :
      (now : ℕ) (input : EnqueueInput) (ids : Ids) (db : Db)
      → IsRecorded input (recorded now input ids db).0 db (recorded now input ids db).1
  unfolding api_request_row intent_row operation_row command_row
  recorded-IsRecorded now input ids db =
      let r = result_of sha256 input ids in
      record {
        api_request = api_request_row sha256 input ids r;
        intent = intent_row sha256 input r;
        operation = operation_row sha256 input r;
        command = command_row sha256 now input ids r;
        api_requests = refl;
        intents = refl;
        operations = refl;
        commands = refl;
        claims = refl;
        same_operation = (refl, refl, refl, refl, refl);
        same_tenant = (refl, refl, refl, refl);
        same_command = (refl, refl, refl);
        payload =
            command_payload-keeps input r.intent_id r.operation_id r.command_id ids.submission;
      }

  record_all-recorded :
      (fails : Statement → Bool) (now : ℕ) (input : EnqueueInput) (ids : Ids) (db : Db)
      {done : EnqueueResult × Db}
      → record_all sha256 fails now input ids db ≡ ok done
      → recorded now input ids db ≡ done
  unfolding record_all
  record_all-recorded fails now input ids db {done} h =
      let h1 = >>-eq-ok (require (not (fails insert_api_request)) insert_api_request) _ h in
      let h2 = >>-eq-ok (require (not (fails insert_intent)) insert_intent) _ h1 in
      let h3 = >>-eq-ok (require (not (fails insert_operation)) insert_operation) _ h2 in
      let h4 = >>-eq-ok (require (not (fails insert_command)) insert_command) _ h3 in
      let h5 = >>-eq-ok (require (not (fails bind_claim)) bind_claim) _ h4 in
      ok_injective (recorded now input ids db) done h5

  abbrev pub Outcome : EnqueueInput → Db → World Db × Result Statement EnqueueResult → Type 0
  Outcome input old (w, err e) = w.db ≡ old
  Outcome input old (w, ok r) = IsRecorded input r old w.db

  outcome_of :
      (fails : Statement → Bool) (now : ℕ) (input : EnqueueInput) (ids : Ids) (w : World Db)
      (x : World Db × Result Statement EnqueueResult)
      → AllOrNothing (record_all sha256 fails now input ids) w x
      → Outcome input w.db x
  outcome_of fails now input ids w (w', err e) same = same
  outcome_of fails now input ids w (w', ok r) done =
      subst (λ x. IsRecorded input x.0 w.db x.1) (record_all-recorded fails now input ids w.db done)
        (recorded-IsRecorded now input ids w.db)

  -- To enqueue an intent in the database is all or nothing, and gives the client back to the pool on
  -- every path. If it throws, the five tables are as before. If it returns, each of the four tables has
  -- one row more, of the tenant and of the operation, intent and command that are returned; the
  -- command's payload names them and keeps the amount; and the claim is bound to the operation.
  pub enqueue_intent-Outcome :
      (fails : Statement → Bool) (now : ℕ) (input : EnqueueInput) (ids : Ids) (w : World Db)
      → ((enqueue_intent sha256 false fails now input ids w).0.held ≡ w.held)
        × Outcome input w.db (enqueue_intent sha256 false fails now input ids w)
  unfolding enqueue_intent
  enqueue_intent-Outcome fails now input ids w =
      let body = record_all sha256 fails now input ids in
      let (held, all) = with_tx-AllOrNothing (tx_fails fails) body w in
      (held, outcome_of fails now input ids w (with_tx (tx_fails fails) body w) all)

  examine-bound :
      (row : Row) (request_hash : String)
      → row.status ≡ RowStatus.in_progress
      → examine row request_hash ≡ (
          if str_eq row.request_hash request_hash
          then in_progress row.operation_id
          else conflict row.operation_id)
  unfolding examine
  examine-bound row request_hash h = ground arith

  claim-IsRecorded :
      (ttl now : ℕ) (input : EnqueueInput) (r : EnqueueResult) (old db : Db) (row : Row)
      (again : ClaimInput)
      → again.tenant_id ≡ input.tenant_id
      → again.idempotency_key ≡ input.idempotency_key
      → find_row (claim_key sha256 input.tenant_id input.idempotency_key) old.idempotency_keys
        ≡ some row
      → row.status ≡ RowStatus.in_progress
      → IsRecorded input r old db
      → claim sha256 ttl now no_faults true again db.idempotency_keys ≡ (
        db.idempotency_keys,
        ok (
            if str_eq row.request_hash again.request_hash
            then in_progress (some r.operation_id)
            else conflict (some r.operation_id)),
      )
  unfolding bind_claim_to_operation claim_key
  claim-IsRecorded ttl now input r old db row again same_tenant same_key found waiting rec =
      let k = claim_key sha256 input.tenant_id input.idempotency_key in
      let bound : Row = record row {
        request_id = some input.request_id;
        operation_id = some r.operation_id;
      } in
      let kept = find_row-update_self k _ old.idempotency_keys (λ x. refl) found in
      let there : find_row (claim_key sha256 again.tenant_id again.idempotency_key)
            db.idempotency_keys
          ≡ some bound =
        rw (same_tenant, same_key, rec.claims) kept in
      claim-found sha256 ttl now db.idempotency_keys again bound there
      ∙ ap (λ c. (db.idempotency_keys, ok c)) (examine-bound bound again.request_hash waiting)

  -- Once an intent is enqueued for a claimed key, a request with the same key that the database serves
  -- leaves the claims alone and learns the identifier of the operation: it is told that the operation is
  -- in progress if its request hash is that of the claim, and a conflict with it otherwise.
  pub claim-enqueue_intent :
      (ttl now : ℕ) (fails : Statement → Bool) (input : EnqueueInput) (ids : Ids) (w : World Db)
      (r : EnqueueResult) (row : Row) (again : ClaimInput)
      → let w' = (enqueue_intent sha256 false fails now input ids w).0 in
        (enqueue_intent sha256 false fails now input ids w).1 ≡ ok r
        → again.tenant_id ≡ input.tenant_id
        → again.idempotency_key ≡ input.idempotency_key
        → find_row (claim_key sha256 input.tenant_id input.idempotency_key) w.db.idempotency_keys
          ≡ some row
        → row.status ≡ RowStatus.in_progress
        → claim sha256 ttl now no_faults true again w'.db.idempotency_keys ≡ (
          w'.db.idempotency_keys,
          ok (
              if str_eq row.request_hash again.request_hash
              then in_progress (some r.operation_id)
              else conflict (some r.operation_id)),
        )
  claim-enqueue_intent ttl now fails input ids w r row again done same_tenant same_key found
        waiting =
      let (w', result) = enqueue_intent sha256 false fails now input ids w in
      let rec =
        subst (λ x. Outcome input w.db (w', x)) done
          (enqueue_intent-Outcome fails now input ids w).1 in
      claim-IsRecorded ttl now input r w.db w'.db row again same_tenant same_key found waiting rec
