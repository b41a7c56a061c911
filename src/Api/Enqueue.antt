-- ===== src/Api/Enqueue.antt =====
-- apps/api/src/db/intent-enqueue.ts: the intent of a request and the command for the ledger, written in one
-- transaction with the binding of the request's claim. `sha256` is the digest of node:crypto; what
-- `ulid` and `randomUUID` give is an argument. `fails` says which statement the database rejects.
pub mod Recorded
mod Tests
use canton_pillar.Base.{
  ◌≡◌, refl, ℕ, zero, suc, ◌+◌, Bool, true, false, not, Option, none, some, List, [], ◌∷◌, ◌++◌,
  Text, String, codes, Result, ok, err, ◌>>=◌, ◌>>◌, require, if◌then◌else◌, or_else,
}
use Prim.Native.String
use Prim.Native.String.{◌++◌ as joined}
use canton_pillar.Idempotency.Canonical.{Json, str, obj, arr, end, fields, Entry}
use canton_pillar.Idempotency.Canonical.Objects.{spread, value_of}
use canton_pillar.Idempotency.Store.{Table, bind_claim_to_operation}
use canton_pillar.Api.IntentRows.{
  IntentKind, EnqueueInput, EnqueueResult, intent_prefix, command_type, kind_text, semantic_version,
  slice_to, Ids, ApiRequest, Intent, Operation, LedgerCommand, Db, issue, redeem, transfer,
  hold_create, hold_release,
}
use canton_pillar.Api.Transaction.{TxStage, World, with_tx}

pub data Statement : Type 0 where
  tx : TxStage → Statement
  insert_api_request insert_intent insert_operation insert_command bind_claim : Statement

-- `typeof value === 'string' ? value : null`.
abbrev pub string_or_null : Option Json → Option Text
string_or_null (some (str s)) = some s
string_or_null j = none

-- An array is an object too.
abbrev pub metadata_of : Option Json → Json
metadata_of (some (obj fs)) = obj fs
metadata_of (some (arr js)) = arr js
metadata_of j = obj end

-- What the command's payload adds to that of the request.
abbrev pub command_fields : IntentKind → Text → String → String → String → List Entry
command_fields kind intent_id operation_id command_id submission =
    (codes "command_type", str (codes (command_type kind)))
    ∷ (codes "command_semantic_version", str (codes (semantic_version kind)))
    ∷ (codes "intent_id", str intent_id)
    ∷ (codes "operation_id", str (codes operation_id))
    ∷ (codes "command_id", str (codes command_id))
    ∷ (codes "submission_id", str (codes (joined "sub_" submission)))
    ∷ []

abbrev pub command_payload : EnqueueInput → Text → String → String → String → List Entry
command_payload input intent_id operation_id command_id submission =
    spread input.payload
      (command_fields input.intent_kind intent_id operation_id command_id submission)

abbrev pub tx_fails : (Statement → Bool) → TxStage → Option Statement
tx_fails fails s = if fails (tx s) then some (tx s) else none

module _ (sha256 : Text → String) where
  -- cmd_ and 24 digits of the digest of tenant, operation and version.
  unfoldable pub command_id : String → String → String → String
  command_id tenant operation_id version =
      joined "cmd_"
        (slice_to 24 (sha256 (codes tenant ++ b'|' ∷ (codes operation_id ++ b'|' ∷ codes version))))

  unfoldable pub result_of : EnqueueInput → Ids → EnqueueResult
  unfolding command_id
  result_of input ids =
      let operation_id = joined "op_" ids.operation in
      record {
        operation_id = operation_id;
        intent_id = codes (joined (intent_prefix input.intent_kind) ids.intent);
        command_id = command_id input.tenant_id operation_id (semantic_version input.intent_kind);
        status = "processing";
      }

  unfoldable pub api_request_row : EnqueueInput → Ids → EnqueueResult → ApiRequest
  api_request_row input ids r = record {
    id = joined "apireq_" ids.api_request;
    tenant_id = input.tenant_id;
    operation_id = r.operation_id;
    request_id = input.request_id;
    idempotency_key_hash = sha256 input.idempotency_key;
    method = "POST";
    path_template = joined "/v1/" (kind_text input.intent_kind);
    api_version = "2026-05-26";
    response_status = 202;
  }

  unfoldable pub intent_row : EnqueueInput → EnqueueResult → Intent
  intent_row input r = record {
    id = r.intent_id;
    tenant_id = input.tenant_id;
    operation_id = r.operation_id;
    request_id = input.request_id;
    idempotency_key_hash = sha256 input.idempotency_key;
    intent_type = input.intent_kind;
    status = "processing";
    amount = string_or_null (value_of (codes "amount") input.payload);
    asset_id = string_or_null (value_of (codes "asset") input.payload);
    metadata = metadata_of (value_of (codes "metadata") input.payload);
  }

  unfoldable pub operation_row : EnqueueInput → EnqueueResult → Operation
  operation_row input r = record {
    id = r.operation_id;
    tenant_id = input.tenant_id;
    operation_id = r.operation_id;
    request_id = input.request_id;
    idempotency_key_hash = sha256 input.idempotency_key;
    command_id = r.command_id;
    status = "received";
  }

  unfoldable pub command_row : ℕ → EnqueueInput → Ids → EnqueueResult → LedgerCommand
  command_row now input ids r =
      let payload = command_payload input r.intent_id r.operation_id r.command_id ids.submission in
      record {
        id = joined "lcr_" ids.command_request;
        tenant_id = input.tenant_id;
        operation_id = r.operation_id;
        request_id = input.request_id;
        idempotency_key_hash = sha256 input.idempotency_key;
        command_id = r.command_id;
        command_type = command_type input.intent_kind;
        command_semantic_version = semantic_version input.intent_kind;
        command_payload = payload;
        payload = payload;
        status = "received";
        priority = 0;
        participant_id = "default";
        available_at = now;
      }

  -- The five statements in their order.
  unfoldable pub record_all :
      (Statement → Bool) → ℕ → EnqueueInput → Ids → Db → Result Statement (EnqueueResult × Db)
  unfolding result_of api_request_row intent_row operation_row command_row
  record_all fails now input ids db =
      let r = result_of input ids in
      do
        require (not (fails insert_api_request)) insert_api_request
        let db1 = record db { api_requests = db.api_requests ++ api_request_row input ids r ∷ [] }
        require (not (fails insert_intent)) insert_intent
        let db2 = record db1 { intents = db.intents ++ intent_row input r ∷ [] }
        require (not (fails insert_operation)) insert_operation
        let db3 = record db2 { operations = db.operations ++ operation_row input r ∷ [] }
        require (not (fails insert_command)) insert_command
        let db4 = record db3 {
          ledger_command_requests = db.ledger_command_requests ++ command_row now input ids r ∷ [];
        }
        require (not (fails bind_claim)) bind_claim
        ok (
          r,
          record db4 {
            idempotency_keys =
                bind_claim_to_operation sha256 input.tenant_id input.idempotency_key
                  input.request_id r.operation_id db.idempotency_keys;
          },
        )

  -- Without a database the identifier of a release is that of the hold, if the payload has one.
  unfoldable pub enqueue_memory : EnqueueInput → Ids → EnqueueResult
  unfolding result_of
  enqueue_memory input ids = elim input.intent_kind [
    | hold_release ↦ record (result_of input ids) {
      intent_id =
          or_else (string_or_null (value_of (codes "hold_id") input.payload))
            (result_of input ids).intent_id;
    }
    | _ ↦ result_of input ids
  ]

  unfoldable pub enqueue_intent :
      Bool
      → (Statement → Bool)
      → ℕ
      → EnqueueInput
      → Ids
      → World Db
      → World Db × Result Statement EnqueueResult
  unfolding record_all enqueue_memory
  enqueue_intent true fails now input ids w = (w, ok (enqueue_memory input ids))
  enqueue_intent false fails now input ids w =
      with_tx (tx_fails fails) (record_all fails now input ids) w
