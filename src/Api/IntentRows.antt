-- ===== src/Api/IntentRows.antt =====
-- apps/api/src/db/intent-enqueue.ts: the kinds of intents with their texts, and the tables that an
-- intent is written to, as rows.
use canton_pillar.Base.{ℕ, zero, suc, Bool, Option, List, Text, String}
use Prim.Native.String.{◌++◌ as joined}
use canton_pillar.Idempotency.Canonical.{Json, Entry}
use canton_pillar.Idempotency.Store.{Table}

pub data IntentKind : Type 0 where
  issue redeem transfer hold_create hold_release : IntentKind

pub record EnqueueInput : Type 0 where
  pub tenant_id : String
  pub livemode : Bool
  pub intent_kind : IntentKind
  pub payload : List Entry
  pub idempotency_key : Text
  pub request_id : String
  pub api_key_id : Option String

pub record EnqueueResult : Type 0 where
  pub operation_id : String
  pub intent_id : Text
  pub command_id : String
  pub status : String

abbrev pub intent_prefix : IntentKind → String
intent_prefix issue = "issint_"
intent_prefix redeem = "redint_"
intent_prefix transfer = "trint_"
intent_prefix hold_create = "hold_"
intent_prefix hold_release = "hrel_"

abbrev pub command_type : IntentKind → String
command_type issue = "issue_intent.create"
command_type redeem = "redeem_intent.create"
command_type transfer = "transfer_intent.create"
command_type hold_create = "hold.create"
command_type hold_release = "hold.release"

abbrev pub kind_text : IntentKind → String
kind_text issue = "issue"
kind_text redeem = "redeem"
kind_text transfer = "transfer"
kind_text hold_create = "hold_create"
kind_text hold_release = "hold_release"

abbrev pub semantic_version : IntentKind → String
semantic_version kind = joined (command_type kind) ":v1"

-- `slice(0, n)`.
abbrev pub slice_to : ℕ → String → String
slice_to zero s = ""
slice_to (suc n) String.[] = ""
slice_to (suc n) (String.◌∷◌ c s) = String.◌∷◌ c (slice_to n s)

-- The identifiers that the calls of `ulid` and `randomUUID` give.
pub record Ids : Type 0 where
  pub operation : String
  pub intent : String
  pub api_request : String
  pub command_request : String
  pub submission : String

pub record ApiRequest : Type 0 where
  pub id : String
  pub tenant_id : String
  pub operation_id : String
  pub request_id : String
  pub idempotency_key_hash : String
  pub method : String
  pub path_template : String
  pub api_version : String
  pub response_status : ℕ

pub record Intent : Type 0 where
  pub id : Text
  pub tenant_id : String
  pub operation_id : String
  pub request_id : String
  pub idempotency_key_hash : String
  pub intent_type : IntentKind
  pub status : String
  pub amount : Option Text
  pub asset_id : Option Text
  pub metadata : Json

pub record Operation : Type 0 where
  pub id : String
  pub tenant_id : String
  pub operation_id : String
  pub request_id : String
  pub idempotency_key_hash : String
  pub command_id : String
  pub status : String

pub record LedgerCommand : Type 0 where
  pub id : String
  pub tenant_id : String
  pub operation_id : String
  pub request_id : String
  pub idempotency_key_hash : String
  pub command_id : String
  pub command_type : String
  pub command_semantic_version : String
  pub command_payload : List Entry
  pub payload : List Entry
  pub status : String
  pub priority : ℕ
  pub participant_id : String
  pub available_at : ℕ

pub record Db : Type 0 where
  pub api_requests : List ApiRequest
  pub intents : List Intent
  pub operations : List Operation
  pub ledger_command_requests : List LedgerCommand
  pub idempotency_keys : Table
