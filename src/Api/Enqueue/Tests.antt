-- ===== src/Api/Enqueue/Tests.antt =====
-- Intents that are enqueued at concrete inputs, and the theorems at them.
use canton_pillar.Base.{
  ◌≡◌, refl, Bool, true, false, none, some, [], ◌∷◌, Text, String, codes, ok, err,
}
use canton_pillar.Idempotency.Canonical.{str}
use canton_pillar.Idempotency.Store.{ClaimInput, in_progress, claim, claim_key, new_row}
use canton_pillar.Idempotency.Store.Replay.{no_faults}
use canton_pillar.Api.Transaction.{World, with_tx}
use canton_pillar.Api.IntentRows.{Db, IntentKind, EnqueueInput, EnqueueResult, Ids}
use canton_pillar.Api.Enqueue.{
  Statement, insert_command, enqueue_intent, record_all, result_of, command_id,
}
use canton_pillar.Api.Enqueue.Recorded.{Outcome, enqueue_intent-Outcome, claim-enqueue_intent}

abbrev digest : Text → String
digest s = "0123456789abcdef0123456789abcdef"

abbrev transfer_input : EnqueueInput
transfer_input = record {
  tenant_id = "acct_1";
  livemode = false;
  intent_kind = IntentKind.transfer;
  payload = (codes "amount", str (codes "10.5")) ∷ (codes "operation_id", str (codes "mine")) ∷ [];
  idempotency_key = codes "key-1";
  request_id = "req_1";
  api_key_id = none;
}

abbrev new_ids : Ids
new_ids = record {
  operation = "01A";
  intent = "01B";
  api_request = "01C";
  command_request = "01D";
  submission = "uuid";
}

abbrev first_claim : ClaimInput
first_claim = record {
  tenant_id = "acct_1";
  idempotency_key = codes "key-1";
  request_hash = "h1";
  route = none;
  method = none;
  api_version = none;
}

abbrev before : World Db
before = record {
  db = record {
    api_requests = [];
    intents = [];
    operations = [];
    ledger_command_requests = [];
    idempotency_keys = new_row digest 1000 5 first_claim ∷ [];
  };
  held = 0;
}

abbrev nothing_fails : Statement → Bool
nothing_fails s = false

abbrev command_fails : Statement → Bool
command_fails insert_command = true
command_fails s = false

enqueue_intent-Outcome_example :
    ((enqueue_intent digest false command_fails 7 transfer_input new_ids before).0.held ≡ 0)
    × Outcome digest transfer_input before.db
        (enqueue_intent digest false command_fails 7 transfer_input new_ids before)
enqueue_intent-Outcome_example =
    enqueue_intent-Outcome digest command_fails 7 transfer_input new_ids before

abbrev expected : EnqueueResult
expected = record {
  operation_id = "op_01A";
  intent_id = codes "trint_01B";
  command_id = "cmd_0123456789abcdef01234567";
  status = "processing";
}

answer_test :
    (enqueue_intent digest false nothing_fails 7 transfer_input new_ids before).1 ≡ ok expected
unfolding enqueue_intent with_tx record_all result_of command_id
answer_test = refl

rolled_back_test :
    (enqueue_intent digest false command_fails 7 transfer_input new_ids before).1
    ≡ err insert_command
unfolding enqueue_intent with_tx record_all
rolled_back_test = refl

claim-enqueue_intent_example :
    claim digest 1000 7 no_faults true first_claim
      (enqueue_intent digest false nothing_fails 7 transfer_input new_ids
        before).0.db.idempotency_keys
    ≡ (
      (enqueue_intent digest false nothing_fails 7 transfer_input new_ids
          before).0.db.idempotency_keys,
      ok (in_progress (some "op_01A")),
    )
unfolding new_row claim_key
claim-enqueue_intent_example =
    claim-enqueue_intent digest 1000 7 nothing_fails transfer_input new_ids before expected
      (new_row digest 1000 5 first_claim) first_claim answer_test refl refl refl refl
