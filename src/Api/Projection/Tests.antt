-- ===== src/Api/Projection/Tests.antt =====
-- Lists of balances at concrete inputs, and the theorem at one.
use canton_pillar.Base.{
  ◌≡◌, refl, ℕ, ◌+◌, false, Option, none, some, List, [], ◌∷◌, Text, String, codes, text_le, number,
  or_else,
}
use canton_pillar.Api.Projection.{
  Limit, Balance, ProjectionRow, clamp_limit, list_rows, select_page, ordered_page, matches,
  balance_of, stale,
}
use canton_pillar.Api.Projection.Routes.{
  Query, Reply, listed, Operations, get_balances, answer, wait_for_operation,
}

abbrev whole_number : Option Text → ℕ
whole_number s = number (or_else s [])

abbrev plus : ℕ → ℕ → ℕ
plus a b = a + b

abbrev printed : ℕ → Text
printed n = codes "0.000000"

abbrev row_of : String → String → String → ProjectionRow
row_of id tenant asset = record {
  id = codes id;
  tenant_id = codes tenant;
  account_id = codes "acct_1";
  asset_id = codes asset;
  created_at = 0;
  available = none;
  pending = none;
  reserved = none;
  total = none;
  status = none;
  source_intent = none;
  metadata = none;
  as_of_ledger_offset = some (codes "10");
  ledger_offset = none;
  projection_watermark = none;
  as_of_ledger_time = some 90000;
  projected_at = none;
  updated_at = none;
}

abbrev table : List ProjectionRow
table =
    row_of "bal_2" "ten_1" "asst_a"
    ∷ row_of "bal_3" "ten_2" "asst_a"
    ∷ row_of "bal_1" "ten_1" "asst_b"
    ∷ []

abbrev operations : Operations
operations = record {
  use_demo = false;
  started = 0;
  cached = λ tenant operation. none;
  rows =
      record {
        tenant_id = codes "ten_1";
        operation_id = codes "op_1";
        status = some (codes "projected");
      }
      ∷ [];
}

abbrev one_each : Option Text → Query
one_each after = record {
  consistency = some (codes "strong");
  operation = none;
  simulate_lag = none;
  page = record {
    account = none;
    asset = none;
    status = none;
    limit = some (Limit.whole 1);
    starting_after = after;
    ending_before = none;
  };
}

abbrev page_after : Option Text → Reply Balance
page_after after =
    get_balances whole_number plus printed 60 100000 text_le text_le table operations
      (codes "ten_1") false (one_each after)

abbrev ids_of : Reply Balance → List Text
ids_of (listed rows) = ids rows
  where
    ids : List Balance → List Text
    ids [] = []
    ids (b ∷ bs) = b.id ∷ ids bs
ids_of reply = []

first_page_test : ids_of (page_after none) ≡ codes "bal_2" ∷ []
unfolding get_balances answer wait_for_operation list_rows select_page ordered_page matches
    clamp_limit balance_of stale
first_page_test = refl

-- The page after the first one is empty, though the tenant has another balance: its identifier is
-- smaller, as the order is by asset first.
second_page_test : ids_of (page_after (some (codes "bal_2"))) ≡ []
unfolding get_balances answer wait_for_operation list_rows select_page ordered_page matches
    clamp_limit balance_of stale
second_page_test = refl

abbrev first_page : List Balance
first_page = balance_of whole_number plus printed 60 100000 (row_of "bal_2" "ten_1" "asst_a") ∷ []
