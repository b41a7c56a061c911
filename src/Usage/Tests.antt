-- ===== src/Usage/Tests.antt =====
-- Deliveries at concrete inputs, and the theorems at them.
use canton_pillar.Base.{
  ◌≡◌, refl, true, List, [], ◌∷◌, map, String, ok, err, inr, All, codes, text_eq, text_le, any,
  length,
}
use canton_pillar.Usage.{
  UsageEnvelope, dedupe_of, consume, rebuild_rollup, Rollup, block_monthly_close,
}
use canton_pillar.Usage.Quantity.{pos, negsuc, big_int, big_text}
use canton_pillar.Usage.Consumption.{
  consume_all, empty_consumer, IsExact, was_delivered, consume_all-IsExact,
}
use canton_pillar.Usage.Reconciliation.{IsCounted, sum_of, block_monthly_close-rebuild_rollup}

abbrev event : String → String → String → UsageEnvelope
event meter key quantity = record {
  tenant_id = codes "ten";
  environment_id = codes "env";
  meter = codes meter;
  quantity = codes quantity;
  dedupe_key = codes key;
  billable = true;
}

abbrev deliveries : List UsageEnvelope
deliveries =
    event "intent.created" "k1" "2"
    ∷ event "export.bytes" "k2" "-30"
    ∷ event "intent.created" "k1" "2"
    ∷ event "none" "k3" "0x10"
    ∷ []

rows_test : length (consume_all deliveries empty_consumer).rows ≡ 2
unfolding consume_all consume
rows_test = refl

consume_all-IsExact_example :
    IsExact (consume_all deliveries empty_consumer)
    × (any (text_eq (codes "ten:k2")) (map dedupe_of (consume_all deliveries empty_consumer).rows)
        ≡ was_delivered (codes "ten:k2") deliveries)
consume_all-IsExact_example = consume_all-IsExact deliveries (codes "ten:k2")

abbrev counted : All IsCounted deliveries
unfolding big_int
counted =
    (inr (pos 2, refl), (inr (negsuc 29, refl), (inr (pos 2, refl), (inr (pos 16, refl), tt))))

fraction_test :
    rebuild_rollup text_le
      (event "export.bytes" "k" "1.5" ∷ [])
      (codes "month")
      (codes "1")
      (codes "2")
    ≡ err (codes "1.5")
unfolding rebuild_rollup big_int
fraction_test = refl

block_monthly_close-rebuild_rollup_example :
    (rollups : List Rollup) × (rebuild_rollup text_le deliveries
        (codes "month")
        (codes "1")
        (codes "2")
      ≡ ok rollups)
    × (block_monthly_close deliveries rollups
        ≡ ok (record {
          agrees = true;
          expected = big_text (sum_of deliveries counted);
          actual = big_text (sum_of deliveries counted);
        }))
block_monthly_close-rebuild_rollup_example =
    block_monthly_close-rebuild_rollup text_le deliveries (codes "month") (codes "1") (codes "2")
      counted
