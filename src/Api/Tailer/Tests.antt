-- ===== src/Api/Tailer/Tests.antt =====
-- A log of three rows, and polls of it.
use canton_pillar.Base.{
  ◌≡◌, refl, ℕ, true, false, [], ◌∷◌, List, String, codes, ok, arith, ◌/◌, ◌*◌,
}
use canton_pillar.Api.Sse.{publish}
use canton_pillar.Api.Tailer.{
  LogRow, Tailer, pending, event_of, tick, poll_once, deliver, handle_notification, stop, is_mine,
}
use canton_pillar.Api.Tailer.Polls.{publish_all, published, ticks, ticks-publish_all}

abbrev row_at : String → ℕ → LogRow
row_at id time = record {
  id = codes id;
  tenant_id = codes "acct_1";
  livemode = false;
  type = "transfer_intent.succeeded";
  payload = "{}";
  created_at = time;
}

abbrev log : List LogRow
log = row_at "evt_3" 3000 ∷ row_at "evt_1" 1000 ∷ row_at "evt_2" 2000 ∷ []

abbrev tailer : Tailer
tailer = record {
  tenant_id = codes "acct_1";
  livemode = false;
  stopped = false;
  last_seen = 1000;
  broker = record {
    capacity = 2;
    subscriber_capacity = 2;
    rings = [];
    subscribers = [];
    next_number = 0;
  };
}

-- Dates have whole milliseconds.
abbrev to_date : ℕ → ℕ
to_date t = t / 1000 * 1000

pending_test : pending log tailer ≡ row_at "evt_2" 2000 ∷ row_at "evt_3" 3000 ∷ []
unfolding pending is_mine
pending_test = refl

seen_test : (tick to_date true log tailer).last_seen ≡ 3000
unfolding tick poll_once deliver pending is_mine publish event_of
seen_test = refl

abbrev fine_log : List LogRow
fine_log = row_at "evt_4" 4500 ∷ []

-- A time with a fraction of a millisecond is past the Date that is made of it: the row stays due.
repeated_test : pending fine_log (tick to_date true fine_log tailer) ≡ fine_log
unfolding tick poll_once deliver pending is_mine publish event_of
repeated_test = refl

stopped_test : tick to_date true log (stop tailer) ≡ stop tailer
unfolding tick stop
stopped_test = refl

other_tenant_test : handle_notification to_date true (codes "acct_2:test:evt_3") log tailer ≡ tailer
unfolding handle_notification
other_tenant_test = refl

ticks-publish_all_example :
    (publish_all (published to_date tailer (pending log tailer)) tailer.broker
      ≡ ok (ticks to_date 1 log tailer).broker)
    × (pending log (ticks to_date 1 log tailer) ≡ [])
unfolding pending is_mine
ticks-publish_all_example =
    ticks-publish_all to_date 1 log tailer refl ((refl, (refl, tt)), ((refl, tt), (tt, tt)))
      (refl, (refl, (refl, tt))) (refl, (refl, (refl, tt))) (omega arith)
