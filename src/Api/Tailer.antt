-- ===== src/Api/Tailer.antt =====
-- apps/api/src/services/sse-broker/EventLogTailer.ts: the rows of `event_log` that a tailer reads and
-- publishes. A poll runs to its end before the next one starts. Times count microseconds, which is
-- what a column `timestamptz` keeps; `date_of` is the value of the Date that the driver makes of one.
-- `served` says whether the database answers a poll.
pub mod Polls
mod Tests
use canton_pillar.Base.{
  ◌≡◌, refl, ℕ, zero, suc, Bool, true, false, ◌&&◌, ◌||◌, not, List, [], ◌∷◌, Text, String, Result,
  ok, err, if◌then◌else◌, codes, text_eq, starts_with, keep, take, split, ltb, leb,
}
use canton_pillar.Base.Sorting.{sort}
use canton_pillar.Api.Sse.{SseEvent, SseError, Broker, publish, same_mode}

pub record LogRow : Type 0 where
  pub id : Text
  pub tenant_id : Text
  pub livemode : Bool
  pub type : String
  pub payload : String
  pub created_at : ℕ

-- The private fields and the options, with the broker that it publishes to.
pub record Tailer : Type 0 where
  pub tenant_id : Text
  pub livemode : Bool
  pub stopped : Bool
  pub last_seen : ℕ
  pub broker : Broker

pub data PollError : Type 0 where
  database : PollError
  publishing : SseError → PollError

-- `tenant_id=$1 and livemode=$2`, and `created_at>$3`.
unfoldable pub is_mine : Tailer → LogRow → Bool
is_mine t row = text_eq row.tenant_id t.tenant_id && same_mode row.livemode t.livemode

abbrev pub is_after : ℕ → LogRow → Bool
is_after seen row = ltb seen row.created_at

abbrev pub older : LogRow → LogRow → Bool
older a b = leb a.created_at b.created_at

-- The query, before its limit.
unfoldable pub pending : List LogRow → Tailer → List LogRow
unfolding is_mine
pending log t = sort older (keep (λ row. is_mine t row && is_after t.last_seen row) log)

module _ (date_of : ℕ → ℕ) where
  unfoldable pub event_of : Tailer → LogRow → SseEvent
  event_of t row = record {
    id = row.id;
    type = row.type;
    payload = row.payload;
    ts = date_of row.created_at;
    tenant_id = t.tenant_id;
    livemode = t.livemode;
  }

  -- The watermark moves before the row is published; a row that cannot be published ends the loop.
  unfoldable pub deliver : List LogRow → Tailer → Tailer × Result PollError (Unit {0})
  unfolding event_of
  deliver [] t = (t, ok tt)
  deliver (row ∷ rows) t =
      let seen = record t { last_seen = date_of row.created_at } in
      elim (publish (event_of t row) t.broker) [
        | err e ↦ (seen, err (publishing e))
        | ok b ↦ deliver rows (record seen { broker = b })
      ]

  unfoldable pub poll_once : Bool → List LogRow → Tailer → Tailer × Result PollError (Unit {0})
  unfolding deliver pending
  poll_once served log t =
      if served then deliver (take 512 (pending log t)) t else (t, err database)

  -- One round of the timer: what the poll throws is dropped.
  unfoldable pub tick : Bool → List LogRow → Tailer → Tailer
  unfolding poll_once
  tick served log t = if t.stopped then t else (poll_once served log t).0

  -- A notification `tenant:mode:event`; the further parts are not read.
  abbrev pub is_addressed : Tailer → List Text → Bool
  is_addressed t (tenant ∷ mode ∷ event ∷ rest) =
      (text_eq tenant t.tenant_id && same_mode (text_eq mode (codes "live")) t.livemode)
      && starts_with (codes "evt_") event
  is_addressed t parts = false

  unfoldable pub handle_notification : Bool → Text → List LogRow → Tailer → Tailer
  unfolding poll_once
  handle_notification served payload log t =
      if is_addressed t (split b':' payload) then (poll_once served log t).0 else t

unfoldable pub stop : Tailer → Tailer
stop t = record t { stopped = true }
