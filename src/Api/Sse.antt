-- ===== src/Api/Sse.antt =====
-- apps/api/src/services/sse-broker/Broker.ts: the broker that fans events out to the subscribers of a
-- tenant, over rings of the latest events. JavaScript runs each call to its end, so `publish`,
-- `subscribe`, `next` and `close` are steps on the broker. A subscriber is known by the number of
-- its `subscribe`; an await is the answer `waits`.
pub mod Keys
pub mod Invariant
pub mod Delivery
use canton_pillar.Base.{
  ◌≡◌, refl, ℕ, zero, suc, ◌+◌, ◌-◌, Bool, true, false, ◌&&◌, ◌||◌, not, Option, none, some, List,
  [], ◌∷◌, ◌++◌, map, String, Text, Result, ok, err, if◌then◌else◌, codes, text_eq, starts_with,
  find, keep, any, drop, length, ltb, leb, ◌==◌, str_eq, rest_of, trim_front, or_else,
}

pub record SseEvent : Type 0 where
  pub id : Text
  pub type : String
  pub payload : String
  pub ts : ℕ
  pub tenant_id : Text
  pub livemode : Bool

-- `filter.types?.length` is falsy for a missing and for an empty list.
pub record SseFilter : Type 0 where
  pub types : List String
  pub after_id : Option Text

pub record Subscriber : Type 0 where
  pub number : ℕ
  pub tenant_id : Text
  pub livemode : Bool
  pub types : List String
  pub queue : List SseEvent
  pub last_seen_id : Option Text
  pub overflowed : Bool

abbrev pub Ring : Type 0
Ring = List SseEvent

-- A subscriber that is closed has left the set `subscribers`.
pub record Broker : Type 0 where
  pub capacity : ℕ
  pub subscriber_capacity : ℕ
  pub rings : List (Text × Ring)
  pub subscribers : List Subscriber
  pub next_number : ℕ

abbrev pub mode_suffix : Bool → Text
mode_suffix true = codes ":live"
mode_suffix false = codes ":test"

abbrev pub key_for : Text → Bool → Text
key_for tenant livemode = tenant ++ mode_suffix livemode

unfoldable pub ring_at : Text → List (Text × Ring) → Ring
ring_at key [] = []
ring_at key ((k, ring) ∷ rings) = if text_eq k key then ring else ring_at key rings

unfoldable pub set_ring : Text → Ring → List (Text × Ring) → List (Text × Ring)
set_ring key ring [] = (key, ring) ∷ []
set_ring key ring ((k, r) ∷ rings) =
    if text_eq k key then (key, ring) ∷ rings else (k, r) ∷ set_ring key ring rings

abbrev pub same_mode : Bool → Bool → Bool
same_mode true b = b
same_mode false b = not b

abbrev pub wants : List String → SseEvent → Bool
wants [] e = true
wants (t ∷ ts) e = any (λ u. str_eq u e.type) (t ∷ ts)

-- The two guards of the loop over the subscribers.
unfoldable pub accepts : SseEvent → Subscriber → Bool
accepts e s =
    (text_eq s.tenant_id e.tenant_id && same_mode s.livemode e.livemode) && wants s.types e

unfoldable pub enqueue : ℕ → SseEvent → Subscriber → Subscriber
enqueue cap e s =
    if leb cap (length s.queue)
    then record s { queue = rest_of s.queue ++ e ∷ []; overflowed = true; last_seen_id = some e.id }
    else record s { queue = s.queue ++ e ∷ []; last_seen_id = some e.id }

-- The body of that loop.
unfoldable pub offer : ℕ → SseEvent → Subscriber → Subscriber
unfolding accepts enqueue
offer cap e s = if accepts e s then enqueue cap e s else s

pub data SseError : Type 0 where
  sse_event_id_must_start_evt : SseError

unfoldable pub publish : SseEvent → Broker → Result SseError Broker
unfolding offer ring_at set_ring
publish e b =
    let key = key_for e.tenant_id e.livemode in
    if not (starts_with (codes "evt_") e.id)
    then err sse_event_id_must_start_evt
    else ok (record b {
      rings = set_ring key (trim_front b.capacity (ring_at key b.rings ++ e ∷ [])) b.rings;
      subscribers = map (offer b.subscriber_capacity e) b.subscribers;
    })

-- `ring.slice(ring.findIndex(e => e.id === afterId) + 1)`: everything if the id is not there.
unfoldable pub after_event : Text → Ring → Ring → Ring
after_event id whole [] = whole
after_event id whole (e ∷ ring) = if text_eq e.id id then ring else after_event id whole ring

-- The events that a new subscriber is given; an empty `afterId` counts as missing.
abbrev pub backlog : Option Text → Ring → Ring
backlog none ring = []
backlog (some []) ring = []
backlog (some (c ∷ id)) ring = after_event (c ∷ id) ring ring

unfoldable pub subscribe : Text → Bool → SseFilter → Broker → Broker
unfolding ring_at after_event
subscribe tenant livemode filter b =
    let ring = ring_at (key_for tenant livemode) b.rings in
    record b {
      subscribers =
          b.subscribers
          ++ record {
            number = b.next_number;
            tenant_id = tenant;
            livemode = livemode;
            types = filter.types;
            queue = keep (wants filter.types) (backlog filter.after_id ring);
            last_seen_id = none;
            overflowed = false;
          }
            ∷ [];
      next_number = suc b.next_number;
    }

unfoldable pub close : ℕ → Broker → Broker
close number b = record b { subscribers = keep (λ s. not (s.number == number)) b.subscribers }

-- One round of the iterator: an overflow notice, the next event, or an await.
pub data Yielded : Type 0 where
  overflow : (last_seen_id : Option Text) → Yielded
  event : SseEvent → Yielded
  waits : Yielded

-- `state.queue.shift()`.
abbrev pub take_next : Subscriber → List SseEvent → Subscriber × Yielded
take_next s [] = (s, waits)
take_next s (e ∷ queue) = (record s { queue = queue }, event e)

unfoldable pub next_of : Subscriber → Subscriber × Yielded
next_of s =
    if s.overflowed
    then (record s { overflowed = false }, overflow s.last_seen_id)
    else take_next s s.queue

unfoldable pub next : ℕ → Broker → Broker
unfolding next_of
next number b = record b {
  subscribers = map (λ s. if s.number == number then (next_of s).0 else s) b.subscribers;
}
