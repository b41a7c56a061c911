-- ===== src/Api/Sse/Invariant.antt =====
-- What every step keeps of the tenants and modes of events, and of the sizes of the buffers.
use canton_pillar.Base.{
  ◌≡◌, refl, sym, inl, inr, ℕ, suc, ◌≤◌, ◌<◌, max, Bool, true, false, Option, none, some, List, [],
  ◌∷◌, ◌++◌, map, String, Text, Result, ok, err, if◌then◌else◌, codes, text_eq, text_eq_sound,
  starts_with, keep, length, length-append, length-keep-le, leb, ◌==◌, rest_of, trim_front,
  length-trim_front, arith, Bool-cases, All, All-append, All-trim_front, All-keep, &&-true, leb→le,
}
use canton_pillar.Api.Sse.{
  SseEvent, SseFilter, Subscriber, Ring, Broker, key_for, ring_at, set_ring, same_mode, wants,
  accepts, enqueue, offer, publish, after_event, backlog, subscribe, close, next_of, next,
  take_next, SseError,
}
use mathlib.Core.Path.{subst}
use canton_pillar.Api.Sse.Keys.{key_for-injective}

abbrev pub IsEventOf : Text → SseEvent → Type 0
IsEventOf key e = (key_for e.tenant_id e.livemode ≡ key) × (starts_with (codes "evt_") e.id ≡ true)

abbrev pub Fits : ℕ → Text × Ring → Type 0
Fits cap (key, ring) = (length ring ≤ cap) × All (IsEventOf key) ring

-- The event is of the tenant and the mode, and passes the filter.
pub record IsFor (tenant : Text) (live : Bool) (types : List String) (e : SseEvent) : Type 0 where
  pub same_tenant : e.tenant_id ≡ tenant
  pub same_livemode : e.livemode ≡ live
  pub wanted : wants types e ≡ true

abbrev pub HasOwn : Subscriber → Type 0
HasOwn s = All (IsFor s.tenant_id s.livemode s.types) s.queue

abbrev pub IsServed : ℕ → Subscriber → Type 0
IsServed bound s = (length s.queue ≤ bound) × HasOwn s

-- A queue is bounded by the larger of the two capacities: the backlog of a new subscriber may
-- exceed the capacity of a queue.
pub record IsValid (b : Broker) : Type 0 where
  pub positive : 0 < b.subscriber_capacity
  pub rings : All (Fits b.capacity) b.rings
  pub queues : All (IsServed (max b.capacity b.subscriber_capacity)) b.subscribers

ring_at-Fits :
    (cap : ℕ) (key : Text) (rings : List (Text × Ring))
    → All (Fits cap) rings
    → Fits cap (key, ring_at key rings)
unfolding ring_at
ring_at-Fits cap key [] h = (omega arith, tt)
ring_at-Fits cap key ((k, ring) ∷ rings) (h, hs) = elim (Bool-cases (text_eq k key)) [
  | inl e ↦ rw e (h.0, subst (λ x. All (IsEventOf x) ring) (text_eq_sound k key e) h.1)
  | inr e ↦ rw e (ring_at-Fits cap key rings hs)
]

set_ring-Fits :
    (cap : ℕ) (key : Text) (ring : Ring) (rings : List (Text × Ring))
    → Fits cap (key, ring)
    → All (Fits cap) rings
    → All (Fits cap) (set_ring key ring rings)
unfolding set_ring
set_ring-Fits cap key ring [] f h = (f, tt)
set_ring-Fits cap key ring ((k, r) ∷ rings) f (h, hs) = elim (Bool-cases (text_eq k key)) [
  | inl e ↦ rw e (f, hs)
  | inr e ↦ rw e (h, set_ring-Fits cap key ring rings f hs)
]

rest_of-All : (P : SseEvent → Type 0) (q : List SseEvent) → All P q → All P (rest_of q)
rest_of-All P [] h = tt
rest_of-All P (e ∷ q) (_, h) = h

length-push : (q : List SseEvent) (e : SseEvent) → length (q ++ e ∷ []) ≡ suc (length q)
length-push q e = omega (arith, length-append q (e ∷ []))

length-replace :
    (q : List SseEvent) (e : SseEvent) → 0 < length q → length (rest_of q ++ e ∷ []) ≡ length q
length-replace [] e h = absurd (omega arith)
length-replace (d ∷ q) e h = length-push q e

same_mode_sound : (a b : Bool) → same_mode a b ≡ true → b ≡ a
same_mode_sound true b h = h
same_mode_sound false b h = ground arith

accepts-IsFor :
    (e : SseEvent) (s : Subscriber) → accepts e s ≡ true → IsFor s.tenant_id s.livemode s.types e
unfolding accepts
accepts-IsFor e s h =
    let (both, wanted) = &&-true _ _ h in
    let (tenant, mode) = &&-true _ _ both in
    record {
      same_tenant = sym (text_eq_sound s.tenant_id e.tenant_id tenant);
      same_livemode = same_mode_sound s.livemode e.livemode mode;
      wanted = wanted;
    }

enqueue-IsServed :
    (cap bound : ℕ) (e : SseEvent) (s : Subscriber)
    → 0 < cap
    → cap ≤ bound
    → IsFor s.tenant_id s.livemode s.types e
    → IsServed bound s
    → IsServed bound (enqueue cap e s)
unfolding enqueue
enqueue-IsServed cap bound e s pos le mine (h, hs) =
    let P = IsFor s.tenant_id s.livemode s.types in
    elim (Bool-cases (leb cap (length s.queue))) [
      | inl full ↦ simp full (
        (let below = leb→le cap (length s.queue) full in
            omega (arith, length-replace s.queue e (omega arith))),
        All-append P (rest_of s.queue) (e ∷ []) (rest_of-All P s.queue hs) (mine, tt),
      )
      | inr room ↦
          simp room
            (ground (arith, length-push s.queue e), All-append P s.queue (e ∷ []) hs (mine, tt))
    ]

offer-IsServed :
    (cap bound : ℕ) (e : SseEvent) (s : Subscriber)
    → 0 < cap
    → cap ≤ bound
    → IsServed bound s
    → IsServed bound (offer cap e s)
unfolding offer
offer-IsServed cap bound e s pos le h = elim (Bool-cases (accepts e s)) [
  | inl yes' ↦ simp yes' (enqueue-IsServed cap bound e s pos le (accepts-IsFor e s yes') h)
  | inr no' ↦ simp no' h
]

map-offer-IsServed :
    (cap bound : ℕ) (e : SseEvent) (ss : List Subscriber)
    → 0 < cap
    → cap ≤ bound
    → All (IsServed bound) ss
    → All (IsServed bound) (map (offer cap e) ss)
map-offer-IsServed cap bound e [] pos le h = tt
map-offer-IsServed cap bound e (s ∷ ss) pos le (h, hs) =
    (offer-IsServed cap bound e s pos le h, map-offer-IsServed cap bound e ss pos le hs)

publish-IsValid : (e : SseEvent) (b b' : Broker) → IsValid b → publish e b ≡ ok b' → IsValid b'
unfolding publish
publish-IsValid e b b' v h = elim (Bool-cases (starts_with (codes "evt_") e.id)) [
  | inl named ↦
      let key = key_for e.tenant_id e.livemode in
      let ring = ring_at key b.rings ++ e ∷ [] in
      let old = ring_at-Fits b.capacity key b.rings v.rings in
      let fits : Fits b.capacity (key, trim_front b.capacity ring) = (
        omega (arith, length-trim_front b.capacity ring),
        All-trim_front (IsEventOf key) b.capacity ring
            (All-append (IsEventOf key) (ring_at key b.rings) (e ∷ []) old.1 ((refl, named), tt)),
      ) in
      let b1 : Broker = record b {
        rings = set_ring key (trim_front b.capacity ring) b.rings;
        subscribers = map (offer b.subscriber_capacity e) b.subscribers;
      } in
      let same : b1 ≡ b' = ground arith in
      rw (← same) (record {
        positive = v.positive;
        rings = set_ring-Fits b.capacity key _ b.rings fits v.rings;
        queues =
            map-offer-IsServed b.subscriber_capacity _ e b.subscribers v.positive (omega arith)
              v.queues;
      })
  | inr bad ↦ absurd (ground arith)
]

after_event-All :
    (P : SseEvent → Type 0) (id : Text) (whole ring : Ring)
    → All P whole
    → All P ring
    → All P (after_event id whole ring)
unfolding after_event
after_event-All P id whole [] h k = h
after_event-All P id whole (e ∷ ring) h (_, k) = elim (Bool-cases (text_eq e.id id)) [
  | inl hit ↦ simp hit k
  | inr miss ↦ simp miss (after_event-All P id whole ring h k)
]

length-after_event-le :
    (id : Text) (whole ring : Ring)
    → length ring ≤ length whole
    → length (after_event id whole ring) ≤ length whole
unfolding after_event
length-after_event-le id whole [] h = omega arith
length-after_event-le id whole (e ∷ ring) h = ground (arith, length-after_event-le id whole ring)

backlog-All :
    (P : SseEvent → Type 0) (after : Option Text) (ring : Ring)
    → All P ring
    → All P (backlog after ring)
backlog-All P none ring h = tt
backlog-All P (some []) ring h = tt
backlog-All P (some (c ∷ id)) ring h = after_event-All P (c ∷ id) ring ring h h

length-backlog-le : (after : Option Text) (ring : Ring) → length (backlog after ring) ≤ length ring
length-backlog-le none ring = omega arith
length-backlog-le (some []) ring = omega arith
length-backlog-le (some (c ∷ id)) ring = length-after_event-le (c ∷ id) ring ring (omega arith)

keep-IsFor :
    (tenant : Text) (live : Bool) (types : List String) (es : List SseEvent)
    → All (IsEventOf (key_for tenant live)) es
    → All (IsFor tenant live types) (keep (wants types) es)
keep-IsFor tenant live types [] h = tt
keep-IsFor tenant live types (e ∷ es) ((k, _), h) = elim (Bool-cases (wants types e)) [
  | inl wanted ↦
      let (t, m) = key_for-injective e.tenant_id tenant e.livemode live k in
      simp wanted (
        record { same_tenant = t; same_livemode = m; wanted = wanted },
        keep-IsFor tenant live types es h,
      )
  | inr other ↦ simp other (keep-IsFor tenant live types es h)
]

subscribe-IsValid :
    (tenant : Text) (live : Bool) (f : SseFilter) (b : Broker)
    → IsValid b
    → IsValid (subscribe tenant live f b)
unfolding subscribe
subscribe-IsValid tenant live f b v =
    let (short, own) = ring_at-Fits b.capacity (key_for tenant live) b.rings v.rings in
    let ring = ring_at (key_for tenant live) b.rings in
    record {
      positive = v.positive;
      rings = v.rings;
      queues =
          All-append (IsServed (max b.capacity b.subscriber_capacity)) b.subscribers _ v.queues (
            (
              omega (
                arith,
                length-keep-le (wants f.types) (backlog f.after_id ring),
                length-backlog-le f.after_id ring,
              ),
              keep-IsFor tenant live f.types (backlog f.after_id ring)
                  (backlog-All (IsEventOf (key_for tenant live)) f.after_id ring own),
            ),
            tt,
          );
    }

take_next-IsServed :
    (bound : ℕ) (s : Subscriber) (q : List SseEvent)
    → length q ≤ bound
    → All (IsFor s.tenant_id s.livemode s.types) q
    → IsServed bound s
    → IsServed bound (take_next s q).0
take_next-IsServed bound s [] h hs v = v
take_next-IsServed bound s (e ∷ q) h (_, hs) v = (omega arith, hs)

next_of-IsServed : (bound : ℕ) (s : Subscriber) → IsServed bound s → IsServed bound (next_of s).0
unfolding next_of
next_of-IsServed bound s (h, hs) = elim (Bool-cases s.overflowed) [
  | inl over ↦ simp over (h, hs)
  | inr calm ↦ simp calm (take_next-IsServed bound s s.queue h hs (h, hs))
]

next-IsValid : (number : ℕ) (b : Broker) → IsValid b → IsValid (next number b)
unfolding next
next-IsValid number b v = record {
  positive = v.positive;
  rings = v.rings;
  queues = go b.subscribers v.queues;
}
  where
    go :
        (ss : List Subscriber)
        → All (IsServed (max b.capacity b.subscriber_capacity)) ss
        → All
            (IsServed (max b.capacity b.subscriber_capacity))
            (map (λ s. if s.number == number then (next_of s).0 else s) ss)
    go [] h = tt
    go (s ∷ ss) (h, hs) = (
      elim (s.number == number)
          as (λ t.
            IsServed (max b.capacity b.subscriber_capacity) (if t then (next_of s).0 else s)) [
              | true ↦ next_of-IsServed _ s h
              | false ↦ h
            ],
      go ss hs,
    )

close-IsValid : (number : ℕ) (b : Broker) → IsValid b → IsValid (close number b)
unfolding close
close-IsValid number b v = record {
  positive = v.positive;
  rings = v.rings;
  queues = All-keep (IsServed (max b.capacity b.subscriber_capacity)) _ b.subscribers v.queues;
}

pub data BrokerOp : Type 0 where
  publishes : SseEvent → BrokerOp
  subscribes : Text → Bool → SseFilter → BrokerOp
  reads : ℕ → BrokerOp
  closes : ℕ → BrokerOp

abbrev kept_or : Broker → Result SseError Broker → Broker
kept_or b (ok b') = b'
kept_or b (err e) = b

unfoldable pub apply : BrokerOp → Broker → Broker
apply (publishes e) b = kept_or b (publish e b)
apply (subscribes tenant live f) b = subscribe tenant live f b
apply (reads number) b = next number b
apply (closes number) b = close number b

unfoldable pub apply_all : List BrokerOp → Broker → Broker
unfolding apply
apply_all [] b = b
apply_all (o ∷ os) b = apply_all os (apply o b)

apply-IsValid : (o : BrokerOp) (b : Broker) → IsValid b → IsValid (apply o b)
unfolding apply
apply-IsValid (publishes e) b v = go (publish e b) refl
  where
    go : (r : Result SseError Broker) → publish e b ≡ r → IsValid (kept_or b r)
    go (ok b') h = publish-IsValid e b b' v h
    go (err x) h = v
apply-IsValid (subscribes tenant live f) b v = subscribe-IsValid tenant live f b v
apply-IsValid (reads number) b v = next-IsValid number b v
apply-IsValid (closes number) b v = close-IsValid number b v

-- Whatever is published, subscribed, read and closed, a broker stays valid: no ring exceeds the
-- capacity; a ring holds only events of its tenant and mode, with ids that start with evt_; every
-- queued event is of its subscriber's tenant and mode and passes its filter; and a queue is no
-- longer than the larger of the two capacities.
pub apply_all-IsValid : (os : List BrokerOp) (b : Broker) → IsValid b → IsValid (apply_all os b)
unfolding apply_all
apply_all-IsValid [] b v = v
apply_all-IsValid (o ∷ os) b v = apply_all-IsValid os (apply o b) (apply-IsValid o b v)
