-- ===== src/Api/Tailer/Polls.antt =====
-- What repeated polls publish.
use canton_pillar.Base.{
  ◌≡◌, refl, sym, ap, ◌∙◌, inl, inr, ℕ, zero, suc, ◌*◌, ◌≤◌, ◌<◌, Bool, true, false, ◌&&◌, List, [],
  ◌∷◌, ◌++◌, map, length-drop, append-take-drop, Result, ok, err, ◌>>=◌, codes, starts_with, keep,
  take, drop, length, All, All-keep, All-drop, arith, Bool-cases, ok_injective, >>=-eq-ok,
}
use mathlib.Core.Path.{subst}
use mathlib.Core.List.{map-append}
use canton_pillar.Base.Sorting.{sort, IsTotal, IsTransitive, sort-keep}
use canton_pillar.Api.Sse.{SseEvent, SseError, Broker, publish}
use canton_pillar.Api.Tailer.{
  LogRow, Tailer, PollError, is_mine, is_after, older, pending, event_of, deliver, poll_once, tick,
}

older-IsTotal : IsTotal older
older-IsTotal a b h = ground arith

older-IsTransitive : IsTransitive older
older-IsTransitive a b c h k = ground arith

-- The tailer's rows of the log, oldest first.
abbrev pub mine_of : List LogRow → Tailer → List LogRow
mine_of log t = sort older (keep (is_mine t) log)

-- No two rows have the same time.
abbrev pub IsAscending : List LogRow → Type 0
IsAscending [] = Unit
IsAscending (row ∷ rows) = All (λ r. is_after row.created_at r ≡ true) rows × IsAscending rows

keep-&& : {A : Type 0} (p q : A → Bool) (l : List A) → keep (λ x. p x && q x) l ≡ keep q (keep p l)
keep-&& p q [] = refl
keep-&& p q (x ∷ l) = elim (Bool-cases (p x)) [
  | inl e ↦ elim (Bool-cases (q x)) [
    | inl f ↦ simp (e, f) (ap (λ m. x ∷ m) (keep-&& p q l))
    | inr f ↦ simp (e, f) (keep-&& p q l)
  ]
  | inr e ↦ simp e (keep-&& p q l)
]

pending-mine_of :
    (log : List LogRow) (t : Tailer) → pending log t ≡ keep (is_after t.last_seen) (mine_of log t)
unfolding pending
pending-mine_of log t =
    ap (sort older) (keep-&& (is_mine t) (is_after t.last_seen) log)
    ∙ sort-keep older older-IsTotal older-IsTransitive (is_after t.last_seen) (keep (is_mine t) log)

keep-All : {A : Type 0} (p : A → Bool) (l : List A) → All (λ x. p x ≡ true) l → keep p l ≡ l
keep-All p [] h = refl
keep-All p (x ∷ l) (e, h) = simp e (ap (λ m. x ∷ m) (keep-All p l h))

All-is_after :
    (a b : ℕ) (rows : List LogRow)
    → a ≤ b
    → All (λ r. is_after b r ≡ true) rows
    → All (λ r. is_after a r ≡ true) rows
All-is_after a b [] h k = tt
All-is_after a b (r ∷ rows) h (e, k) = (ground arith, All-is_after a b rows h k)

cons_injective : (a b : LogRow) (l m : List LogRow) → a ∷ l ≡ b ∷ m → (a ≡ b) × (l ≡ m)
cons_injective a b l m h = (cc, cc)

-- After the first of the rows past a time, the others are those past its own.
keep-is_after :
    (seen : ℕ) (rows : List LogRow) (a : LogRow) (l : List LogRow)
    → IsAscending rows
    → keep (is_after seen) rows ≡ a ∷ l
    → (seen < a.created_at) × (keep (is_after a.created_at) rows ≡ l)
keep-is_after seen [] a l asc h = cc
keep-is_after seen (b ∷ rows) a l (later, asc) h = elim (Bool-cases (is_after seen b)) [
  | inl e ↦
      let lt : seen < b.created_at = ground arith in
      let past : is_after b.created_at b ≡ false = ground arith in
      let all =
        keep-All (is_after seen) rows
          (All-is_after seen b.created_at rows (omega (arith, lt)) later) in
      let (same, rest) = cons_injective b a (keep (is_after seen) rows) l (simp e at h) in
      let left : keep (is_after b.created_at) (b ∷ rows) ≡ l =
        simp past (keep-All (is_after b.created_at) rows later ∙ sym all ∙ rest) in
      subst (λ c. (seen < c.created_at) × (keep (is_after c.created_at) (b ∷ rows) ≡ l)) same
        (lt, left)
  | inr e ↦
      let (lt, left) = keep-is_after seen rows a l asc (simp e at h) in
      let old : is_after a.created_at b ≡ false = ground arith in (lt, simp old left)
]

abbrev pub IsEvent : LogRow → Type 0
IsEvent row = starts_with (codes "evt_") row.id ≡ true

publish-ok :
    (e : SseEvent) (b : Broker)
    → starts_with (codes "evt_") e.id ≡ true
    → (b' : Broker) × (publish e b ≡ ok b')
unfolding publish
publish-ok e b h = simp h (_, refl)

abbrev pub publish_all : List SseEvent → Broker → Result SseError Broker
publish_all [] b = ok b
publish_all (e ∷ es) b = publish e b >>= publish_all es

publish_all-append :
    (es fs : List SseEvent) (b b' : Broker)
    → publish_all es b ≡ ok b'
    → publish_all (es ++ fs) b ≡ publish_all fs b'
publish_all-append [] fs b b' h = ap (publish_all fs) (ok_injective b b' h)
publish_all-append (e ∷ es) fs b b' h =
    let (c, first, rest) = >>=-eq-ok (publish e b) (publish_all es) h in
    ap (λ r. r >>= publish_all (es ++ fs)) first ∙ publish_all-append es fs c b' rest

module _ (date_of : ℕ → ℕ) where
  -- The driver's Date of the row's time is that time.
  abbrev pub IsExact : LogRow → Type 0
  IsExact row = date_of row.created_at ≡ row.created_at

  abbrev pub published : Tailer → List LogRow → List SseEvent
  published t rows = map (event_of date_of t) rows

  -- One poll over the first k of the rows that are due.
  deliver-take :
      (k : ℕ) (t : Tailer) (rows q : List LogRow)
      → IsAscending rows
      → keep (is_after t.last_seen) rows ≡ q
      → All IsExact q
      → All IsEvent q
      → (b : Broker) × (seen : ℕ) × (deliver date_of (take k q) t
          ≡ (record t { last_seen = seen; broker = b }, ok tt))
        × (publish_all (published t (take k q)) t.broker ≡ ok b)
        × (keep (is_after seen) rows ≡ drop k q)
  unfolding deliver event_of
  deliver-take zero t rows q asc due exact events = (t.broker, t.last_seen, refl, refl, due)
  deliver-take (suc k) t rows [] asc due exact events = (t.broker, t.last_seen, refl, refl, due)
  deliver-take (suc k) t rows (a ∷ q) asc due (exact, exacts) (event, events) =
      let (b, done) = publish-ok (event_of date_of t a) t.broker event in
      let (_, left) = keep-is_after t.last_seen rows a q asc due in
      let t1 : Tailer = record t { last_seen = date_of a.created_at; broker = b } in
      let due1 : keep (is_after t1.last_seen) rows ≡ q =
        ap (λ n. keep (is_after n) rows) exact ∙ left in
      let (b', seen, ran, sent, rest) = deliver-take k t1 rows q asc due1 exacts events in
      let after : Result SseError Broker → Tailer × Result PollError (Unit {0}) = λ r. elim r [
        | err e ↦ (record t { last_seen = date_of a.created_at }, err (PollError.publishing e))
        | ok c ↦
            deliver date_of (take k q) (record t { last_seen = date_of a.created_at; broker = c })
      ] in
      (
        b',
        seen,
        ap after done ∙ ran,
        ap (λ r. r >>= publish_all (published t (take k q))) done ∙ sent,
        rest,
      )

  abbrev pub ticks : ℕ → List LogRow → Tailer → Tailer
  ticks zero log t = t
  ticks (suc n) log t = ticks n log (tick date_of true log t)

  tick-deliver :
      (log : List LogRow) (t t' : Tailer) (q : List LogRow) (r : Result PollError (Unit {0}))
      → t.stopped ≡ false
      → keep (is_after t.last_seen) (mine_of log t) ≡ q
      → deliver date_of (take 512 q) t ≡ (t', r)
      → tick date_of true log t ≡ t'
  unfolding tick poll_once
  tick-deliver log t t' q r run due ran =
      let same : pending log t ≡ q = pending-mine_of log t ∙ due in
      simp run (ap (λ l. (deliver date_of (take 512 l) t).0) same ∙ ap (λ x. x.0) ran)

  ticks-due :
      (n : ℕ) (log : List LogRow) (t : Tailer) (q : List LogRow)
      → t.stopped ≡ false
      → IsAscending (mine_of log t)
      → keep (is_after t.last_seen) (mine_of log t) ≡ q
      → All IsExact q
      → All IsEvent q
      → length q ≤ 512 * n
      → (publish_all (published t q) t.broker ≡ ok (ticks n log t).broker)
        × (keep (is_after (ticks n log t).last_seen) (mine_of log (ticks n log t)) ≡ [])
  unfolding event_of is_mine
  ticks-due zero log t [] run asc due exact events fits = (refl, due)
  ticks-due zero log t (a ∷ q) run asc due exact events fits = absurd (omega arith)
  ticks-due (suc n) log t q run asc due exact events fits =
      let (b, seen, ran, sent, rest) = deliver-take 512 t (mine_of log t) q asc due exact events in
      let t1 : Tailer = record t { last_seen = seen; broker = b } in
      let e = tick-deliver log t t1 q (ok tt) run due ran in
      let (sent1, none_left) =
        ticks-due n log t1 (drop 512 q) run asc rest (All-drop IsExact 512 q exact)
          (All-drop IsEvent 512 q events) (omega (arith, length-drop 512 q)) in
      (
        sym (ap (λ l. publish_all (published t l) t.broker) (append-take-drop 512 q))
            ∙ ap (λ es. publish_all es t.broker)
                (map-append (event_of date_of t) (take 512 q) (drop 512 q))
            ∙ publish_all-append (published t (take 512 q)) (published t (drop 512 q)) t.broker b
                sent
            ∙ sent1
            ∙ ap (λ u. ok (ticks n log u).broker) (sym e),
        subst (λ u. keep (is_after (ticks n log u).last_seen) (mine_of log (ticks n log u)) ≡ [])
            (sym e) none_left,
      )

  -- If a running tailer polls a log that does not grow, n times with the database answering, and at most
  -- 512 n of its rows are due, then the broker is as after publishing the due rows once each, in the
  -- order of their times, and no row is due any more. Conditions: the tailer's rows have identifiers that
  -- start with evt_, times that differ, and times that the driver's Date keeps exactly.
  pub ticks-publish_all :
      (n : ℕ) (log : List LogRow) (t : Tailer)
      → t.stopped ≡ false
      → IsAscending (mine_of log t)
      → All IsExact (mine_of log t)
      → All IsEvent (mine_of log t)
      → length (pending log t) ≤ 512 * n
      → (publish_all (published t (pending log t)) t.broker ≡ ok (ticks n log t).broker)
        × (pending log (ticks n log t) ≡ [])
  ticks-publish_all n log t run asc exact events fits =
      let due = pending-mine_of log t in
      let kept = All-keep IsExact (is_after t.last_seen) (mine_of log t) exact in
      let named = All-keep IsEvent (is_after t.last_seen) (mine_of log t) events in
      let (sent, none_left) =
        ticks-due n log t (pending log t) run asc (sym due) (rw due kept) (rw due named) fits in
      (sent, pending-mine_of log (ticks n log t) ∙ none_left)
