-- ===== src/Usage/Reconciliation.antt =====
-- Rollups that are rebuilt from the events, and their reconciliation with them.
use canton_pillar.Base.{
  ◌≡◌, refl, ap, ◌∙◌, ◌⊎◌, inl, inr, Bool, true, false, some, List, [], ◌∷◌, map, Text, ok,
  Bool-cases, All, text_eq, if◌then◌else◌,
}
use canton_pillar.Base.Sorting.{sort, insert}
use canton_pillar.Usage.Quantity.{
  ℤ, pos, ◌+ℤ◌, eq_ℤ_refl, big_int, big_text, big_int-big_text, int_laws,
}
use canton_pillar.Usage.{
  UsageEnvelope, Group, Rollup, rollup_key, add_event, group_events, rollup_of, rebuild_rollup,
  raw_total, roll_total, compare_totals, block_monthly_close,
}

-- The quantity of a billable event is the text of an integer, as BigInt reads it.
abbrev pub IsCounted : UsageEnvelope → Type 0
IsCounted e = (e.billable ≡ false) ⊎ (q : ℤ) × (big_int e.quantity ≡ some q)

-- The sum of the quantities of the billable events, in an order of its own.
abbrev pub sum_of : (es : List UsageEnvelope) → All IsCounted es → ℤ
sum_of [] h = pos 0
sum_of (e ∷ es) (inl free, hs) = sum_of es hs
sum_of (e ∷ es) (inr (q, read), hs) = if e.billable then sum_of es hs +ℤ q else sum_of es hs

abbrev total : List Group → ℤ
total [] = pos 0
total (g ∷ gs) = total gs +ℤ g.quantity

total-add_event :
    (k : Text) (e : UsageEnvelope) (q : ℤ) (gs : List Group)
    → total (add_event k e q gs) ≡ total gs +ℤ q
unfolding add_event
total-add_event k e q [] = omega int_laws
total-add_event k e q (g ∷ gs) = elim (Bool-cases (text_eq g.key k)) [
  | inl same ↦ simp same (omega int_laws)
  | inr other ↦ simp other (ap (λ n. n +ℤ g.quantity) (total-add_event k e q gs) ∙ omega int_laws)
]

raw_total-sum_of :
    (n : ℤ) (es : List UsageEnvelope) (h : All IsCounted es)
    → raw_total n es ≡ ok (n +ℤ sum_of es h)
unfolding raw_total
raw_total-sum_of n [] h = ap ok (omega int_laws)
raw_total-sum_of n (e ∷ es) (inl free, hs) = simp free (raw_total-sum_of n es hs)
raw_total-sum_of n (e ∷ es) (inr (q, read), hs) = elim (Bool-cases e.billable) [
  | inl b ↦ simp (b, read) (raw_total-sum_of (n +ℤ q) es hs ∙ ap ok (omega int_laws))
  | inr b ↦ simp b (raw_total-sum_of n es hs)
]

group_events-total :
    (granularity start end_ : Text) (es : List UsageEnvelope) (gs : List Group)
    (h : All IsCounted es)
    → (out : List Group) × (group_events granularity start end_ es gs ≡ ok out)
      × (total out ≡ total gs +ℤ sum_of es h)
unfolding group_events
group_events-total granularity start end_ [] gs h = (gs, refl, omega int_laws)
group_events-total granularity start end_ (e ∷ es) gs (inl free, hs) =
    let (out, ran, sum) = group_events-total granularity start end_ es gs hs in
    (out, simp free ran, sum)
group_events-total granularity start end_ (e ∷ es) gs (inr (q, read), hs) =
    let k = rollup_key granularity start end_ e in
    elim (Bool-cases e.billable) [
      | inl b ↦
          let (out, ran, sum) =
            group_events-total granularity start end_ es (add_event k e q gs) hs in
          (
            out,
            simp (b, read) ran,
            simp b (sum ∙ ap (λ n. n +ℤ sum_of es hs) (total-add_event k e q gs) ∙ omega int_laws),
          )
      | inr b ↦
          let (out, ran, sum) = group_events-total granularity start end_ es gs hs in
          (out, simp b ran, simp b sum)
    ]

total-insert :
    (le : Group → Group → Bool) (g : Group) (gs : List Group)
    → total (insert le g gs) ≡ total gs +ℤ g.quantity
total-insert le g [] = refl
total-insert le g (h ∷ gs) = elim (Bool-cases (le g h)) [
  | inl e ↦ simp e
  | inr e ↦ simp e (ap (λ n. n +ℤ h.quantity) (total-insert le g gs) ∙ omega int_laws)
]

total-sort : (le : Group → Group → Bool) (gs : List Group) → total (sort le gs) ≡ total gs
total-sort le [] = refl
total-sort le (g ∷ gs) =
    total-insert le g (sort le gs) ∙ ap (λ n. n +ℤ g.quantity) (total-sort le gs)

roll_total-map :
    (granularity start end_ : Text) (n : ℤ) (gs : List Group)
    → roll_total n (map (rollup_of granularity start end_) gs) ≡ ok (n +ℤ total gs)
unfolding roll_total
roll_total-map granularity start end_ n [] = ap ok (omega int_laws)
roll_total-map granularity start end_ n (g ∷ gs) =
    simp (big_int-big_text g.quantity)
      (roll_total-map granularity start end_ (n +ℤ g.quantity) gs ∙ ap ok (omega int_laws))

-- If the quantity of every billable event is the text of an integer, then the rollups can be rebuilt
-- from the events, for any period, and pass the reconciliation with them: the monthly close is not
-- blocked, and both totals are the sum of the billable quantities.
pub block_monthly_close-rebuild_rollup :
    (compare_le : Text → Text → Bool) (events : List UsageEnvelope) (granularity start end_ : Text)
    (h : All IsCounted events)
    → (rollups : List Rollup) × (rebuild_rollup compare_le events granularity start end_
        ≡ ok rollups)
      × (block_monthly_close events rollups
          ≡ ok (record {
            agrees = true;
            expected = big_text (sum_of events h);
            actual = big_text (sum_of events h);
          }))
unfolding block_monthly_close compare_totals rebuild_rollup
block_monthly_close-rebuild_rollup compare_le events granularity start end_ h =
    let (gs, grouped, sum) = group_events-total granularity start end_ events [] h in
    let le : Group → Group → Bool = λ a b. compare_le a.key b.key in
    let rollups = map (rollup_of granularity start end_) (sort le gs) in
    let raw : raw_total (pos 0) events ≡ ok (sum_of events h) =
      raw_total-sum_of (pos 0) events h ∙ ap ok (omega int_laws) in
    let rolled : roll_total (pos 0) rollups ≡ ok (sum_of events h) =
      roll_total-map granularity start end_ (pos 0) (sort le gs)
      ∙ ap ok (ap (λ n. pos 0 +ℤ n) (total-sort le gs ∙ sum) ∙ omega int_laws) in
    (rollups, simp grouped, simp (raw, rolled, eq_ℤ_refl (sum_of events h)))
