-- ===== src/Usage/Consumption.antt =====
-- What the consumer keeps of events that are delivered several times.
use canton_pillar.Base.{
  ◌≡◌, refl, ap, sym, ◌∙◌, Bool, true, false, ◌&&◌, ◌||◌, List, [], ◌∷◌, ◌++◌, map, Text, text_eq,
  text_eq_sound, text_eq_comm, any, arith, Bool-cases, inl, inr,
}
use canton_pillar.Usage.{UsageEnvelope, Consumer, known_meters, dedupe_of, consume}

unfoldable pub consume_all : List UsageEnvelope → Consumer → Consumer
consume_all [] c = c
consume_all (e ∷ es) c = consume_all es (consume e c).0

abbrev pub empty_consumer : Consumer
empty_consumer = record { seen = []; rows = [] }

abbrev pub AreDistinct : List Text → Type 0
AreDistinct [] = Unit
AreDistinct (k ∷ ks) = (any (text_eq k) ks ≡ false) × AreDistinct ks

abbrev pub is_metered : UsageEnvelope → Bool
is_metered e = any (text_eq e.meter) known_meters

-- An event with this key was delivered, for a known meter.
abbrev pub was_delivered : Text → List UsageEnvelope → Bool
was_delivered k = any (λ e. is_metered e && text_eq k (dedupe_of e))

any-push :
    (k x : Text) (ks : List Text)
    → any (text_eq k) (ks ++ x ∷ []) ≡ (any (text_eq k) ks || text_eq k x)
any-push k x [] = ground arith
any-push k x (y ∷ ks) = ground (arith, any-push k x ks)

AreDistinct-push :
    (x : Text) (ks : List Text)
    → any (text_eq x) ks ≡ false
    → AreDistinct ks
    → AreDistinct (ks ++ x ∷ [])
AreDistinct-push x [] h d = (refl, tt)
AreDistinct-push x (y ∷ ks) h (p, d) =
    (ground (arith, any-push y x ks, text_eq_comm x y), AreDistinct-push x ks (ground arith) d)

map-push :
    (rows : List UsageEnvelope) (e : UsageEnvelope)
    → map dedupe_of (rows ++ e ∷ []) ≡ map dedupe_of rows ++ dedupe_of e ∷ []
map-push [] e = refl
map-push (r ∷ rows) e = ap (λ l. dedupe_of r ∷ l) (map-push rows e)

-- The set `seen` holds the keys of the rows, each once.
pub record IsExact (c : Consumer) : Type 0 where
  pub keys : c.seen ≡ map dedupe_of c.rows
  pub distinct : AreDistinct c.seen

-- What one event does, in its three cases.
consume-effect :
    (e : UsageEnvelope) (c : Consumer)
    → IsExact c
    → IsExact (consume e c).0
      × ((k : Text)
          → any (text_eq k) (consume e c).0.seen
            ≡ (any (text_eq k) c.seen || (is_metered e && text_eq k (dedupe_of e))))
unfolding consume
consume-effect e c v = elim (Bool-cases (is_metered e)) [
  | inr strange ↦ simp strange (v, λ k. ground arith)
  | inl metered ↦ elim (Bool-cases (any (text_eq (dedupe_of e)) c.seen)) [
    | inl again ↦ simp (metered, again) (v, λ k. absorbed k again)
    | inr fresh ↦
        simp (metered, fresh)
          (
            record {
              keys = ap (λ l. l ++ dedupe_of e ∷ []) v.keys ∙ sym (map-push c.rows e);
              distinct = AreDistinct-push (dedupe_of e) c.seen fresh v.distinct;
            },
            λ k. any-push k (dedupe_of e) c.seen,
          )
  ]
]
  where
    absorbed :
        (k : Text)
        → any (text_eq (dedupe_of e)) c.seen ≡ true
        → any (text_eq k) c.seen ≡ (any (text_eq k) c.seen || text_eq k (dedupe_of e))
    absorbed k again = elim (Bool-cases (text_eq k (dedupe_of e))) [
      | inl same ↦
          let here : any (text_eq k) c.seen ≡ true =
            ap (λ x. any (text_eq x) c.seen) (text_eq_sound k (dedupe_of e) same) ∙ again in
          simp (here, same)
      | inr other ↦ simp other (ground arith)
    ]

consume_all-effect :
    (es : List UsageEnvelope) (c : Consumer)
    → IsExact c
    → IsExact (consume_all es c)
      × ((k : Text)
          → any (text_eq k) (consume_all es c).seen
            ≡ (any (text_eq k) c.seen || was_delivered k es))
unfolding consume_all
consume_all-effect [] c v = (v, λ k. ground arith)
consume_all-effect (e ∷ es) c v =
    let (v', one) = consume-effect e c v in
    let (last, more) = consume_all-effect es (consume e c).0 v' in
    (last, λ k. more k ∙ ap (λ b. b || was_delivered k es) (one k) ∙ ground arith)

-- After any deliveries to a new consumer, the rows have distinct keys of tenant and event, and a key
-- is there exactly if an event with it was delivered for a known meter.
pub consume_all-IsExact :
    (es : List UsageEnvelope) (k : Text)
    → IsExact (consume_all es empty_consumer)
      × (any (text_eq k) (map dedupe_of (consume_all es empty_consumer).rows) ≡ was_delivered k es)
consume_all-IsExact es k =
    let (v, all) = consume_all-effect es empty_consumer (record { keys = refl; distinct = tt }) in
    (v, ap (any (text_eq k)) (sym v.keys) ∙ all k)
