-- ===== src/Api/Sse/Delivery.antt =====
-- What a subscriber that does not read is given by a sequence of events.
use canton_pillar.Base.{
  ◌≡◌, refl, ap, sym, ◌∙◌, inl, inr, ℕ, ◌≤◌, ◌<◌, true, false, List, [], ◌∷◌, ◌++◌, keep, length,
  length-append, leb, ltb, rest_of, trim_front, trim_front-fits, length-trim_front, arith,
  Bool-cases,
}
use mathlib.Core.List.{append_assoc, append-nil}
use canton_pillar.Api.Sse.{SseEvent, Subscriber, accepts, enqueue, offer}

trim_front-trim_front :
    (cap : ℕ) (xs ys : List SseEvent)
    → trim_front cap (trim_front cap xs ++ ys) ≡ trim_front cap (xs ++ ys)
trim_front-trim_front cap [] ys = refl
trim_front-trim_front cap (x ∷ xs) ys = elim (Bool-cases (ltb cap (length (x ∷ xs)))) [
  | inl over ↦
      let still : ltb cap (length (x ∷ xs ++ ys)) ≡ true = ground (arith, length-append xs ys) in
      simp (over, still) (trim_front-trim_front cap xs ys)
  | inr fits ↦ simp fits
]

trim_front-push :
    (cap : ℕ) (q : List SseEvent) (e : SseEvent)
    → leb cap (length q) ≡ true
    → length q ≤ cap
    → 0 < cap
    → rest_of q ++ e ∷ [] ≡ trim_front cap (q ++ e ∷ [])
trim_front-push cap [] e full le pos = absurd (ground arith)
trim_front-push cap (d ∷ q) e full le pos =
    let over : ltb cap (length (d ∷ q ++ e ∷ [])) ≡ true =
      ground (arith, length-append q (e ∷ [])) in
    simp over (sym (trim_front-fits cap (q ++ e ∷ []) (omega (arith, length-append q (e ∷ [])))))

-- The fields by which a subscriber accepts events stay.
accepts-enqueue :
    (cap : ℕ) (d e : SseEvent) (s : Subscriber) → accepts e (enqueue cap d s) ≡ accepts e s
unfolding accepts enqueue
accepts-enqueue cap d e s = ground arith

keep-accepts-enqueue :
    (cap : ℕ) (d : SseEvent) (s : Subscriber) (es : List SseEvent)
    → keep (λ e. accepts e (enqueue cap d s)) es ≡ keep (λ e. accepts e s) es
keep-accepts-enqueue cap d s [] = refl
keep-accepts-enqueue cap d s (e ∷ es) =
    simp (accepts-enqueue cap d e s, keep-accepts-enqueue cap d s es)

enqueue-queue :
    (cap : ℕ) (e : SseEvent) (s : Subscriber)
    → 0 < cap
    → length s.queue ≤ cap
    → (enqueue cap e s).queue ≡ trim_front cap (s.queue ++ e ∷ [])
unfolding enqueue
enqueue-queue cap e s pos le = elim (Bool-cases (leb cap (length s.queue))) [
  | inl full ↦ simp full (trim_front-push cap s.queue e full le pos)
  | inr room ↦ simp room (
      sym
        (trim_front-fits cap (s.queue ++ e ∷ []) (ground (arith, length-append s.queue (e ∷ [])))))
]

-- Published one after another.
abbrev pub offer_all : ℕ → List SseEvent → Subscriber → Subscriber
offer_all cap [] s = s
offer_all cap (e ∷ es) s = offer_all cap es (offer cap e s)

-- A subscriber whose queue fits, and that does not read, holds after any events the last of what it
-- held and of the events that it accepts, in their order, as many as the capacity allows.
pub offer_all-trim_front :
    (cap : ℕ) (es : List SseEvent) (s : Subscriber)
    → 0 < cap
    → length s.queue ≤ cap
    → (offer_all cap es s).queue ≡ trim_front cap (s.queue ++ keep (λ e. accepts e s) es)
unfolding offer
offer_all-trim_front cap [] s pos le =
    sym (ap (trim_front cap) (append-nil s.queue) ∙ trim_front-fits cap s.queue le)
offer_all-trim_front cap (e ∷ es) s pos le = elim (Bool-cases (accepts e s)) [
  | inl taken ↦
      let s' = enqueue cap e s in
      let q = enqueue-queue cap e s pos le in
      let short : length s'.queue ≤ cap =
        omega (arith, ap length q, length-trim_front cap (s.queue ++ e ∷ [])) in
      simp taken (
        offer_all-trim_front cap es s' pos short
        ∙ ap (λ l. trim_front cap (s'.queue ++ l)) (keep-accepts-enqueue cap e s es)
        ∙ ap (λ l. trim_front cap (l ++ keep (λ x. accepts x s) es)) q
        ∙ trim_front-trim_front cap (s.queue ++ e ∷ []) (keep (λ x. accepts x s) es)
        ∙ ap (trim_front cap) (append_assoc s.queue (e ∷ []) (keep (λ x. accepts x s) es)))
  | inr left ↦ simp left (offer_all-trim_front cap es s pos le)
]

calm_before :
    (cap : ℕ) (es : List SseEvent) (s : Subscriber)
    → (offer_all cap es s).overflowed ≡ false
    → s.overflowed ≡ false
unfolding offer enqueue
calm_before cap [] s h = h
calm_before cap (e ∷ es) s h = ground (arith, calm_before cap es (offer cap e s) h)

enqueue-overflowed :
    (cap : ℕ) (e : SseEvent) (s : Subscriber)
    → (enqueue cap e s).overflowed ≡ false
    → (enqueue cap e s).queue ≡ s.queue ++ e ∷ []
unfolding enqueue
enqueue-overflowed cap e s h = ground arith

-- Where no overflow notice is to come, nothing was lost: the queue is what it was, followed by every
-- accepted event in order.
pub offer_all_complete :
    (cap : ℕ) (es : List SseEvent) (s : Subscriber)
    → (offer_all cap es s).overflowed ≡ false
    → (offer_all cap es s).queue ≡ s.queue ++ keep (λ e. accepts e s) es
unfolding offer
offer_all_complete cap [] s h = sym (append-nil s.queue)
offer_all_complete cap (e ∷ es) s h = elim (Bool-cases (accepts e s)) [
  | inl taken ↦
      let s' = enqueue cap e s in
      let h' : (offer_all cap es s').overflowed ≡ false = simp taken at h in
      simp taken (
        offer_all_complete cap es s' h'
        ∙ ap (λ l. s'.queue ++ l) (keep-accepts-enqueue cap e s es)
        ∙ ap (λ l. l ++ keep (λ x. accepts x s) es)
            (enqueue-overflowed cap e s (calm_before cap es s' h'))
        ∙ append_assoc s.queue (e ∷ []) (keep (λ x. accepts x s) es))
  | inr left ↦ simp left (offer_all_complete cap es s (simp left at h))
]
