-- ===== src/Receiver/Captures.antt =====
-- What the buffer holds after any requests.
use canton_pillar.Base.{
  ◌≡◌, refl, ap, ◌∙◌, ℕ, Bool, true, ◌&&◌, ◌||◌, Option, List, [], ◌∷◌, ◌++◌, Text, String,
  if◌then◌else◌, codes, text_eq, length, length-append, ltb, trim_front, arith, Bool-cases, inl,
  inr,
}
use canton_pillar.Idempotency.Canonical.{Json}
use canton_pillar.Receiver.{
  CapturedRequest, Incoming, is_too_large, is_capture_path, entry_of, capture, respond,
}

trim_front-push {ℓ} :
    {A : Type ℓ} (cap : ℕ) (x : A) (l : List A)
    → trim_front cap (trim_front cap l ++ x ∷ []) ≡ trim_front cap (l ++ x ∷ [])
trim_front-push cap x [] = refl
trim_front-push cap x (y ∷ l) = elim (Bool-cases (ltb cap (length (y ∷ l)))) [
  | inl over ↦
      let longer : ltb cap (length (y ∷ (l ++ x ∷ []))) ≡ true =
        ground (arith, length-append l (x ∷ [])) in
      simp (over, longer) (trim_front-push cap x l)
  | inr fits ↦ simp fits
]

-- What a request adds, when nothing is thrown away: an independent account of what was captured.
module _ (decode : List ℕ → Text) (parse : Text → Option Json)
    (on : String → String → Incoming → Bool) where
  unfoldable pub record_of : ℕ → Incoming → List CapturedRequest → List CapturedRequest
  record_of now req log =
      if is_too_large req.body || on "GET" "/health" req || on "GET" "/capture" req
      then log
      else if on "DELETE" "/capture" req
      then []
      else if text_eq req.method (codes "POST") && is_capture_path req.path
      then log ++ entry_of decode parse now req ∷ []
      else log

  unfoldable pub log_of : List (ℕ × Incoming) → List CapturedRequest → List CapturedRequest
  unfolding record_of
  log_of [] log = log
  log_of ((now, req) ∷ rs) log = log_of rs (record_of now req log)

  unfoldable pub respond_all : ℕ → List (ℕ × Incoming) → List CapturedRequest → List CapturedRequest
  respond_all capacity [] captured = captured
  respond_all capacity ((now, req) ∷ rs) captured =
      respond_all capacity rs (respond decode parse capacity on now req captured).0

  respond-trim_front :
      (capacity now : ℕ) (req : Incoming) (log : List CapturedRequest)
      → (respond decode parse capacity on now req (trim_front capacity log)).0
        ≡ trim_front capacity (record_of now req log)
  unfolding respond capture record_of
  respond-trim_front capacity now req log =
      ground (arith, trim_front-push capacity (entry_of decode parse now req) log)

-- After any requests the buffer holds the newest captures since the last deletion, in their order and
-- as many as the capacity allows; a request whose body is over the limit is not captured and deletes
-- nothing.
pub respond_all-trim_front :
    (decode : List ℕ → Text) (parse : Text → Option Json) (on : String → String → Incoming → Bool)
    (capacity : ℕ) (rs : List (ℕ × Incoming)) (log : List CapturedRequest)
    → respond_all decode parse on capacity rs (trim_front capacity log)
      ≡ trim_front capacity (log_of decode parse on rs log)
unfolding respond_all log_of
respond_all-trim_front decode parse on capacity [] log = refl
respond_all-trim_front decode parse on capacity ((now, req) ∷ rs) log =
    ap (respond_all decode parse on capacity rs)
      (respond-trim_front decode parse on capacity now req log)
    ∙ respond_all-trim_front decode parse on capacity rs (record_of decode parse on now req log)
