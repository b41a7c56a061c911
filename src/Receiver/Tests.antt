-- ===== src/Receiver/Tests.antt =====
-- Requests to the receiver at concrete inputs, and the theorem at them.
use canton_pillar.Base.{
  ◌≡◌, refl, ℕ, Bool, ◌&&◌, Option, none, some, List, [], ◌∷◌, Text, String, codes, text_eq, length,
  trim_front,
}
use canton_pillar.Idempotency.Canonical.{Json}
use canton_pillar.Receiver.{Incoming, respond}
use canton_pillar.Receiver.Captures.{respond_all, log_of, respond_all-trim_front}

abbrev decode : List ℕ → Text
decode bytes = bytes

abbrev parse : Text → Option Json
parse s = none

abbrev on : String → String → Incoming → Bool
on method path req = text_eq req.method (codes method) && text_eq req.path (codes path)

abbrev ask : String → String → Incoming
ask method path = record {
  method = codes method;
  path = codes path;
  headers = [];
  body = some (codes "{}");
}

abbrev requests : List (ℕ × Incoming)
requests =
    (1, ask "POST" "/capture")
    ∷ (2, ask "DELETE" "/capture")
    ∷ (3, ask "POST" "/capture/a")
    ∷ (4, ask "POST" "/captures")
    ∷ (5, ask "POST" "/capture/b")
    ∷ (6, ask "POST" "/capture/c")
    ∷ []

kept_test : length (respond_all decode parse on 2 requests []) ≡ 2
unfolding respond_all respond
kept_test = refl

respond_all-trim_front_example :
    respond_all decode parse on 2 requests (trim_front 2 [])
    ≡ trim_front 2 (log_of decode parse on requests [])
respond_all-trim_front_example = respond_all-trim_front decode parse on 2 requests []
