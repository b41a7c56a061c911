-- ===== src/Receiver.antt =====
-- apps/webhook-receiver/src/server.ts: the express application. `parse` is JSON.parse, which may throw,
-- `decode` what Buffer.toString makes of the bytes of a body, and `on method path` how express matches
-- a request with a route that is no regular expression; the clock is an argument.
pub mod Captures
mod Tests
use canton_pillar.Base.{
  ◌≡◌, refl, ℕ, ◌-◌, ◌+◌, Bool, true, false, ◌||◌, ◌&&◌, not, Option, none, some, List, [], ◌∷◌,
  ◌++◌, Text, String, if◌then◌else◌, codes, text_eq, starts_with, length, ltb, trim_front, or_else,
}
use canton_pillar.Idempotency.Canonical.{Json}

pub record CapturedRequest : Type 0 where
  pub received_at : ℕ
  pub method : Text
  pub path : Text
  pub headers : List (Text × List Text)
  pub body_raw : Text
  pub body_json : Option Json

-- `body` is the buffer of express.raw, if there was a body.
pub record Incoming : Type 0 where
  pub method : Text
  pub path : Text
  pub headers : List (Text × List Text)
  pub body : Option (List ℕ)

pub data Response : Type 0 where
  health : (captured capacity : ℕ) → Response
  items : (count : ℕ) → List CapturedRequest → Response
  cleared : Response
  accepted : (index : ℕ) → Response
  not_found : (path : Text) → Response
  payload_too_large : Response

-- The limit of express.raw, `5mb`; a larger body is answered by express before any route.
abbrev pub body_limit : ℕ
body_limit = 5242880

abbrev pub is_too_large : Option (List ℕ) → Bool
is_too_large none = false
is_too_large (some bytes) = ltb body_limit (length bytes)

abbrev pub raw_of : (List ℕ → Text) → Option (List ℕ) → Text
raw_of decode none = []
raw_of decode (some bytes) = decode bytes

-- `null` for an empty body and for one that is no JSON.
abbrev pub body_json_of : (Text → Option Json) → Text → Option Json
body_json_of parse [] = none
body_json_of parse (c ∷ s) = parse (c ∷ s)

-- `/^\/capture(\/.*)?$/`; a path holds no line terminator.
abbrev pub is_capture_path : Text → Bool
is_capture_path path = text_eq path (codes "/capture") || starts_with (codes "/capture/") path

module _ (decode : List ℕ → Text) (parse : Text → Option Json) where
  unfoldable pub entry_of : ℕ → Incoming → CapturedRequest
  entry_of now req =
      let raw = raw_of decode req.body in
      record {
        received_at = now;
        method = req.method;
        path = req.path;
        headers = req.headers;
        body_raw = raw;
        body_json = body_json_of parse raw;
      }

  module _ (capacity : ℕ) where
    -- `captureHandler`: an empty buffer after the shifts gives the index -1 of a capacity of 0, which is
    -- 0 here.
    unfoldable pub capture : ℕ → Incoming → List CapturedRequest → List CapturedRequest × Response
    unfolding entry_of
    capture now req captured =
        let kept = trim_front capacity (captured ++ entry_of now req ∷ []) in
        (kept, accepted (length kept - 1))

    -- The routes in their order.
    unfoldable pub respond :
        (String → String → Incoming → Bool)
        → ℕ
        → Incoming
        → List CapturedRequest
        → List CapturedRequest × Response
    unfolding capture
    respond on now req captured =
        if is_too_large req.body
        then (captured, payload_too_large)
        else if on "GET" "/health" req
        then (captured, health (length captured) capacity)
        else if on "GET" "/capture" req
        then (captured, items (length captured) captured)
        else if on "DELETE" "/capture" req
        then ([], cleared)
        else if text_eq req.method (codes "POST") && is_capture_path req.path
        then capture now req captured
        else (captured, not_found req.path)
