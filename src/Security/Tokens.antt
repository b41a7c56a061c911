-- ===== src/Security/Tokens.antt =====
-- The parts of a token, `const [h, p, s] = token.split('.')`, as both verifications read them.
use canton_pillar.Base.{Option, none, some, List, ◌∷◌, ◌++◌, Text, split, Result, ok, err}

pub record Parts : Type 0 where
  pub header : Text
  pub payload : Text
  pub signature : Text

-- A part that is missing or empty fails the test; further parts are not read.
abbrev pub three : List Text → Option Parts
three ((h ∷ hs) ∷ (p ∷ ps) ∷ (s ∷ ss) ∷ rest) =
    some (record { header = h ∷ hs; payload = p ∷ ps; signature = s ∷ ss })
three parts = none

abbrev pub parts_of : Text → Option Parts
parts_of token = three (split b'.' token)

abbrev pub signed_text : Parts → Text
signed_text parts = parts.header ++ b'.' ∷ parts.payload

-- A value that may be missing, or an error.
abbrev pub or_err : {E A : Type 0} → E → Option A → Result E A
or_err e none = err e
or_err e (some a) = ok a
