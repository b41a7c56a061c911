-- ===== src/Web/Generate.antt =====
-- apps/web/src/app/get-api-keys/GetApiKeysPageClient.tsx: the mock keys and their identifiers. A call
-- of `Math.floor(Math.random() * n)` is a parameter of the number of the call and of n. JavaScript's
-- negative zero is zero here, which indexes and adds alike.
pub mod Keys
use canton_pillar.Base.{
  ◌≡◌, refl, ap, ◌∙◌, ℕ, zero, suc, ◌+◌, ◌-◌, ◌*◌, ◌%◌, ◌<◌, ◌≤◌, Bool, true, false, List, [], ◌∷◌,
  ◌++◌, Text, String, codes, Option, none, some, length, drop, or_else, ltb, leb, if◌then◌else◌,
  arith, Bool-cases, inl, inr, All, All-append, length-append,
}

-- Numbers with a sign, over the native ones.
pub data ℤ : Type 0 where
  pos negsuc : ℕ → ℤ

-- `-n`.
abbrev pub neg : ℕ → ℤ
neg zero = pos 0
neg (suc n) = negsuc n

-- `n & 0xffffffff` on a number of 53 bits: its low 32 bits, with the sign of the highest.
unfoldable pub to_int32 : ℕ → ℤ
to_int32 n =
    let low = n % 4294967296 in if ltb low 2147483648 then pos low else negsuc (4294967295 - low)

-- `(seed * 48271 + 1013904223) % 0x7fffffff`, where `%` keeps the sign of what it divides.
unfoldable pub next_seed : ℤ → ℤ
next_seed (pos s) = pos ((s * 48271 + 1013904223) % 2147483647)
next_seed (negsuc s) =
    let down = suc s * 48271 in
    if leb down 1013904223
    then pos ((1013904223 - down) % 2147483647)
    else neg ((down - 1013904223) % 2147483647)

abbrev pub ulid_alphabet : Text
ulid_alphabet = codes "0123456789ABCDEFGHJKMNPQRSTVWXYZ"

-- `text[i]` added to a text: the unit, or the word `undefined`.
abbrev pub char_at : Text → ℕ → Option ℕ
char_at [] i = none
char_at (c ∷ s) zero = some c
char_at (c ∷ s) (suc i) = char_at s i

abbrev pub appended : Option ℕ → Text
appended none = codes "undefined"
appended (some c) = c ∷ []

-- `ulid_alphabet[seed % ulid_alphabet.length]`: a negative index finds nothing.
unfoldable pub ulid_char : ℤ → Text
ulid_char (pos s) = appended (char_at ulid_alphabet (s % 32))
ulid_char (negsuc s) = elim (suc s % 32) [
  | zero ↦ appended (char_at ulid_alphabet 0)
  | suc i ↦ appended none
]

ulid_loop : ℕ → ℤ → Text
unfolding next_seed ulid_char
ulid_loop zero seed = []
ulid_loop (suc n) seed = ulid_char (next_seed seed) ++ ulid_loop n (next_seed seed)

unfoldable pub generate_mock_ulid : ℕ → ℕ → Text
unfolding to_int32 ulid_loop
generate_mock_ulid now random = ulid_loop 26 (to_int32 (now + random))

abbrev pub body_chars : Text
body_chars = codes "0123456789abcdefghijklmnopqrstuvwxyzABCDEFGHIJKLMNOPQRSTUVWXYZ"

-- The loop's `random` numbers the calls that are left.
unfoldable pub generate_random_body : (ℕ → ℕ → ℕ) → ℕ → Text
generate_random_body random zero = []
generate_random_body random (suc n) =
    appended (char_at body_chars (random n (length body_chars))) ++ generate_random_body random n

pub data ApiPrefix : Type 0 where
  secret_test restricted_test publishable_test : ApiPrefix

-- The field `status` has one value, `active`.
pub record MockApiKey : Type 0 where
  pub id : Text
  pub name : String
  pub prefix : ApiPrefix
  pub value : Text
  pub last4 : Text
  pub scopes : List String

-- `s.slice(-4)`.
abbrev pub last_four : Text → Text
last_four s = drop (length s - 4) s

-- What the calls of `Date.now` and `Math.random` give while the keys are made.
pub record Draws : Type 0 where
  pub now : ApiPrefix → ℕ
  pub random_id : ApiPrefix → ℕ
  pub random_body : ApiPrefix → ℕ → ℕ → ℕ

abbrev key_body_length : ℕ
key_body_length = 32

abbrev pub value_prefix : ApiPrefix → Text
value_prefix secret_test = codes "plr_sk_test_"
value_prefix restricted_test = codes "plr_rk_test_"
value_prefix publishable_test = codes "plr_pk_test_"

abbrev key_of : Draws → ApiPrefix → String → List String → MockApiKey
key_of draws p name scopes =
    let body = generate_random_body (draws.random_body p) key_body_length in
    record {
      id = codes "ak_" ++ generate_mock_ulid (draws.now p) (draws.random_id p);
      name = name;
      prefix = p;
      value = value_prefix p ++ body;
      last4 = last_four body;
      scopes = scopes;
    }

unfoldable pub create_mock_keys : Draws → List MockApiKey
create_mock_keys draws =
    key_of draws secret_test "Secret test key" ("accounts:read" ∷ "intents:write" ∷ [])
    ∷ key_of draws restricted_test "Restricted test key" ("accounts:read" ∷ [])
    ∷ key_of draws publishable_test "Publishable test key" ("assets:read" ∷ [])
    ∷ []
