-- ===== src/Idempotency/Canonical/Print.antt =====
-- `JSON.stringify` on a JSON value, over code units; texts hold no lone surrogate.
use canton_pillar.Base.{
  ◌≡◌, refl, ℕ, ◌+◌, ◌/◌, ◌%◌, true, false, [], ◌∷◌, ◌++◌, Text, if◌then◌else◌, ltb, ◌==◌, codes,
}
use canton_pillar.Idempotency.Canonical.{
  Json, null, bool, num, str, arr, obj, Items, nil, cons, Fields, end, field,
}

abbrev hex_digit : ℕ → ℕ
hex_digit n = if ltb n 10 then b'0' + n else 87 + n

abbrev escape_unit : ℕ → Text
escape_unit c =
    if c == b'"'
    then codes "\\\""
    else if c == 92
    then codes "\\\\"
    else if c == 8
    then codes "\\b"
    else if c == 9
    then codes "\\t"
    else if c == 10
    then codes "\\n"
    else if c == 12
    then codes "\\f"
    else if c == 13
    then codes "\\r"
    else if ltb c 32
    then codes "\\u00" ++ hex_digit (c / 16) ∷ hex_digit (c % 16) ∷ []
    else c ∷ []

unfoldable pub escape : Text → Text
escape [] = []
escape (c ∷ s) = escape_unit c ++ escape s

unfoldable pub quote : Text → Text
unfolding escape
quote s = b'"' ∷ (escape s ++ b'"' ∷ [])

unfoldable mutual
  pub stringify : Json → Text
  stringify null = codes "null"
  stringify (bool true) = codes "true"
  stringify (bool false) = codes "false"
  stringify (num n) = n
  stringify (str s) = quote s
  stringify (arr xs) = b'[' ∷ (stringify_items xs ++ b']' ∷ [])
  stringify (obj fs) = b'{' ∷ (stringify_fields fs ++ b'}' ∷ [])

  pub stringify_items : Items → Text
  stringify_items nil = []
  stringify_items (cons j nil) = stringify j
  stringify_items (cons j (cons k xs)) = stringify j ++ b',' ∷ stringify_items (cons k xs)

  pub stringify_fields : Fields → Text
  stringify_fields end = []
  stringify_fields (field key j end) = quote key ++ b':' ∷ stringify j
  stringify_fields (field key j (field l k fs)) =
      quote key ++ b':' ∷ (stringify j ++ b',' ∷ stringify_fields (field l k fs))

print_test :
    stringify (
      obj (
        field
          (codes "a\"b")
          (arr (cons (num (codes "1")) (cons null nil)))
          (field (codes "c") (bool true) end)))
    ≡ codes "{\"a\\\"b\":[1,null],\"c\":true}"
unfolding stringify quote
print_test = refl
