-- ===== src/Idempotency/Decimal.antt =====
-- packages/idempotency/src/canonical-hash.ts: `normalizeDecimal`, over code units, and `trim`.
use canton_pillar.Base.{
  ◌≡◌, refl, ℕ, Bool, true, false, ◌&&◌, ◌||◌, List, [], ◌∷◌, ◌++◌, Text, if◌then◌else◌, leb, ◌==◌,
  is_digit, split, codes, text_eq,
}

-- The white space and line terminators that `trim` takes away.
abbrev pub is_space : ℕ → Bool
is_space c =
    (leb 9 c && leb c 13)
    || (c == 32)
    || (c == 160)
    || (c == 0x1680)
    || (leb 0x2000 c && leb c 0x200a)
    || (c == 0x2028)
    || (c == 0x2029)
    || (c == 0x202f)
    || (c == 0x205f)
    || (c == 0x3000)
    || (c == 0xfeff)

unfoldable pub trim_start : Text → Text
trim_start [] = []
trim_start (c ∷ s) = if is_space c then trim_start s else c ∷ s

-- Nothing is left of a text of spaces.
abbrev pub cons_trimmed : ℕ → Text → Text
cons_trimmed c [] = if is_space c then [] else c ∷ []
cons_trimmed c (d ∷ s) = c ∷ d ∷ s

unfoldable pub trim_end : Text → Text
trim_end [] = []
trim_end (c ∷ s) = cons_trimmed c (trim_end s)

unfoldable pub trim : Text → Text
unfolding trim_start trim_end
trim s = trim_end (trim_start s)

abbrev pub all_digits : Text → Bool
all_digits [] = true
all_digits (c ∷ s) = is_digit c && all_digits s

-- `\d+` against a whole text.
abbrev pub is_number : Text → Bool
is_number [] = false
is_number (c ∷ s) = is_digit c && all_digits s

abbrev pub has_sign : Text → Bool
has_sign [] = false
has_sign (c ∷ s) = c == b'-'

-- `sign ? value.slice(1) : value`.
abbrev pub unsigned : Text → Text
unsigned [] = []
unsigned (c ∷ s) = if c == b'-' then s else c ∷ s

-- `\d+(\.\d+)?` against the parts between dots.
abbrev pub is_decimal_parts : List Text → Bool
is_decimal_parts [] = false
is_decimal_parts (whole ∷ []) = is_number whole
is_decimal_parts (whole ∷ fraction ∷ []) = is_number whole && is_number fraction
is_decimal_parts (whole ∷ fraction ∷ more ∷ parts) = false

unfoldable pub is_decimal : Text → Bool
is_decimal value = is_decimal_parts (split b'.' (unsigned value))

-- `whole.replace(/^0+(?=\d)/, '') || '0'`.
abbrev pub drop_zeros : ℕ → Text → Text
drop_zeros c [] = c ∷ []
drop_zeros c (d ∷ s) = if (c == b'0') && is_digit d then drop_zeros d s else c ∷ d ∷ s

abbrev pub normalize_whole : Text → Text
normalize_whole [] = b'0' ∷ []
normalize_whole (c ∷ s) = drop_zeros c s

-- `fraction.replace(/0+$/, '')`.
abbrev pub cons_significant : ℕ → Text → Text
cons_significant c [] = if c == b'0' then [] else c ∷ []
cons_significant c (d ∷ s) = c ∷ d ∷ s

abbrev pub normalize_fraction : Text → Text
normalize_fraction [] = []
normalize_fraction (c ∷ s) = cons_significant c (normalize_fraction s)

abbrev pub with_fraction : Text → Text → Text
with_fraction whole [] = whole
with_fraction whole (c ∷ fraction) = whole ++ b'.' ∷ c ∷ fraction

abbrev pub with_sign : Bool → Text → Text
with_sign negative normalized =
    if text_eq normalized (codes "0")
    then codes "0"
    else if negative
    then b'-' ∷ normalized
    else normalized

-- `const [whole, fraction = ''] = unsigned.split('.')`, and what follows it.
abbrev pub normalize_parts : Bool → List Text → Text
normalize_parts negative [] = with_sign negative (normalize_whole [])
normalize_parts negative (whole ∷ []) = with_sign negative (normalize_whole whole)
normalize_parts negative (whole ∷ fraction ∷ parts) =
    with_sign negative (with_fraction (normalize_whole whole) (normalize_fraction fraction))

unfoldable pub normalize_decimal : Text → Text
unfolding is_decimal trim
normalize_decimal value =
    if is_decimal value
    then normalize_parts (has_sign value) (split b'.' (unsigned value))
    else trim value

decimal_tests :
    (normalize_decimal (codes "-0.00") ≡ codes "0")
    × (normalize_decimal (codes "-007.50") ≡ codes "-7.5")
    × (normalize_decimal (codes "1.2.3") ≡ codes "1.2.3")
    × (normalize_decimal (codes "100") ≡ codes "100")
unfolding normalize_decimal
decimal_tests = (refl, refl, refl, refl)
