-- ===== src/Usage/Quantity.antt =====
-- The quantities of events and rollups: the calls of `BigInt` on a text and of `String` on a bigint.
-- A bigint is a signed integer over the native numbers.
use canton_pillar.Base.{
  ◌≡◌, refl, ap, sym, ◌∙◌, ℕ, suc, ◌+◌, ◌-◌, ◌*◌, Bool, true, false, ◌&&◌, ◌||◌, Option, none, some,
  List, [], ◌∷◌, Text, if◌then◌else◌, leb, ltb, ◌==◌, is_digit, decimal, number, number-decimal,
  decimal-All, decimal-cons, IsDigit, All, arith,
}
use canton_pillar.Idempotency.Decimal.{
  trim, trim_start, trim_end, cons_trimmed, is_space, all_digits, is_number,
}

-- `negsuc n` is -(n + 1).
pub data ℤ : Type 0 where
  pos : ℕ → ℤ
  negsuc : ℕ → ℤ

abbrev pub pos_part : ℤ → ℕ
pos_part (pos n) = n
pos_part (negsuc n) = 0

abbrev pub neg_part : ℤ → ℕ
neg_part (pos n) = 0
neg_part (negsuc n) = suc n

abbrev pub sub_ℕ : ℕ → ℕ → ℤ
sub_ℕ a b = if leb b a then pos (a - b) else negsuc (b - a - 1)

infixl 65 ◌+ℤ◌
unfoldable pub ◌+ℤ◌ : ℤ → ℤ → ℤ
a +ℤ b = sub_ℕ (pos_part a + pos_part b) (neg_part a + neg_part b)

-- The two parts of a sum, and that they tell an integer, are what `omega` needs of integers.
pub +ℤ_parts :
    (a b : ℤ)
    → pos_part (a +ℤ b) + neg_part a + neg_part b ≡ neg_part (a +ℤ b) + pos_part a + pos_part b
unfolding ◌+ℤ◌
+ℤ_parts a b = ground arith

pub eq_of_parts : (a b : ℤ) → pos_part a + neg_part b ≡ pos_part b + neg_part a → a ≡ b
eq_of_parts a b h = ground arith

pub ruleset int_laws = (arith, +ℤ_parts, eq_of_parts)

abbrev pub eq_ℤ : ℤ → ℤ → Bool
eq_ℤ (pos m) (pos n) = m == n
eq_ℤ (negsuc m) (negsuc n) = m == n
eq_ℤ a b = false

pub eq_ℤ_refl : (a : ℤ) → eq_ℤ a a ≡ true
eq_ℤ_refl (pos n) = ground arith
eq_ℤ_refl (negsuc n) = ground arith

-- `String(n)`.
unfoldable pub big_text : ℤ → Text
big_text (pos n) = decimal n
big_text (negsuc n) = b'-' ∷ decimal (suc n)

-- A digit of a number with a prefix; 16 is no digit.
abbrev pub digit_value : ℕ → ℕ
digit_value c =
    if is_digit c
    then c - b'0'
    else if leb b'a' c && leb c b'f'
    then c - b'a' + 10
    else if leb b'A' c && leb c b'F'
    then c - b'A' + 10
    else 16

abbrev pub digits_from : (base acc : ℕ) → Text → Option ℤ
digits_from base acc [] = some (pos acc)
digits_from base acc (c ∷ s) =
    let rest = digits_from base (acc * base + digit_value c) s in
    if ltb (digit_value c) base then rest else none

abbrev pub digits_in : (base : ℕ) → Text → Option ℤ
digits_in base [] = none
digits_in base (c ∷ s) = digits_from base 0 (c ∷ s)

-- The letter after a first `0`.
abbrev pub prefixed : Text → Option ℤ
prefixed [] = none
prefixed (c ∷ []) = none
prefixed (c ∷ x ∷ s) =
    if (c == b'0') && ((x == b'x') || (x == b'X'))
    then digits_in 16 s
    else if (c == b'0') && ((x == b'o') || (x == b'O'))
    then digits_in 8 s
    else if (c == b'0') && ((x == b'b') || (x == b'B'))
    then digits_in 2 s
    else none

abbrev pub positive : Text → Option ℤ
positive s = if is_number s then some (pos (number s)) else none

abbrev pub negative : Text → Option ℤ
negative s = if is_number s then some (sub_ℕ 0 (number s)) else none

abbrev pub read_integer : Text → Option ℤ
read_integer [] = some (pos 0)
read_integer (c ∷ s) =
    if c == b'-'
    then negative s
    else if c == b'+'
    then positive s
    else if is_number (c ∷ s)
    then some (pos (number (c ∷ s)))
    else prefixed (c ∷ s)

-- `BigInt(s)`; `none` is a SyntaxError.
unfoldable pub big_int : Text → Option ℤ
unfolding trim
big_int s = read_integer (trim s)

digit_solid : (c : ℕ) → is_digit c ≡ true → is_space c ≡ false
digit_solid c h = ground arith

trim_end-All : (s : Text) → All IsDigit s → trim_end s ≡ s
unfolding trim_end
trim_end-All [] h = refl
trim_end-All (c ∷ []) (h, hs) = simp (digit_solid c h)
trim_end-All (c ∷ d ∷ s) (h, hs) = ap (cons_trimmed c) (trim_end-All (d ∷ s) hs)

all_digits-All : (s : Text) → All IsDigit s → all_digits s ≡ true
all_digits-All [] h = refl
all_digits-All (c ∷ s) (h, hs) = ground (arith, all_digits-All s hs)

-- Digits, alone or behind a sign, are not trimmed.
trim-solid :
    (c : ℕ) (s : Text) → is_space c ≡ false → trim_end (c ∷ s) ≡ c ∷ s → trim (c ∷ s) ≡ c ∷ s
unfolding trim trim_start
trim-solid c s h e = simp h e

read_digits :
    (s : Text)
    → All IsDigit s
    → (c : ℕ) × (t : Text) × (s ≡ c ∷ t)
    → read_integer s ≡ some (pos (number s))
read_digits [] h (c, t, e) = absurd (ground arith)
read_digits (d ∷ s) (h, hs) found =
    let all : all_digits s ≡ true = all_digits-All s hs in
    let one : (d == b'-') ≡ false = ground arith in
    let two : (d == b'+') ≡ false = ground arith in simp (one, two, h, all)

trim_digits : (s : Text) → All IsDigit s → (c : ℕ) × (t : Text) × (s ≡ c ∷ t) → trim s ≡ s
trim_digits [] h (c, t, e) = absurd (ground arith)
trim_digits (d ∷ s) (h, hs) found = trim-solid d s (digit_solid d h) (trim_end-All (d ∷ s) (h, hs))

is_number-All : (s : Text) → All IsDigit s → (c : ℕ) × (t : Text) × (s ≡ c ∷ t) → is_number s ≡ true
is_number-All [] h (c, t, e) = absurd (ground arith)
is_number-All (d ∷ s) (h, hs) found = ground (arith, all_digits-All s hs)

trim_end-sign : (s : Text) → All IsDigit s → trim_end (b'-' ∷ s) ≡ b'-' ∷ s
unfolding trim_end
trim_end-sign [] h = refl
trim_end-sign (d ∷ s) h = ap (cons_trimmed b'-') (trim_end-All (d ∷ s) h)

-- A bigint is read back from its text.
pub big_int-big_text : (a : ℤ) → big_int (big_text a) ≡ some a
unfolding big_int big_text
big_int-big_text (pos n) =
    ap read_integer (trim_digits (decimal n) (decimal-All n) (decimal-cons n))
    ∙ read_digits (decimal n) (decimal-All n) (decimal-cons n)
    ∙ ap (λ m. some (pos m)) (number-decimal n)
big_int-big_text (negsuc n) =
    let d = decimal (suc n) in
    let named = is_number-All d (decimal-All (suc n)) (decimal-cons (suc n)) in
    ap read_integer (trim-solid b'-' d refl (trim_end-sign d (decimal-All (suc n))))
    ∙ simp (named, number-decimal (suc n)) (ground arith)
