-- ===== src/Model/Decimal.antt =====
-- native/model/decimal.go and `ParseDecimal` of order.go, with what they use of strconv and strings.
pub mod Digits
pub mod Text
pub mod Shape
pub mod RoundTrip
use txmlconnector.Common.{
  ℕ, zero, suc, ◌+◌, ◌-◌, ◌*◌, ◌/◌, ◌%◌, ◌^◌, Bool, true, false, not, ◌&&◌, ◌||◌, Option, none,
  some, List, [], ◌∷◌, ◌++◌, Bytes,
}
use txmlconnector.Common.{length, take, drop, ltb, leb, ◌==◌, if◌then◌else◌}
use txmlconnector.Wire.Words.{is_negative, negate}

-- Units × 10^-Scale; the units are the bit pattern of an int64.
pub record Decimal : Type 0 where
  pub units : ℕ
  pub scale : ℕ

-- `strconv.FormatUint` in base 10, which has 20 digits at most.
unfoldable pub digits_from : ℕ → ℕ → Bytes → Bytes
digits_from zero u digits = digits
digits_from (suc room) u digits =
    let digits' = (48 + u % 10) ∷ digits in
    let more = digits_from room (u / 10) digits' in if u / 10 == 0 then digits' else more

abbrev pub format_uint : ℕ → Bytes
format_uint u = digits_from 20 u []

-- `strings.Repeat("0", n)`.
abbrev pub zeros : ℕ → Bytes
zeros zero = []
zeros (suc n) = 48 ∷ zeros n

-- `strings.TrimRight(s, "0")`.
abbrev pub before_zeros : ℕ → Bytes → Bytes
before_zeros c [] = if c == 48 then [] else c ∷ []
before_zeros c (x ∷ xs) = c ∷ x ∷ xs

unfoldable pub trim_zeros : Bytes → Bytes
trim_zeros [] = []
trim_zeros (c ∷ cs) = before_zeros c (trim_zeros cs)

abbrev pub or_zero : Bytes → Bytes
or_zero [] = 48 ∷ []
or_zero (c ∷ cs) = c ∷ cs

-- One digit at least stands before the point.
abbrev pub padded : ℕ → Bytes → Bytes
padded scale digits =
    if leb (length digits) scale then zeros (scale - length digits + 1) ++ digits else digits

-- The digits with the point before the last `scale` of them.
abbrev pub pointed : ℕ → Bytes → Bytes
pointed scale digits =
    let n = length digits - scale in take n digits ++ (46 ∷ or_zero (trim_zeros (drop n digits)))

abbrev pub unsigned_text : ℕ → ℕ → Bytes
unsigned_text u scale =
    if scale == 0 then format_uint u else pointed scale (padded scale (format_uint u))

-- `String`.
unfoldable pub decimal_text : Decimal → Bytes
unfolding digits_from trim_zeros
decimal_text d =
    if is_negative d.units
    then 45 ∷ unsigned_text (negate d.units) d.scale
    else unsigned_text d.units d.scale

-- How many bytes the white space at the front takes, with 0 for none.
abbrev pub second_is : ℕ → ℕ → Bytes → Bool
second_is b c (x ∷ y ∷ r) = x == b && y == c
second_is b c r = false

abbrev pub general_space : Bytes → Bool
general_space (x ∷ y ∷ r) =
    x == 0x80 && (leb 0x80 y && leb y 0x8a || y == 0xa8 || y == 0xa9 || y == 0xaf)
    || x == 0x81 && y == 0x9f
general_space r = false

abbrev pub latin_space : Bytes → Bool
latin_space (x ∷ r) = x == 0x85 || x == 0xa0
latin_space [] = false

unfoldable pub leading_space : Bytes → ℕ
leading_space [] = 0
leading_space (c ∷ r) =
    if leb 9 c && leb c 13 || c == 32
    then 1
    else if c == 0xc2 && latin_space r
    then 2
    else if c == 0xe1 && second_is 0x9a 0x80 r
        || c == 0xe2 && general_space r
        || c == 0xe3 && second_is 0x80 0x80 r
    then 3
    else 0

-- The loops take a byte at least in each round, so the length is fuel enough.
unfoldable pub trim_left : ℕ → Bytes → Bytes
trim_left zero text = text
trim_left (suc fuel) text =
    let rest = trim_left fuel (drop (leading_space text) text) in
    if leading_space text == 0 then text else rest

unfoldable pub is_space : ℕ → Bytes → Bool
is_space fuel [] = true
is_space zero (c ∷ r) = false
is_space (suc fuel) (c ∷ r) =
    let rest = is_space fuel (drop (leading_space (c ∷ r)) (c ∷ r)) in
    if leading_space (c ∷ r) == 0 then false else rest

unfoldable pub trim_right : Bytes → Bytes
unfolding is_space
trim_right [] = []
trim_right (c ∷ r) =
    let rest = trim_right r in if is_space (length (c ∷ r)) (c ∷ r) then [] else c ∷ rest

-- `strings.TrimSpace`.
abbrev pub trim_space : Bytes → Bytes
trim_space text = trim_right (trim_left (length text) text)

-- `strings.Cut(text, ".")`, without whether the point was found.
unfoldable pub cut_point : Bytes → Bytes × Bytes
cut_point [] = ([], [])
cut_point (c ∷ r) =
    let (whole, frac) = cut_point r in if c == 46 then ([], r) else (c ∷ whole, frac)

abbrev pub is_digit : ℕ → Bool
is_digit c = leb 48 c && leb c 57

abbrev pub all_digits : Bytes → Bool
all_digits [] = true
all_digits (c ∷ r) = is_digit c && all_digits r

-- The number of these digits behind others of value `n`.
abbrev pub read_digits : ℕ → Bytes → ℕ
read_digits n [] = n
read_digits n (c ∷ r) = read_digits (n * 10 + (c - 48)) r

-- `strconv.ParseUint` up to the greatest value for the sign.
abbrev pub parse_uint : ℕ → Bytes → Option ℕ
parse_uint greatest [] = none
parse_uint greatest (c ∷ r) =
    let n = read_digits 0 (c ∷ r) in if all_digits (c ∷ r) && leb n greatest then some n else none

abbrev pub negated : Option ℕ → Option ℕ
negated none = none
negated (some n) = some (negate n)

-- `strconv.ParseInt` in base 10 and 64 bits.
unfoldable pub parse_int : Bytes → Option ℕ
parse_int [] = none
parse_int (c ∷ r) =
    if c == 43
    then parse_uint (2 ^ 63 - 1) r
    else if c == 45
    then negated (parse_uint (2 ^ 63) r)
    else parse_uint (2 ^ 63 - 1) (c ∷ r)

abbrev pub with_scale : ℕ → Option ℕ → Option Decimal
with_scale scale none = none
with_scale scale (some n) = some (record { units = n; scale = scale % 256 })

abbrev pub parse_unsigned : Bool → Bytes × Bytes → Option Decimal
parse_unsigned neg (whole, frac) =
    let n = parse_int (or_zero whole ++ frac) in
    with_scale (length frac) (if neg then negated n else n)

abbrev pub parse_trimmed : Bytes → Option Decimal
parse_trimmed [] = none
parse_trimmed (c ∷ r) =
    if c == 45 then parse_unsigned true (cut_point r) else parse_unsigned false (cut_point (c ∷ r))

-- `ParseDecimal`; with `none` the text is refused.
unfoldable pub parse_decimal : Bytes → Option Decimal
unfolding trim_left trim_right cut_point parse_int
parse_decimal text = parse_trimmed (trim_space text)
