-- ===== src/Model/Runs.antt =====
-- Concrete decimals, those of decimal_test.go among them.
use txmlconnector.Common.{◌-◌, ◌^◌, ◌≡◌, refl, arith, some, [], ◌∷◌}
use txmlconnector.Model.Decimal.{
  Decimal, decimal_text, parse_decimal, digits_from, trim_zeros, trim_left, trim_right, is_space,
  leading_space, cut_point, parse_int,
}
use txmlconnector.Model.Decimal.RoundTrip.{IsSame, parse-decimal_text}

abbrev minus_price : Decimal
minus_price = record { units = 2 ^ 64 - 30500; scale = 2 }

parse-decimal_text_example :
    (e : Decimal) × (parse_decimal (decimal_text minus_price) ≡ some e) × IsSame minus_price e
parse-decimal_text_example =
    parse-decimal_text minus_price (omega arith) (omega arith) (omega arith)

-- "-305.0", "0.098", and "7".
minus_text : decimal_text minus_price ≡ 45 ∷ 51 ∷ 48 ∷ 53 ∷ 46 ∷ 48 ∷ []
unfolding decimal_text digits_from trim_zeros
minus_text = refl

small_text : decimal_text (record { units = 98; scale = 3 }) ≡ 48 ∷ 46 ∷ 48 ∷ 57 ∷ 56 ∷ []
unfolding decimal_text digits_from trim_zeros
small_text = refl

whole_text : decimal_text (record { units = 7; scale = 0 }) ≡ 55 ∷ []
unfolding decimal_text digits_from trim_zeros
whole_text = refl

-- "--5" is read as 5, and "-" as 0.
two_signs : parse_decimal (45 ∷ 45 ∷ 53 ∷ []) ≡ some (record { units = 5; scale = 0 })
unfolding parse_decimal trim_left trim_right is_space leading_space cut_point parse_int
two_signs = refl

lone_sign : parse_decimal (45 ∷ []) ≡ some (record { units = 0; scale = 0 })
unfolding parse_decimal trim_left trim_right is_space leading_space cut_point parse_int
lone_sign = refl

-- White space around a number is left out: a no-break space, a tab and a space.
spaced :
    parse_decimal (0xc2 ∷ 0xa0 ∷ 9 ∷ 55 ∷ 46 ∷ 53 ∷ 32 ∷ [])
    ≡ some (record { units = 75; scale = 1 })
unfolding parse_decimal trim_left trim_right is_space leading_space cut_point parse_int
spaced = refl
