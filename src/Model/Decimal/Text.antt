-- ===== src/Model/Decimal/Text.antt =====
-- What the parser does with a text of digits, a sign and a point.
use txmlconnector.Common.{
  ℕ, zero, suc, ◌-◌, ◌^◌, ◌≤◌, ◌<◌, ◌≡◌, refl, ap, ◌∙◌, arith, true, false, ◌&&◌, ◌||◌, some, [],
  ◌∷◌, ◌++◌, Bytes,
}
use txmlconnector.Common.{All, length, leb, ◌==◌}
use txmlconnector.Model.Decimal.{
  leading_space, trim_left, is_space, trim_right, trim_space, cut_point, read_digits, parse_uint,
  parse_int,
}
use txmlconnector.Model.Decimal.Digits.{IsDigit, all_digits_lem}

-- A sign, a point or a digit.
abbrev pub IsPlain : ℕ → Type 0
IsPlain c = (45 ≤ c) × (c ≤ 57)

pub digits-IsPlain : (cs : Bytes) → All IsDigit cs → All IsPlain cs
digits-IsPlain [] h = tt
digits-IsPlain (c ∷ cs) ((l, k), hs) = ((omega (arith, l), k), digits-IsPlain cs hs)

leading_space_plain : (c : ℕ) (r : Bytes) → IsPlain c → leading_space (c ∷ r) ≡ 0
unfolding leading_space
leading_space_plain c r (l, k) =
    let a : (leb 9 c && leb c 13 || c == 32) ≡ false = ground arith in
    let b : (c == 0xc2) ≡ false = ground arith in
    let d : (c == 0xe1) ≡ false = ground arith in
    let e : (c == 0xe2) ≡ false = ground arith in
    let f : (c == 0xe3) ≡ false = ground arith in rw a (rw b (rw d (rw e (rw f refl))))

trim_left_plain : (n : ℕ) (t : Bytes) → All IsPlain t → trim_left n t ≡ t
unfolding trim_left leading_space
trim_left_plain zero t h = refl
trim_left_plain (suc n) [] h = refl
trim_left_plain (suc n) (c ∷ r) (h, hs) =
    let none_there : (leading_space (c ∷ r) == 0) ≡ true =
      ap (λ n. n == 0) (leading_space_plain c r h) in
    rw (none_there, trim_left) refl

is_space_plain : (n c : ℕ) (r : Bytes) → IsPlain c → is_space n (c ∷ r) ≡ false
unfolding is_space
is_space_plain zero c r h = refl
is_space_plain (suc n) c r h =
    let none_there : (leading_space (c ∷ r) == 0) ≡ true =
      ap (λ n. n == 0) (leading_space_plain c r h) in
    rw (none_there, is_space) refl

trim_right_plain : (t : Bytes) → All IsPlain t → trim_right t ≡ t
unfolding trim_right
trim_right_plain [] h = refl
trim_right_plain (c ∷ r) (h, hs) =
    rw (is_space_plain (length (c ∷ r)) c r h, trim_right) (ap (λ x. c ∷ x) (trim_right_plain r hs))

pub trim_space_plain : (t : Bytes) → All IsPlain t → trim_space t ≡ t
trim_space_plain t h = ap trim_right (trim_left_plain (length t) t h) ∙ trim_right_plain t h

not_point : (c : ℕ) → IsDigit c → (c == 46) ≡ false
not_point c (l, k) = ground arith

pub cut_point_digits : (w : Bytes) → All IsDigit w → cut_point w ≡ (w, [])
unfolding cut_point
cut_point_digits [] h = refl
cut_point_digits (c ∷ w) (h, hs) =
    rw (not_point c h, cut_point) (ap (λ x. (c ∷ x.0, x.1)) (cut_point_digits w hs))

pub cut_point_pointed : (w f : Bytes) → All IsDigit w → cut_point (w ++ (46 ∷ f)) ≡ (w, f)
unfolding cut_point
cut_point_pointed [] f h = refl
cut_point_pointed (c ∷ w) f (h, hs) =
    rw (not_point c h, cut_point) (ap (λ x. (c ∷ x.0, x.1)) (cut_point_pointed w f hs))

parse_uint_digits :
    (greatest : ℕ) (cs : Bytes)
    → All IsDigit cs
    → 1 ≤ length cs
    → read_digits 0 cs ≤ greatest
    → parse_uint greatest cs ≡ some (read_digits 0 cs)
parse_uint_digits greatest [] h l k = ground arith
parse_uint_digits greatest (c ∷ cs) h l k =
    let fits : leb (read_digits 0 (c ∷ cs)) greatest ≡ true = ground arith in
    rw (all_digits_lem (c ∷ cs) h) (rw fits refl)

pub parse_int_digits :
    (cs : Bytes)
    → All IsDigit cs
    → 1 ≤ length cs
    → read_digits 0 cs < 2 ^ 63
    → parse_int cs ≡ some (read_digits 0 cs)
unfolding parse_int
parse_int_digits [] h l k = ground arith
parse_int_digits (c ∷ cs) h l k =
    let no_plus : (c == 43) ≡ false = ground arith in
    let no_minus : (c == 45) ≡ false = ground arith in
    rw no_plus (rw no_minus (parse_uint_digits (2 ^ 63 - 1) (c ∷ cs) h l (omega (arith, k))))
