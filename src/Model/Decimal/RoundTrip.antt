-- ===== src/Model/Decimal/RoundTrip.antt =====
-- The text of a decimal is read back as a decimal of the same value.
use txmlconnector.Common.{
  ℕ, zero, suc, ◌*◌, ◌%◌, ◌^◌, ◌≤◌, ◌<◌, ◌≡◌, ◌≢◌, sym, ap, ◌∙◌, arith, Bool, true, false, some,
  ◌∷◌, ◌++◌, Bytes,
}
use txmlconnector.Common.{Bool-cases, inl, inr, length, ◌==◌, if◌then◌else◌}
use native.Mathlib.Nat.{le-mul_of_pos_right}
use txmlconnector.Wire.Words.{is_negative, negate}
use txmlconnector.Model.Decimal.{
  Decimal, unsigned_text, decimal_text, cut_point, read_digits, parse_int, negated, with_scale,
  parse_unsigned, parse_trimmed, trim_space, parse_decimal,
}
use txmlconnector.Model.Decimal.Text.{trim_space_plain, parse_int_digits}
use txmlconnector.Model.Decimal.Shape.{IsShape, pow_positive, unsigned-IsShape}

-- A text of this shape, behind its sign, is parsed.
parse_unsigned_shape :
    (u scale : ℕ) (text : Bytes) (neg : Bool) (s : IsShape u scale text)
    → u < 2 ^ 63
    → parse_unsigned neg (cut_point text)
      ≡ some (record {
        units =
            if neg
            then negate (read_digits 0 (s.whole ++ s.frac))
            else read_digits 0 (s.whole ++ s.frac);
        scale = length s.frac;
      })
parse_unsigned_shape u scale text neg s small =
    let n = read_digits 0 (s.whole ++ s.frac) in
    let k : length s.frac % 256 ≡ length s.frac = omega (arith, s.short) in
    ap (parse_unsigned neg) s.cut
    ∙ ap
        (λ w.
          with_scale (length s.frac)
            (if neg then negated (parse_int (w ++ s.frac)) else parse_int (w ++ s.frac)))
        s.some_whole
    ∙ ap (λ p. with_scale (length s.frac) (if neg then negated p else p))
        (parse_int_digits (s.whole ++ s.frac) s.digits s.some_digits
          (omega (arith, s.no_larger, small)))
    ∙ by_sign neg n k
  where
    by_sign :
        (neg : Bool) (n : ℕ)
        → length s.frac % 256 ≡ length s.frac
        → with_scale (length s.frac) (if neg then negated (some n) else some n)
          ≡ some (record { units = if neg then negate n else n; scale = length s.frac })
    by_sign true n k = ap (λ l. some (record { units = negate n; scale = l })) k
    by_sign false n k = ap (λ l. some (record { units = n; scale = l })) k

abbrev pub magnitude_of : Decimal → ℕ
magnitude_of d = if is_negative d.units then negate d.units else d.units

-- The same sign and the same number.
pub record IsSame (d e : Decimal) : Type 0 where
  pub sign : is_negative e.units ≡ is_negative d.units
  pub number : magnitude_of e * 10 ^ d.scale ≡ magnitude_of d * 10 ^ e.scale

-- A number with a value that is not 0 is not 0.
not_nothing : (n u a b : ℕ) → 1 ≤ u → 0 < b → n * a ≡ u * b → 1 ≤ n
not_nothing zero u a b h k e = omega (arith, e, h, le-mul_of_pos_right u k)
not_nothing (suc n) u a b h k e = omega arith

trimmed_unsigned :
    (u scale : ℕ) (text : Bytes) (s : IsShape u scale text)
    → parse_trimmed (trim_space text) ≡ parse_unsigned false (cut_point text)
trimmed_unsigned u scale text s =
    let (x, r, e, (l, k)) = s.front in
    let no_minus : (x == 45) ≡ false = ground arith in
    ap parse_trimmed (trim_space_plain text s.plain ∙ e)
    ∙ ap
        (λ b.
          if b then parse_unsigned true (cut_point r) else parse_unsigned false (cut_point (x ∷ r)))
        no_minus
    ∙ ap (λ t. parse_unsigned false (cut_point t)) (sym e)

trimmed_negative :
    (u scale : ℕ) (text : Bytes) (s : IsShape u scale text)
    → parse_trimmed (trim_space (45 ∷ text)) ≡ parse_unsigned true (cut_point text)
trimmed_negative u scale text s =
    ap parse_trimmed (trim_space_plain (45 ∷ text) ((omega arith, omega arith), s.plain))

-- What is read, by the sign.
positive-IsSame :
    (d : Decimal) (n k : ℕ)
    → is_negative d.units ≡ false
    → n ≤ d.units
    → n * 10 ^ d.scale ≡ d.units * 10 ^ k
    → IsSame d (record { units = n; scale = k })
positive-IsSame d n k e l v =
    let small : is_negative n ≡ false = ground arith in
    record {
      sign = small ∙ sym e;
      number =
          ap (λ b. (if b then negate n else n) * 10 ^ d.scale) small
          ∙ v
          ∙ ap (λ b. (if b then negate d.units else d.units) * 10 ^ k) (sym e);
    }

negative-IsSame :
    (d : Decimal) (n k : ℕ)
    → is_negative d.units ≡ true
    → 1 ≤ n
    → n < 2 ^ 63
    → n * 10 ^ d.scale ≡ negate d.units * 10 ^ k
    → IsSame d (record { units = negate n; scale = k })
negative-IsSame d n k e p l v =
    let big : is_negative (negate n) ≡ true = ground arith in
    let back : negate (negate n) ≡ n = omega (arith, p, l) in
    record {
      sign = big ∙ sym e;
      number =
          ap (λ b. (if b then negate (negate n) else negate n) * 10 ^ d.scale) big
          ∙ ap (λ m. m * 10 ^ d.scale) back
          ∙ v
          ∙ ap (λ b. (if b then negate d.units else d.units) * 10 ^ k) (sym e);
    }

-- Unless its units are the least int64, a decimal with a scale below 256 is written as a text that is
-- parsed to a decimal of the same sign and value.
pub parse-decimal_text :
    (d : Decimal)
    → d.units < 2 ^ 64
    → d.units ≢ 2 ^ 63
    → d.scale < 256
    → (e : Decimal) × (parse_decimal (decimal_text d) ≡ some e) × IsSame d e
unfolding decimal_text parse_decimal
parse-decimal_text d h least small = elim (Bool-cases (is_negative d.units)) [
  | inl neg ↦
      let u = negate d.units in
      let low : 1 ≤ u = ground arith in
      let high : u < 2 ^ 63 = ground arith in
      let s = unsigned-IsShape u d.scale (omega (arith, high)) small in
      let n = read_digits 0 (s.whole ++ s.frac) in
      (
        record { units = negate n; scale = length s.frac },
        ap
              (λ b.
                parse_decimal
                  (if b then 45 ∷ unsigned_text u d.scale else unsigned_text d.units d.scale))
              neg
            ∙ trimmed_negative u d.scale (unsigned_text u d.scale) s
            ∙ parse_unsigned_shape u d.scale (unsigned_text u d.scale) true s high,
        negative-IsSame d n (length s.frac) neg
            (not_nothing n u (10 ^ d.scale) (10 ^ length s.frac) low (pow_positive (length s.frac))
              s.value)
            (omega (arith, s.no_larger, high)) s.value,
      )
  | inr pos ↦
      let high : d.units < 2 ^ 63 = ground arith in
      let s = unsigned-IsShape d.units d.scale h small in
      let n = read_digits 0 (s.whole ++ s.frac) in
      (
        record { units = n; scale = length s.frac },
        ap
              (λ b. parse_decimal (
                if b
                then 45 ∷ unsigned_text (negate d.units) d.scale
                else unsigned_text d.units d.scale))
              pos
            ∙ trimmed_unsigned d.units d.scale (unsigned_text d.units d.scale) s
            ∙ parse_unsigned_shape d.units d.scale (unsigned_text d.units d.scale) false s high,
        positive-IsSame d n (length s.frac) pos s.no_larger s.value,
      )
]
