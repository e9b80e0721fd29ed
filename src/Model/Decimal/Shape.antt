-- ===== src/Model/Decimal/Shape.antt =====
-- The text of a number without its sign: digits around a point, of the same value.
use txmlconnector.Common.{
  ℕ, zero, suc, ◌+◌, ◌-◌, ◌*◌, ◌^◌, ◌≤◌, ◌<◌, ◌≡◌, refl, sym, ap, ◌∙◌, arith, false, [], ◌∷◌, ◌++◌,
  append-nil, append_assoc, Bytes,
}
use txmlconnector.Common.{
  All, All-append, Bool-cases, inl, inr, length, length-append, length-drop, length-take, take,
  drop, take-append-drop, leb, ◌==◌,
}
use mathlib.Core.Path.{subst}
use native.Mathlib.Nat.{
  pow-suc, mul_assoc, mul_comm, mul_right_comm, pow-le-pow_right, le-mul_of_pos_right,
  mul-le-mul_left,
}
use txmlconnector.Model.Decimal.{
  zeros, trim_zeros, or_zero, padded, pointed, format_uint, unsigned_text, cut_point, read_digits,
}
use txmlconnector.Model.Decimal.Digits.{
  IsDigit, read-format_uint, format_uint-IsDigit, length-format_uint, read-append, read-zeros,
  zeros-IsDigit, length-zeros, trim_zeros_lem,
}
use txmlconnector.Model.Decimal.Text.{IsPlain, digits-IsPlain, cut_point_digits, cut_point_pointed}

pow_add : (l z : ℕ) → 10 ^ (l + z) ≡ 10 ^ l * 10 ^ z
pow_add zero z =
    let none_more : zero + z ≡ z = omega arith in ap (λ n. 10 ^ n) none_more ∙ omega arith
pow_add (suc l) z =
    let one_more : suc l + z ≡ suc (l + z) = omega arith in
    ap (λ n. 10 ^ n) one_more
    ∙ pow-suc 10 (l + z)
    ∙ ap (λ n. n * 10) (pow_add l z)
    ∙ mul_right_comm (10 ^ l) (10 ^ z) 10
    ∙ ap (λ n. n * 10 ^ z) (sym (pow-suc 10 l))

pub pow_positive : (z : ℕ) → 0 < 10 ^ z
pow_positive z =
    omega (arith, pow-le-pow_right {n = 10} (omega arith) {i = 0} {j = z} (omega arith))

All-parts : (P : ℕ → Type 0) (xs ys : Bytes) → All P (xs ++ ys) → All P xs × All P ys
All-parts P [] ys h = (tt, h)
All-parts P (x ∷ xs) ys (h, hs) = let (a, b) = All-parts P xs ys hs in ((h, a), b)

-- A text without a sign has digits before the point, and those behind it, for the number `u` with this
-- scale.
pub record IsShape (u scale : ℕ) (text : Bytes) : Type 0 where
  pub whole : Bytes
  pub frac : Bytes
  pub cut : cut_point text ≡ (whole, frac)
  pub plain : All IsPlain text
  pub front : (x : ℕ) × (r : Bytes) × (text ≡ x ∷ r) × IsDigit x
  pub some_whole : or_zero whole ≡ whole
  pub digits : All IsDigit (whole ++ frac)
  pub some_digits : 1 ≤ length (whole ++ frac)
  pub short : length frac < 256
  pub no_larger : read_digits 0 (whole ++ frac) ≤ u
  pub value : read_digits 0 (whole ++ frac) * 10 ^ scale ≡ u * 10 ^ length frac

front_digit :
    (w t : Bytes)
    → All IsDigit w
    → 1 ≤ length w
    → (x : ℕ) × (r : Bytes) × (w ++ t ≡ x ∷ r) × IsDigit x
front_digit [] t h l = ground arith
front_digit (x ∷ w) t (h, hs) l = (x, w ++ t, refl, h)

or_zero_some : (w : Bytes) → 1 ≤ length w → or_zero w ≡ w
or_zero_some [] l = ground arith
or_zero_some (x ∷ w) l = refl

whole-IsShape :
    (u : ℕ) (w : Bytes) → All IsDigit w → 1 ≤ length w → read_digits 0 w ≡ u → IsShape u 0 w
whole-IsShape u w h l e =
    let same = append-nil w in
    record {
      whole = w;
      frac = [];
      cut = cut_point_digits w h;
      plain = digits-IsPlain w h;
      front =
          subst (λ (t : Bytes). (x : ℕ) × (r : Bytes) × (t ≡ x ∷ r) × IsDigit x) same
            (front_digit w [] h l);
      some_whole = or_zero_some w l;
      digits = All-append IsDigit w [] h tt;
      some_digits = omega (arith, length-append w [], l);
      short = omega arith;
      no_larger = omega (arith, ap (read_digits 0) same, e);
      value = omega (arith, ap (read_digits 0) same, e);
    }

-- The number of the digits `w` and `f` and of zeros behind them.
read_zeros_behind :
    (w f : Bytes) (z : ℕ) → read_digits 0 ((w ++ f) ++ zeros z) ≡ read_digits 0 (w ++ f) * 10 ^ z
read_zeros_behind w f z = read-append 0 (w ++ f) (zeros z) ∙ read-zeros (read_digits 0 (w ++ f)) z

pointed-IsPlain : (w f : Bytes) → All IsDigit w → All IsDigit f → All IsPlain (w ++ (46 ∷ f))
pointed-IsPlain w f h hf =
    All-append IsPlain w (46 ∷ f) (digits-IsPlain w h)
      ((omega arith, omega arith), digits-IsPlain f hf)

-- A fraction of zeros is written as one.
zero_frac-IsShape :
    (u z : ℕ) (w : Bytes)
    → All IsDigit w
    → 1 ≤ length w
    → 1 ≤ z
    → read_digits 0 w * 10 ^ z ≡ u
    → IsShape u z (w ++ (46 ∷ 48 ∷ []))
zero_frac-IsShape u z w h l pos e =
    let one : read_digits 0 (w ++ (48 ∷ [])) ≡ read_digits 0 w * 10 =
      read-append 0 w (48 ∷ []) ∙ omega arith in
    let ten : 10 ≤ 10 ^ z =
      omega (arith, pow-le-pow_right {n = 10} (omega arith) {i = 1} {j = z} pos) in
    record {
      whole = w;
      frac = 48 ∷ [];
      cut = cut_point_pointed w (48 ∷ []) h;
      plain = pointed-IsPlain w (48 ∷ []) h ((omega arith, omega arith), tt);
      front = front_digit w (46 ∷ 48 ∷ []) h l;
      some_whole = or_zero_some w l;
      digits = All-append IsDigit w (48 ∷ []) h ((omega arith, omega arith), tt);
      some_digits = omega (arith, length-append w (48 ∷ []), l);
      short = omega arith;
      no_larger = omega (arith, one, e, mul-le-mul_left (read_digits 0 w) ten);
      value =
          ap (λ n. n * 10 ^ z) one
          ∙ mul_right_comm (read_digits 0 w) 10 (10 ^ z)
          ∙ ap (λ n. n * 10) e;
    }

some_frac-IsShape :
    (u z c : ℕ) (w cs : Bytes)
    → All IsDigit w
    → 1 ≤ length w
    → All IsDigit (c ∷ cs)
    → length (c ∷ cs) < 256
    → read_digits 0 (w ++ (c ∷ cs)) * 10 ^ z ≡ u
    → IsShape u (length (c ∷ cs) + z) (w ++ (46 ∷ c ∷ cs))
some_frac-IsShape u z c w cs h l hf small e =
    let n = read_digits 0 (w ++ (c ∷ cs)) in
    let k = length (c ∷ cs) in
    record {
      whole = w;
      frac = c ∷ cs;
      cut = cut_point_pointed w (c ∷ cs) h;
      plain = pointed-IsPlain w (c ∷ cs) h hf;
      front = front_digit w (46 ∷ c ∷ cs) h l;
      some_whole = or_zero_some w l;
      digits = All-append IsDigit w (c ∷ cs) h hf;
      some_digits = omega (arith, length-append w (c ∷ cs), l);
      short = small;
      no_larger = omega (arith, e, le-mul_of_pos_right n (pow_positive z));
      value =
          ap (λ x. n * x) (pow_add k z ∙ mul_comm (10 ^ k) (10 ^ z))
          ∙ sym (mul_assoc n (10 ^ z) (10 ^ k))
          ∙ ap (λ x. x * 10 ^ k) e;
    }

-- The digits `w` and `f` around the point, and zeros that the text leaves out.
point-IsShape :
    (u scale z : ℕ) (w f : Bytes)
    → All IsDigit w
    → 1 ≤ length w
    → All IsDigit f
    → scale ≡ length f + z
    → 1 ≤ scale
    → scale < 256
    → read_digits 0 ((w ++ f) ++ zeros z) ≡ u
    → IsShape u scale (w ++ (46 ∷ or_zero f))
point-IsShape u scale z w [] h l hf size pos small e =
    let same : scale ≡ z = omega (arith, size) in
    subst (λ k. IsShape u k (w ++ (46 ∷ 48 ∷ []))) (sym same)
      (zero_frac-IsShape u z w h l (omega (arith, pos, same)) (
        ap (λ x. read_digits 0 x * 10 ^ z) (sym (append-nil w))
        ∙ sym (read_zeros_behind w [] z)
        ∙ e))
point-IsShape u scale z w (c ∷ cs) h l hf size pos small e =
    subst (λ k. IsShape u k (w ++ (46 ∷ c ∷ cs))) (sym size)
      (some_frac-IsShape u z c w cs h l hf (omega (arith, size, small))
        (sym (read_zeros_behind w (c ∷ cs) z) ∙ e))

pointed-IsShape :
    (u scale : ℕ) (p : Bytes)
    → All IsDigit p
    → scale < length p
    → 1 ≤ scale
    → scale < 256
    → read_digits 0 p ≡ u
    → IsShape u scale (pointed scale p)
pointed-IsShape u scale p h more pos small e =
    let n = length p - scale in
    let w = take n p in
    let g = drop n p in
    let whole = take-append-drop n p in
    let (hw, hg) = All-parts IsDigit w g (subst (All IsDigit) (sym whole) h) in
    let (z, trimmed) = trim_zeros_lem g in
    let f = trim_zeros g in
    let (hf, hz) = All-parts IsDigit f (zeros z) (subst (All IsDigit) trimmed hg) in
    point-IsShape u scale z w f hw (omega (arith, length-take n p, more)) hf
      (omega (
        arith,
        length-drop n p,
        ap {B = ℕ} length trimmed,
        length-append f (zeros z),
        length-zeros z,
        more,
      ))
      pos small
      (ap (read_digits 0) (append_assoc w f (zeros z) ∙ ap (λ x. w ++ x) (sym trimmed) ∙ whole) ∙ e)

read_zeros_front : (k : ℕ) (cs : Bytes) → read_digits 0 (zeros k ++ cs) ≡ read_digits 0 cs
read_zeros_front zero cs = refl
read_zeros_front (suc k) cs = read_zeros_front k cs

padded_lem :
    (scale : ℕ) (cs : Bytes)
    → All IsDigit cs
    → All IsDigit (padded scale cs)
      × (scale < length (padded scale cs))
      × (read_digits 0 (padded scale cs) ≡ read_digits 0 cs)
padded_lem scale cs h = elim (Bool-cases (leb (length cs) scale)) [
  | inl e ↦ rw e (
    All-append IsDigit (zeros (scale - length cs + 1)) cs (zeros-IsDigit (scale - length cs + 1)) h,
    omega (
      arith,
      length-append (zeros (scale - length cs + 1)) cs,
      length-zeros (scale - length cs + 1),
    ),
    read_zeros_front (scale - length cs + 1) cs,
  )
  | inr e ↦ rw e (h, ground arith, refl)
]

pub unsigned-IsShape :
    (u scale : ℕ) → u < 2 ^ 64 → scale < 256 → IsShape u scale (unsigned_text u scale)
unsigned-IsShape u zero h small =
    whole-IsShape u (format_uint u) (format_uint-IsDigit u) (length-format_uint u)
      (read-format_uint u h)
unsigned-IsShape u (suc s) h small =
    let never : (suc s == 0) ≡ false = ground arith in
    let (digits, more, same) = padded_lem (suc s) (format_uint u) (format_uint-IsDigit u) in
    rw never (
      pointed-IsShape u (suc s) (padded (suc s) (format_uint u)) digits more (omega arith) small
        (same ∙ read-format_uint u h))
