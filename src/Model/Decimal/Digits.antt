-- ===== src/Model/Decimal/Digits.antt =====
-- The digits of a number and the number of its digits.
use txmlconnector.Common.{
  ℕ, zero, suc, ◌+◌, ◌-◌, ◌*◌, ◌/◌, ◌%◌, ◌^◌, ◌≤◌, ◌<◌, ◌≡◌, refl, sym, ap, ◌∙◌, arith, true, [],
  ◌∷◌, ◌++◌, Bytes,
}
use txmlconnector.Common.{All, Bool-cases, inl, inr, length, ◌==◌, ==_iff}
use native.Mathlib.Nat.{pow-suc, mul_assoc, mul_comm}
use txmlconnector.Model.Decimal.{
  digits_from, format_uint, zeros, before_zeros, trim_zeros, is_digit, all_digits, read_digits,
}

abbrev pub IsDigit : ℕ → Type 0
IsDigit c = (48 ≤ c) × (c ≤ 57)

read-digits_from :
    (room u : ℕ) (digits : Bytes)
    → u < 10 ^ room
    → read_digits 0 (digits_from room u digits) ≡ read_digits u digits
unfolding digits_from
read-digits_from zero u digits h = ap (λ n. read_digits n digits) (omega (arith, h))
read-digits_from (suc room) u digits h = elim (Bool-cases (u / 10 == 0)) [
  | inl e ↦ rw e (ap (λ n. read_digits n digits) (omega (arith, (==_iff (u / 10) 0).0 e)))
  | inr e ↦ rw e (
      read-digits_from room (u / 10) ((48 + u % 10) ∷ digits) (omega (arith, h, pow-suc 10 room))
      ∙ ap (λ n. read_digits n digits) (omega arith))
]

pub read-format_uint : (u : ℕ) → u < 2 ^ 64 → read_digits 0 (format_uint u) ≡ u
read-format_uint u h = read-digits_from 20 u [] (omega (arith, h))

digits_from-IsDigit :
    (room u : ℕ) (digits : Bytes) → All IsDigit digits → All IsDigit (digits_from room u digits)
unfolding digits_from
digits_from-IsDigit zero u digits h = h
digits_from-IsDigit (suc room) u digits h =
    let one : All IsDigit ((48 + u % 10) ∷ digits) = ((omega arith, omega arith), h) in
    elim (Bool-cases (u / 10 == 0)) [
      | inl e ↦ rw e one
      | inr e ↦ rw e (digits_from-IsDigit room (u / 10) ((48 + u % 10) ∷ digits) one)
    ]

pub format_uint-IsDigit : (u : ℕ) → All IsDigit (format_uint u)
format_uint-IsDigit u = digits_from-IsDigit 20 u [] tt

digits_from_grows :
    (room u : ℕ) (digits : Bytes) → length digits ≤ length (digits_from room u digits)
unfolding digits_from
digits_from_grows zero u digits = omega arith
digits_from_grows (suc room) u digits = elim (Bool-cases (u / 10 == 0)) [
  | inl e ↦ rw e (omega arith)
  | inr e ↦ rw e (omega (arith, digits_from_grows room (u / 10) ((48 + u % 10) ∷ digits)))
]

pub length-format_uint : (u : ℕ) → 1 ≤ length (format_uint u)
unfolding digits_from
length-format_uint u = elim (Bool-cases (u / 10 == 0)) [
  | inl e ↦ rw e (omega arith)
  | inr e ↦ rw e (omega (arith, digits_from_grows 19 (u / 10) ((48 + u % 10) ∷ [])))
]

pub read-append :
    (n : ℕ) (xs ys : Bytes) → read_digits n (xs ++ ys) ≡ read_digits (read_digits n xs) ys
read-append n [] ys = refl
read-append n (x ∷ xs) ys = read-append (n * 10 + (x - 48)) xs ys

pub read-zeros : (n k : ℕ) → read_digits n (zeros k) ≡ n * 10 ^ k
read-zeros n zero = omega arith
read-zeros n (suc k) =
    read-zeros (n * 10 + 0) k
    ∙ ap (λ m. m * 10 ^ k) (omega arith)
    ∙ mul_assoc n 10 (10 ^ k)
    ∙ ap (λ m. n * m) (mul_comm 10 (10 ^ k) ∙ sym (pow-suc 10 k))

pub zeros-IsDigit : (k : ℕ) → All IsDigit (zeros k)
zeros-IsDigit zero = tt
zeros-IsDigit (suc k) = ((omega arith, omega arith), zeros-IsDigit k)

pub length-zeros : (k : ℕ) → length (zeros k) ≡ k
length-zeros zero = omega arith
length-zeros (suc k) = omega (arith, length-zeros k)

-- What is trimmed are zeros.
pub trim_zeros_lem : (cs : Bytes) → (z : ℕ) × (cs ≡ trim_zeros cs ++ zeros z)
unfolding trim_zeros
trim_zeros_lem [] = (0, refl)
trim_zeros_lem (c ∷ cs) = before (trim_zeros cs) (trim_zeros_lem cs)
  where
    before :
        (t : Bytes)
        → ((z : ℕ) × (cs ≡ t ++ zeros z))
        → (z : ℕ) × (c ∷ cs ≡ before_zeros c t ++ zeros z)
    before (x ∷ xs) (z, e) = (z, ap (λ r. c ∷ r) e)
    before [] (z, e) = elim (Bool-cases (c == 48)) [
      | inl y ↦ (suc z, rw y (ap (λ d. d ∷ cs) ((==_iff c 48).0 y) ∙ ap (λ r. 48 ∷ r) e))
      | inr y ↦ (z, rw y (ap (λ r. c ∷ r) e))
    ]

pub all_digits_lem : (cs : Bytes) → All IsDigit cs → all_digits cs ≡ true
all_digits_lem [] h = refl
all_digits_lem (c ∷ cs) ((l, k), hs) =
    let one : is_digit c ≡ true = ground arith in rw one (all_digits_lem cs hs)
