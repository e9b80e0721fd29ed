-- ===== src/Wire/Packed/Sizes.antt =====
-- How many bytes a packed integer takes.
use txmlconnector.Common.{ℕ, zero, suc, ◌-◌, ◌/◌, ◌^◌, ◌≤◌, ◌<◌, ◌≡◌, arith, ◌∙◌, ap}
use txmlconnector.Common.{
  [], length, Bool-cases, inl, inr, ltb→lt, ltb→le, ltb, ◌==◌, ◌||◌, if◌then◌else◌,
}
use txmlconnector.Wire.Words.{min_int64, min_int32_wide, IsWord64}
use txmlconnector.Wire.Writer.{ext_bytes, padded, magnitude, write_int64}
use txmlconnector.Wire.Packed.{length-ext_bytes, ext_bytes_short, length-padded, append_packed_lem}
use native.Mathlib.Nat.{pow-suc}

-- The distance of an int64 from 0.
abbrev pub distance : ℕ → ℕ
distance v = if ltb v (2 ^ 63) then v else 2 ^ 64 - v

-- A nibble of the number stands in the head byte and the rest in as few bytes as hold it, but never in
-- seven.
abbrev pub packed_size : ℕ → ℕ
packed_size m =
    if ltb m (2 ^ 4)
    then 1
    else if ltb m (2 ^ 12)
    then 2
    else if ltb m (2 ^ 20)
    then 3
    else if ltb m (2 ^ 28)
    then 4
    else if ltb m (2 ^ 36)
    then 5
    else if ltb m (2 ^ 44)
    then 6
    else if ltb m (2 ^ 52)
    then 7
    else 9

pow_pos : (k : ℕ) → 1 ≤ 256 ^ k
pow_pos zero = omega arith
pow_pos (suc k) = omega (arith, pow_pos k, pow-suc 256 k)

ext_bytes_long : (k f m : ℕ) → 256 ^ k ≤ m → k < f → suc k ≤ length (ext_bytes f m)
unfolding ext_bytes
ext_bytes_long k zero m h l = elim l [ ]
ext_bytes_long zero (suc f) m h l = ground arith
ext_bytes_long (suc k) (suc f) m h l =
    let rest = ext_bytes_long k f (m / 256) (omega (arith, pow-suc 256 k)) (omega arith) in
    let some_left : 1 ≤ m = omega (arith, pow_pos (suc k)) in ground arith

-- The extra bytes are as many as the digits of the number to the base 256.
digits : (k m : ℕ) → k < 8 → 256 ^ k ≤ m → m < 256 ^ suc k → length (ext_bytes 8 m) ≡ suc k
digits k m l h u =
    omega (arith, ext_bytes_long k 8 m h l, ext_bytes_short (suc k) m u 8 (omega arith))

sized_at :
    (k m : ℕ)
    → k < 8
    → 256 ^ k ≤ m / 16
    → m / 16 < 256 ^ suc k
    → suc (length (padded (ext_bytes 8 (m / 16)))) ≡ (if suc k == 7 then 9 else suc (suc k))
sized_at k m l h u =
    let e = digits k (m / 16) l h u in
    rw (length-padded (ext_bytes 8 (m / 16))) (rw e (ground arith))

sized_long : (m : ℕ) → 256 ^ 6 ≤ m / 16 → suc (length (padded (ext_bytes 8 (m / 16)))) ≡ 9
sized_long m h =
    let most = ext_bytes_long 6 8 (m / 16) h (omega arith) in
    ground (arith, length-padded (ext_bytes 8 (m / 16)), length-ext_bytes 8 (m / 16))

sized_short : (m : ℕ) → m < 2 ^ 4 → suc (length (padded (ext_bytes 8 (m / 16)))) ≡ 1
sized_short m h =
    let none_left = ext_bytes_short 0 (m / 16) (omega arith) 8 (omega arith) in
    ground (arith, length-padded (ext_bytes 8 (m / 16)))

-- The size for a magnitude, from the count of its extra bytes.
sized : (m : ℕ) → suc (length (padded (ext_bytes 8 (m / 16)))) ≡ packed_size m
sized m = elim (Bool-cases (ltb m (2 ^ 4))) [
  | inl e ↦ rw e (sized_short m (ltb→lt m (2 ^ 4) e))
  | inr e0 ↦ rw e0 (elim (Bool-cases (ltb m (2 ^ 12))) [
    | inl e1 ↦ rw e1 (
        sized_at 0 m (omega arith) (omega (arith, ltb→le m (2 ^ 4) e0))
          (omega (arith, ltb→lt m (2 ^ 12) e1)))
    | inr e1 ↦ rw e1 (elim (Bool-cases (ltb m (2 ^ 20))) [
      | inl e2 ↦ rw e2 (
          sized_at 1 m (omega arith) (omega (arith, ltb→le m (2 ^ 12) e1))
            (omega (arith, ltb→lt m (2 ^ 20) e2)))
      | inr e2 ↦ rw e2 (elim (Bool-cases (ltb m (2 ^ 28))) [
        | inl e3 ↦ rw e3 (
            sized_at 2 m (omega arith) (omega (arith, ltb→le m (2 ^ 20) e2))
              (omega (arith, ltb→lt m (2 ^ 28) e3)))
        | inr e3 ↦ rw e3 (elim (Bool-cases (ltb m (2 ^ 36))) [
          | inl e4 ↦ rw e4 (
              sized_at 3 m (omega arith) (omega (arith, ltb→le m (2 ^ 28) e3))
                (omega (arith, ltb→lt m (2 ^ 36) e4)))
          | inr e4 ↦ rw e4 (elim (Bool-cases (ltb m (2 ^ 44))) [
            | inl e5 ↦ rw e5 (
                sized_at 4 m (omega arith) (omega (arith, ltb→le m (2 ^ 36) e4))
                  (omega (arith, ltb→lt m (2 ^ 44) e5)))
            | inr e5 ↦ rw e5 (elim (Bool-cases (ltb m (2 ^ 52))) [
              | inl e6 ↦ rw e6 (
                  sized_at 5 m (omega arith) (omega (arith, ltb→le m (2 ^ 44) e5))
                    (omega (arith, ltb→lt m (2 ^ 52) e6)))
              | inr e6 ↦ rw e6 (sized_long m (omega (arith, ltb→le m (2 ^ 52) e6)))
            ])
          ])
        ])
      ])
    ])
  ])
]

magnitude_lem :
    (v : ℕ)
    → IsWord64 v
    → magnitude v ≡ (if v == min_int32_wide || v == min_int64 then 0 else distance v)
unfolding magnitude
magnitude_lem v h = ground arith

-- A packed int64 takes as few bytes as its distance from 0 allows, of which the first holds four bits and
-- each other one eight, but nine where these would be eight; the least int64 and -2^31 take one.
pub length-write_int64 :
    (v : ℕ)
    → IsWord64 v
    → length (write_int64 [] v)
      ≡ (if v == min_int32_wide || v == min_int64 then 1 else packed_size (distance v))
unfolding write_int64
length-write_int64 v h =
    ap length (append_packed_lem v)
    ∙ sized (magnitude v)
    ∙ ap packed_size (magnitude_lem v h)
    ∙ ground arith
