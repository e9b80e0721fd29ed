-- ===== src/Wire/Packed.antt =====
-- Packed integers: what `append_packed` writes, `packed` reads back, with any bytes behind it.
pub mod Sizes
use txmlconnector.Common.{ℕ, zero, suc, ◌+◌, ◌*◌, ◌/◌, ◌%◌, ◌^◌, ◌≤◌, ◌<◌, ◌≡◌, refl, arith}
use txmlconnector.Common.{Bool, true, false, [], ◌∷◌, ◌++◌, Bytes, length}
use txmlconnector.Common.{length-append, take-append, drop-append, ◌==◌, if◌then◌else◌}
use txmlconnector.Common.{All, All-append, IsByte, ok, ap, ◌∙◌, ◌⊎◌, inl, inr, Bool-cases, le→ltb}
use txmlconnector.Wire.Words.{
  min_int64, min_int32_wide, is_negative, negate, sign_extend, IsWord32, IsWord64,
}
use txmlconnector.Wire.Writer.{ext_bytes, magnitude, padded, ext_count, append_packed}
use txmlconnector.Wire.Writer.{write_int32, write_int64}
use txmlconnector.Wire.Reader.{little_endian, extra_bytes, packed_word, packed, int32, int64}
use native.Mathlib.Nat.{pow-suc}

pub below : (f m : ℕ) → m < 256 ^ suc f → m / 256 < 256 ^ f
below f m h = omega (arith, pow-suc 256 f)

pub length-ext_bytes : (f m : ℕ) → length (ext_bytes f m) ≤ f
unfolding ext_bytes
length-ext_bytes zero m = omega arith
length-ext_bytes (suc f) m = ground (arith, length-ext_bytes f (m / 256))

-- With room enough the extra bytes hold the number.
little_endian-ext_bytes : (f m : ℕ) → m < 256 ^ f → m < 2 ^ 60 → little_endian (ext_bytes f m) ≡ m
unfolding ext_bytes little_endian
little_endian-ext_bytes zero m h k = omega arith
little_endian-ext_bytes (suc f) m h k =
    ground (arith, little_endian-ext_bytes f (m / 256) (below f m h) (omega arith))

little_endian_pad : (bs : Bytes) → little_endian (bs ++ (0 ∷ [])) ≡ little_endian bs
unfolding little_endian
little_endian_pad [] = refl
little_endian_pad (b ∷ bs) = ground (arith, little_endian_pad bs)

little_endian-padded : (bs : Bytes) → little_endian (padded bs) ≡ little_endian bs
unfolding padded
little_endian-padded bs = ground (arith, little_endian_pad bs)

pub length-padded : (bs : Bytes) → length (padded bs) ≡ (if length bs == 7 then 8 else length bs)
unfolding padded
length-padded bs = ground (arith, length-append bs (0 ∷ []))

ext_bytes-IsByte : (f m : ℕ) → All IsByte (ext_bytes f m)
unfolding ext_bytes
ext_bytes-IsByte zero m = omega arith
ext_bytes-IsByte (suc f) m = ground (arith, ext_bytes-IsByte f (m / 256))

-- Reading the head byte and its extra bytes.
pub packed-append :
    (wide : Bool) (head : ℕ) (ext rest : Bytes)
    → extra_bytes wide head ≡ length ext
    → packed wide (head ∷ (ext ++ rest)) ≡ ok (packed_word head ext, rest)
unfolding packed
packed-append wide head ext rest e = rw e (
    rw (le→ltb (length (ext ++ rest)) (length ext) (omega (arith, length-append ext rest)))
      (rw (take-append ext rest, drop-append ext rest)))

-- The head byte that `append_packed` writes for the sign, the magnitude and the extra bytes.
pub head_of : ℕ → ℕ → Bytes → ℕ
head_of sign m ext = m % 16 * 16 + sign + ext_count ext

extra_bytes-head_of :
    (sign m : ℕ) (ext : Bytes)
    → (sign ≡ 0) ⊎ (sign ≡ 8)
    → length ext ≤ 8
    → extra_bytes true (head_of sign m ext) ≡ length (padded ext)
unfolding extra_bytes head_of ext_count
extra_bytes-head_of sign m ext s h = ground (arith, length-padded ext)

extra_bytes-head_of_narrow :
    (sign m : ℕ) (ext : Bytes)
    → (sign ≡ 0) ⊎ (sign ≡ 8)
    → length ext ≤ 6
    → extra_bytes false (head_of sign m ext) ≡ length (padded ext)
unfolding extra_bytes head_of ext_count
extra_bytes-head_of_narrow sign m ext s h = ground (arith, length-padded ext)

packed_word-head_of :
    (sign m : ℕ)
    → (sign ≡ 0) ⊎ (sign ≡ 8)
    → m < 2 ^ 64
    → packed_word (head_of sign m (ext_bytes 8 (m / 16))) (padded (ext_bytes 8 (m / 16)))
      ≡ (if sign == 8 then if m == 0 then min_int64 else negate m else m)
unfolding packed_word head_of ext_count
packed_word-head_of sign m s h = ground (
  arith,
  little_endian-padded (ext_bytes 8 (m / 16)),
  little_endian-ext_bytes 8 (m / 16),
  length-ext_bytes 8 (m / 16),
)

pub sign_of : ℕ → ℕ
sign_of v = if is_negative v then 8 else 0

pub append_packed_lem :
    (v : ℕ)
    → append_packed [] v
      ≡ head_of (sign_of v) (magnitude v) (ext_bytes 8 (magnitude v / 16))
        ∷ padded (ext_bytes 8 (magnitude v / 16))
unfolding append_packed head_of sign_of
append_packed_lem v = refl

sign_of_cases : (v : ℕ) → (sign_of v ≡ 0) ⊎ (sign_of v ≡ 8)
unfolding sign_of
sign_of_cases v = ground arith

magnitude-lt : (v : ℕ) → IsWord64 v → magnitude v < 2 ^ 64
unfolding magnitude
magnitude-lt v h = ground arith

-- The signed number of a sign and a magnitude: all values but the 32-bit minimum come back.
value_back :
    (v : ℕ)
    → IsWord64 v
    → (if sign_of v == 8
        then if magnitude v == 0 then min_int64 else negate (magnitude v)
        else magnitude v)
      ≡ (if v == min_int32_wide then min_int64 else v)
unfolding sign_of magnitude
value_back v h = ground arith

packed-append_packed :
    (wide : Bool) (v : ℕ) (rest : Bytes)
    → IsWord64 v
    → extra_bytes wide (head_of (sign_of v) (magnitude v) (ext_bytes 8 (magnitude v / 16)))
      ≡ length (padded (ext_bytes 8 (magnitude v / 16)))
    → packed wide (append_packed [] v ++ rest)
      ≡ ok (if v == min_int32_wide then min_int64 else v, rest)
packed-append_packed wide v rest h e = rw (append_packed_lem v) (
    packed-append wide _ _ rest e
    ∙ ap (λ (w : ℕ). ok (w, rest))
        (packed_word-head_of (sign_of v) (magnitude v) (sign_of_cases v) (magnitude-lt v h)
          ∙ value_back v h))

-- `int64` reads back every int64 that `write_int64` wrote and leaves the bytes behind it, but for
-- -2^31, which comes back as the minimum int64.
pub int64-write_int64 :
    (v : ℕ) (rest : Bytes)
    → IsWord64 v
    → int64 (write_int64 [] v ++ rest) ≡ ok (if v == min_int32_wide then min_int64 else v, rest)
unfolding int64 write_int64
int64-write_int64 v rest h =
    packed-append_packed true v rest h
      (extra_bytes-head_of (sign_of v) (magnitude v) _ (sign_of_cases v) (length-ext_bytes 8 _))

pub ext_bytes_short : (f m : ℕ) → m < 256 ^ f → (g : ℕ) → f ≤ g → length (ext_bytes g m) ≤ f
unfolding ext_bytes
ext_bytes_short zero m h zero k = omega arith
ext_bytes_short zero m h (suc g) k = ground arith
ext_bytes_short (suc f) m h zero k = omega arith
ext_bytes_short (suc f) m h (suc g) k =
    ground (arith, ext_bytes_short f (m / 256) (below f m h) g (omega arith))

magnitude-sign_extend : (v : ℕ) → IsWord32 v → magnitude (sign_extend v) < 2 ^ 32
unfolding magnitude
magnitude-sign_extend v h = ground arith

-- `int32` reads back every int32 that `write_int32` wrote, the minimum included, and leaves the
-- bytes behind it.
pub int32-write_int32 :
    (v : ℕ) (rest : Bytes) → IsWord32 v → int32 (write_int32 [] v ++ rest) ≡ ok (v, rest)
unfolding int32 write_int32
int32-write_int32 v rest h =
    rw
      (packed-append_packed false (sign_extend v) rest (ground arith) (
        extra_bytes-head_of_narrow _ _ _ (sign_of_cases (sign_extend v))
          (ext_bytes_short 6 _ (omega (arith, magnitude-sign_extend v h)) 8 (omega arith))))
      (ground arith)
