-- ===== src/Wire/Words.antt =====
-- Machine words. A Go `uint16`, `uint32` or `uint64` is a number below the power of two; an `int32`
-- or `int64` is its two's complement bit pattern, so a conversion between signed and unsigned of one
-- width changes nothing, and `x < 0` asks for the top bit.
use txmlconnector.Common.{ℕ, ◌+◌, ◌-◌, ◌/◌, ◌%◌, ◌^◌, ◌<◌}
use txmlconnector.Common.{Bool, [], ◌∷◌, Bytes, leb, if◌then◌else◌}

abbrev pub IsU16 : ℕ → Type 0
IsU16 v = v < 2 ^ 16

abbrev pub IsWord32 : ℕ → Type 0
IsWord32 v = v < 2 ^ 32

abbrev pub IsWord64 : ℕ → Type 0
IsWord64 v = v < 2 ^ 64

-- `math.MinInt64`, and `math.MinInt32` as an int32 and as an int64.
abbrev pub min_int64 : ℕ
min_int64 = 2 ^ 63

abbrev pub min_int32 : ℕ
min_int32 = 2 ^ 31

abbrev pub min_int32_wide : ℕ
min_int32_wide = 2 ^ 64 - 2 ^ 31

abbrev pub is_negative : ℕ → Bool
is_negative v = leb (2 ^ 63) v

abbrev pub is_negative32 : ℕ → Bool
is_negative32 v = leb (2 ^ 31) v

-- `-v` on int64.
abbrev pub negate : ℕ → ℕ
negate v = (2 ^ 64 - v) % 2 ^ 64

-- `a + b` and `a - b` on int64.
abbrev pub add64 : ℕ → ℕ → ℕ
add64 a b = (a + b) % 2 ^ 64

abbrev pub sub64 : ℕ → ℕ → ℕ
sub64 a b = (a + 2 ^ 64 - b) % 2 ^ 64

-- `int64(v)` of an int32, and `int32(v)` of an int64.
abbrev pub sign_extend : ℕ → ℕ
sign_extend v = if is_negative32 v then v + (2 ^ 64 - 2 ^ 32) else v

abbrev pub truncate32 : ℕ → ℕ
truncate32 v = v % 2 ^ 32

-- `binary.BigEndian.PutUint16`.
abbrev pub big_endian16 : ℕ → Bytes
big_endian16 v = (v / 256 % 256) ∷ (v % 256) ∷ []
