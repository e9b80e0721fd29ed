-- ===== src/Wire/Reader.antt =====
-- native/wire/codec.go, `Reader`, by its unread bytes `buf[off:]`: a method takes them and returns
-- those that it leaves. `Wire.Cursor` has the buffer with its offset.
use txmlconnector.Common.{ℕ, zero, suc, ◌+◌, ◌*◌, ◌/◌, ◌%◌, ◌^◌}
use txmlconnector.Common.{Bool, true, false, ◌&&◌, [], ◌∷◌, Bytes, length, take, drop}
use txmlconnector.Common.{
  ltb, ◌==◌, if◌then◌else◌, Result, ok, err, short_buffer, skip_range, ◌>>=◌,
}
use txmlconnector.Wire.Words.{min_int64, min_int32, negate, truncate32}

-- What a read returns: its value and the unread bytes.
abbrev pub Read : Type 0 → Type 0
Read A = Result (A × Bytes)

unfoldable pub skip : ℕ → Bytes → Result Bytes
skip n r = if ltb (length r) n then err skip_range else ok (drop n r)

unfoldable pub byte : Bytes → Read ℕ
byte [] = err short_buffer
byte (b ∷ r) = ok (b, r)

unfoldable pub uint16 : Bytes → Read ℕ
uint16 (a ∷ b ∷ r) = ok (a * 256 + b, r)
uint16 _ = err short_buffer

unfoldable pub raw : ℕ → Bytes → Read Bytes
raw n r = if ltb (length r) n then err short_buffer else ok (take n r, drop n r)

-- The NUL is looked for at the first `max + 1` bytes.
unfoldable pub string : ℕ → Bytes → Read Bytes
string max [] = err short_buffer
string zero (b ∷ r) = if b == 0 then ok ([], r) else err short_buffer
string (suc max) (b ∷ r) =
    let rest = string max r in if b == 0 then ok ([], r) else rest >>= λ (s, r'). ok (b ∷ s, r')

-- `m = m<<8 | b` from the last extra byte to the first, on uint64.
unfoldable pub little_endian : Bytes → ℕ
little_endian [] = 0
little_endian (b ∷ bs) = little_endian bs * 256 % 2 ^ 64 + b

unfoldable pub extra_bytes : Bool → ℕ → ℕ
extra_bytes wide head = if wide && head % 8 == 7 then 8 else head % 8

unfoldable pub packed_word : ℕ → Bytes → ℕ
packed_word head ext =
    let m = little_endian ext * 16 % 2 ^ 64 + head / 16 in
    if head / 8 % 2 == 1 then if m == 0 then min_int64 else negate m else m

unfoldable pub packed : Bool → Bytes → Read ℕ
packed wide [] = err short_buffer
packed wide (head ∷ r) =
    let n = extra_bytes wide head in
    if ltb (length r) n then err short_buffer else ok (packed_word head (take n r), drop n r)

unfoldable pub int32 : Bytes → Read ℕ
unfolding packed
int32 r = packed false r >>= λ (v, r'). ok (if v == min_int64 then min_int32 else truncate32 v, r')

unfoldable pub int64 : Bytes → Read ℕ
unfolding packed
int64 r = packed true r
