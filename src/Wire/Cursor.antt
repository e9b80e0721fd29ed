-- ===== src/Wire/Cursor.antt =====
-- native/wire/codec.go, `Reader` with its buffer and offset. On a reader inside its buffer each
-- method does what its version on the unread bytes does.
pub mod View
mod Packed
mod Strings
pub mod Refines
use txmlconnector.Common.{
  ℕ, zero, suc, ◌+◌, ◌-◌, ◌*◌, ◌/◌, ◌%◌, ◌^◌, ◌≤◌, ◌<◌, ◌≡◌, refl, ap, ◌∙◌, arith,
}
use txmlconnector.Common.{Bool, true, false, ◌&&◌, [], ◌∷◌, ◌++◌, Bytes, length, take, drop, get_or}
use txmlconnector.Common.{
  ltb, leb, ◌==◌, if◌then◌else◌, Result, ok, err, short_buffer, skip_range, ◌>>=◌,
}
use txmlconnector.Wire.Words.{min_int64, min_int32, negate, truncate32}
use txmlconnector.Wire.Reader.{extra_bytes}

pub record Reader : Type 0 where
  pub buf : Bytes
  pub off : ℕ

pub new_reader : Bytes → Reader
new_reader b = record { buf = b; off = 0 }

-- `buf[i:j]`.
abbrev pub slice : Bytes → ℕ → ℕ → Bytes
slice buf i j = take (j - i) (drop i buf)

pub len : Reader → ℕ
len r = length r.buf - r.off

pub remaining : Reader → Bytes
remaining r = drop r.off r.buf

abbrev advance : ℕ → Reader → Reader
advance n r = record r { off = r.off + n }

pub skip : ℕ → Reader → Result Reader
unfolding len
skip n r = if ltb (len r) n then err skip_range else ok (advance n r)

pub byte : Reader → Result (ℕ × Reader)
unfolding len
byte r = if ltb (len r) 1 then err short_buffer else ok (get_or r.buf r.off 0, advance 1 r)

pub uint16 : Reader → Result (ℕ × Reader)
unfolding len
uint16 r =
    if ltb (len r) 2
    then err short_buffer
    else ok (get_or r.buf r.off 0 * 256 + get_or r.buf (r.off + 1) 0, advance 2 r)

pub raw : ℕ → Reader → Result (Bytes × Reader)
unfolding len
raw n r =
    if ltb (len r) n then err short_buffer else ok (slice r.buf r.off (r.off + n), advance n r)

-- The loop of `String` at index `i`; the fuel is the bytes from `i` to the end of the buffer.
string_from : ℕ → ℕ → ℕ → Reader → Result (Bytes × Reader)
string_from zero i max r = err short_buffer
string_from (suc fuel) i max r =
    let next = string_from fuel (i + 1) max r in
    if leb (i - r.off) max
    then if get_or r.buf i 0 == 0 then ok (slice r.buf r.off i, record r { off = i + 1 }) else next
    else err short_buffer

pub string : ℕ → Reader → Result (Bytes × Reader)
unfolding string_from len
string max r = string_from (len r) r.off max r

-- `for i := n; i >= 1; i-- { m = m<<8 | uint64(buf[off+i]) }`
extra_from : ℕ → ℕ → Reader → ℕ
extra_from m zero r = m
extra_from m (suc i) r = extra_from (m * 256 % 2 ^ 64 + get_or r.buf (r.off + suc i) 0) i r

packed_value : ℕ → ℕ → Reader → ℕ
unfolding extra_from
packed_value head n r =
    let m = extra_from 0 n r * 16 % 2 ^ 64 + head / 16 in
    if head / 8 % 2 == 1 then if m == 0 then min_int64 else negate m else m

pub packed : Bool → Reader → Result (ℕ × Reader)
unfolding len
packed wide r =
    if ltb (len r) 1
    then err short_buffer
    else let head = get_or r.buf r.off 0 in
      let n = extra_bytes wide head in
      if ltb (len r) (n + 1)
      then err short_buffer
      else ok (packed_value head n r, advance (n + 1) r)

pub int32 : Reader → Result (ℕ × Reader)
unfolding packed
int32 r = packed false r >>= λ (v, r'). ok (if v == min_int64 then min_int32 else truncate32 v, r')

pub int64 : Reader → Result (ℕ × Reader)
unfolding packed
int64 r = packed true r
