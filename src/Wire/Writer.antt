-- ===== src/Wire/Writer.antt =====
-- native/wire/codec.go, `Writer`. A writer is the bytes written so far; each method appends.
use txmlconnector.Common.{ℕ, zero, suc, ◌+◌, ◌*◌, ◌/◌, ◌%◌}
use txmlconnector.Common.{◌||◌, [], ◌∷◌, ◌++◌, Bytes, length, take, ◌==◌, if◌then◌else◌}
use txmlconnector.Wire.Words.{
  min_int64, min_int32_wide, is_negative, negate, sign_extend, big_endian16,
}

unfoldable pub write_byte : Bytes → ℕ → Bytes
write_byte w v = w ++ (v ∷ [])

unfoldable pub write_uint16 : Bytes → ℕ → Bytes
write_uint16 w v = w ++ big_endian16 v

-- `s[:indexNUL(s)]`, or all of `s` where it holds no NUL.
unfoldable pub before_nul : Bytes → Bytes
before_nul [] = []
before_nul (c ∷ s) = if c == 0 then [] else c ∷ before_nul s

unfoldable pub write_string : Bytes → Bytes → ℕ → Bytes
write_string w s max = (w ++ take max (before_nul s)) ++ (0 ∷ [])

unfoldable pub write_raw : Bytes → Bytes → Bytes
write_raw w b = w ++ b

-- The loop that fills `ext`: the bytes of `m`, lowest first, up to the last that is not 0. The
-- first argument is the room left in the array of eight.
unfoldable pub ext_bytes : ℕ → ℕ → Bytes
ext_bytes zero m = []
ext_bytes (suc room) m = if m == 0 then [] else (m % 256) ∷ ext_bytes room (m / 256)

-- `m` for a signed `v`: the magnitude, and 0 for the two minimum values.
unfoldable pub magnitude : ℕ → ℕ
magnitude v =
    if is_negative v then if v == min_int32_wide || v == min_int64 then 0 else negate v else v

-- `ext[:n]` with the count of the head byte. Seven bytes are sent as eight, the last of them 0.
unfoldable pub padded : Bytes → Bytes
padded ext = if length ext == 7 then ext ++ (0 ∷ []) else ext

unfoldable pub ext_count : Bytes → ℕ
ext_count ext = if length ext == 7 || length ext == 8 then 7 else length ext

-- The fields of the head byte lie in bits of their own, so `|` is a sum.
unfoldable pub append_packed : Bytes → ℕ → Bytes
unfolding ext_bytes magnitude padded ext_count
append_packed w v =
    let m = magnitude v in
    let sign : ℕ = if is_negative v then 8 else 0 in
    let ext = ext_bytes 8 (m / 16) in w ++ ((m % 16 * 16 + sign + ext_count ext) ∷ padded ext)

unfoldable pub write_int32 : Bytes → ℕ → Bytes
write_int32 w v = append_packed w (sign_extend v)

unfoldable pub write_int64 : Bytes → ℕ → Bytes
write_int64 w v = append_packed w v
