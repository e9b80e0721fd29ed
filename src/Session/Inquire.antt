-- ===== src/Session/Inquire.antt =====
-- native/session/inquireut.go: a document that comes in chunks. The loop ends with the replies that the
-- server gives; the zlib reader is a parameter, which returns the document or that there is none.
pub mod Reassembly
use txmlconnector.Common.{
  ℕ, ◌+◌, ◌%◌, ◌^◌, Bool, not, ◌||◌, Option, none, some, List, [], ◌∷◌, ◌++◌, Bytes, length, ltb,
  leb, ◌==◌, if◌then◌else◌,
}
use txmlconnector.Common.{Error, Result, ok, err, bad_value, io_error, too_large, trailing_bytes}
use txmlconnector.Wire.Words.{is_negative32, truncate32}
use txmlconnector.Wire.Reader.{Read, byte, raw, int32}
use txmlconnector.Records.Parser.{Parser, ◌>>=◌, ◌>>◌, pure, fail, value_of}
use txmlconnector.Session.Payloads.{inquire_ut_payload}

pub record Chunk : Type 0 where
  pub full : ℕ
  pub total : ℕ
  pub bytes : Bytes

-- `x <= 0` on int32, and `a >= b`.
abbrev pub not_positive32 : ℕ → Bool
not_positive32 x = is_negative32 x || x == 0

-- `x < 2^31` moved to an order on numbers.
abbrev pub biased : ℕ → ℕ
biased x = (x + 2 ^ 31) % 2 ^ 32

-- The chunk behind its sizes.
unfoldable pub sized_chunk : ℕ → ℕ → ℕ → Parser Chunk
sized_chunk full total n =
    if not_positive32 n || not_positive32 total
    then fail bad_value
    else (raw n >>= λ bytes. pure (record { full = full; total = total; bytes = bytes }))

unfoldable pub read_chunk : Parser Chunk
read_chunk = do byte; full ← int32; total ← int32; n ← int32; sized_chunk full total n

-- What `InquireUT` returns, and the offsets that it asked for.
pub record Inquired : Type 0 where
  pub offsets : List ℕ
  pub document : Result Bytes

unfoldable pub inflated : (Bytes → Option Bytes) → ℕ → Bytes → Result Bytes
inflated inflate full compressed = elim (inflate compressed) [
  | none ↦ err bad_value
  | some doc ↦ if truncate32 (length doc) == full then ok doc else err trailing_bytes
]

-- One request at the offset, and what follows it.
abbrev pub asked : ℕ → Inquired → Inquired
asked offset i = record { offsets = offset ∷ i.offsets; document = i.document }

abbrev pub ended_with : Result Bytes → Inquired
ended_with doc = record { offsets = []; document = doc }

-- The loop over the replies, with the bytes that came so far. `io_error` is the request that gets no
-- reply.
unfoldable pub inquire : (Bytes → Option Bytes) → Bytes → List Bytes → Inquired
inquire inflate compressed [] = asked (truncate32 (length compressed)) (ended_with (err io_error))
inquire inflate compressed (reply ∷ replies) =
    asked (truncate32 (length compressed)) (elim (read_chunk reply) [
      | err e ↦ ended_with (err e)
      | ok (chunk, r) ↦
          let compressed' = compressed ++ chunk.bytes in
          let more = inquire inflate compressed' replies in
          if leb (biased chunk.total) (biased (truncate32 (length compressed')))
          then ended_with (inflated inflate chunk.full compressed')
          else more
    ])
