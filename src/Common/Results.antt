-- ===== src/Common/Results.antt =====
-- Go's pair of a value and an error. The text of an error is for the log and is left out; what the
-- callers tell apart by `errors.Is` and `errors.As` is a constructor.
use Prim.Native.Nat.{ℕ}

pub data Error : Type 0 where
  short_buffer skip_range header_crc too_large io_error : Error
  bad_value trailing_bytes : Error
  -- `ErrUnknownRecord` by itself, with no record named.
  unknown_layout : Error
  -- No Go value: a loop of the model ran out of fuel.
  stuck : Error
  -- The flags and the type of the damaged frame.
  payload_crc : ℕ → ℕ → Error
  -- The tag of the record and the offset that is reported.
  unknown_record : ℕ → ℕ → Error

pub data Result {ℓ} (A : Type ℓ) : Type ℓ where
  ok : A → Result A
  err : Error → Result A

infixl 5 ◌>>=◌
abbrev pub ◌>>=◌ {ℓ κ} : {A : Type ℓ} {B : Type κ} → Result A → (A → Result B) → Result B
ok x >>= next = next x
err why >>= next = err why
