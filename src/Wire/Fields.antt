-- ===== src/Wire/Fields.antt =====
-- Words, raw bytes and strings: what a writer appends, the reader takes back.
use txmlconnector.Common.{ℕ, zero, suc, ◌≡◌, refl, arith}
use txmlconnector.Common.{[], ◌∷◌, ◌++◌, Bytes, length, take, length-append}
use txmlconnector.Common.{take-append, drop-append, append_assoc, ◌==◌}
use txmlconnector.Common.{ok, inl, inr, Bool-cases, le→ltb}
use txmlconnector.Wire.Words.{IsU16}
use txmlconnector.Wire.Writer.{write_uint16, before_nul, write_string, write_raw}
use txmlconnector.Wire.Reader.{uint16, raw, string}

pub uint16-write_uint16 :
    (v : ℕ) (rest : Bytes) → IsU16 v → uint16 (write_uint16 [] v ++ rest) ≡ ok (v, rest)
unfolding uint16 write_uint16
uint16-write_uint16 v rest h = ground arith

pub raw-write_raw : (b rest : Bytes) → raw (length b) (write_raw [] b ++ rest) ≡ ok (b, rest)
unfolding raw write_raw
raw-write_raw b rest =
    rw (le→ltb (length (b ++ rest)) (length b) (omega (arith, length-append b rest)))
      (rw (take-append b rest, drop-append b rest))

string_taken :
    (s : Bytes) (max : ℕ) (rest : Bytes)
    → string max (take max (before_nul s) ++ (0 ∷ rest)) ≡ ok (take max (before_nul s), rest)
unfolding string before_nul
string_taken [] zero rest = refl
string_taken [] (suc max) rest = refl
string_taken (c ∷ s) zero rest = refl
string_taken (c ∷ s) (suc max) rest = elim (Bool-cases (c == 0)) [
  | inl e ↦ rw e
  | inr e ↦ rw e (rw e (rw (string_taken s max rest)))
]

-- `string` with the limit of the writer reads back the text up to its first NUL and no longer than
-- the limit, and leaves the bytes behind the terminator.
pub string-write_string :
    (s : Bytes) (max : ℕ) (rest : Bytes)
    → string max (write_string [] s max ++ rest) ≡ ok (take max (before_nul s), rest)
unfolding write_string
string-write_string s max rest =
    rw (append_assoc (take max (before_nul s)) (0 ∷ []) rest) (string_taken s max rest)
