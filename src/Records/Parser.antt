-- ===== src/Records/Parser.antt =====
-- Reading in sequence. A method of the reader takes the unread bytes; the source's `if err != nil {
-- return }` after each call is the bind. A loop over items runs until an item says that it is the
-- last, on as much fuel as there are bytes.
pub mod Local
pub mod Basic
pub mod Loop
pub mod Follows
use txmlconnector.Common.{
  ℕ, zero, suc, ◌/◌, ◌%◌, ◌^◌, Result, trailing_bytes, Bool, true, false, Option, none, some,
}
use txmlconnector.Common.{
  List, [], ◌∷◌, Bytes, length, ◌==◌, if◌then◌else◌, Error, ok, err, bad_value, stuck,
}
use txmlconnector.Wire.Reader.{Read, byte}

abbrev pub Parser : Type 0 → Type 0
Parser A = Bytes → Read A

infixl 5 ◌>>=◌ ◌>>◌
unfoldable pub ◌>>=◌ : {A B : Type 0} → Parser A → (A → Parser B) → Parser B
◌>>=◌ m next r = elim (m r) [ ok (a, r') ↦ next a r' | err e ↦ err e ]

unfoldable pub ◌>>◌ : {A B : Type 0} → Parser A → Parser B → Parser B
unfolding ◌>>=◌
m >> next = m >>= λ _. next

unfoldable pub pure : {A : Type 0} → A → Parser A
pure a r = ok (a, r)

unfoldable pub fail : {A : Type 0} → Error → Parser A
fail e r = err e

unfoldable pub read_until : {A : Type 0} → ℕ → Parser (Option A) → Parser (List A)
read_until zero item = fail stuck
read_until (suc fuel) item =
    let rest = read_until fuel item in
    item >>= λ x. elim x [ none ↦ pure [] | some a ↦ (rest >>= λ items. pure (a ∷ items)) ]

unfoldable pub read_all : {A : Type 0} → Parser (Option A) → Parser (List A)
unfolding read_until
read_all item r = read_until (suc (length r)) item r

-- `readCString`: at most `max` bytes and the NUL, byte by byte.
unfoldable pub read_cstring : ℕ → Parser Bytes
read_cstring zero = byte >>= λ b. if b == 0 then pure [] else fail bad_value
read_cstring (suc max) =
    let rest = read_cstring max in
    byte >>= λ b. if b == 0 then pure [] else (rest >>= λ s. pure (b ∷ s))

-- Bit `k` of a flags word.
abbrev pub has_bit : ℕ → ℕ → Bool
has_bit flags k = flags / 2 ^ k % 2 == 1

-- `if set { v, err = read }` over a field that is `absent` otherwise.
abbrev pub optional : {A : Type 0} → Bool → Parser A → A → Parser A
optional set read absent = if set then read else pure absent

-- The bytes that a reader leaves must be none.
abbrev pub finished : {A : Type 0} → Read A → Result A
finished (ok (a, [])) = ok a
finished (ok (a, b ∷ r)) = err trailing_bytes
finished (err e) = err e

-- The value where bytes may be left.
abbrev pub value_of : {A : Type 0} → Read A → Result A
value_of (ok (a, r)) = ok a
value_of (err e) = err e
