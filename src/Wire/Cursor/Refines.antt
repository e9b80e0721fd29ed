-- ===== src/Wire/Cursor/Refines.antt =====
-- The reader with its offset refines the reads of the unread bytes.
use txmlconnector.Common.{ℕ, ◌≡◌, refl, ap, arith}
use txmlconnector.Common.{true, [], ◌∷◌, Bytes, length, take, drop, get_or}
use txmlconnector.Common.{length-drop, drop-drop, get_or-drop}
use txmlconnector.Wire
use txmlconnector.Wire.Reader.{extra_bytes, little_endian, packed_word}
use txmlconnector.Wire.Cursor.{Reader, remaining, skip, byte, uint16, raw, string, int32, int64}
use txmlconnector.Wire.Cursor.View.{view, view_skip, add-sub}
use txmlconnector.Wire.Cursor.Packed.{packed_refines, int32_refines}
use txmlconnector.Wire.Cursor.Strings.{string_refines}

skip_refines : (n : ℕ) (r : Reader) → view_skip (skip n r) ≡ Wire.Reader.skip n (remaining r)
unfolding skip Wire.Reader.skip remaining
skip_refines n r = rw (length-drop r.off r.buf) (rw (drop-drop r.off n r.buf) (ground arith))

raw_refines : (n : ℕ) (r : Reader) → view (raw n r) ≡ Wire.Reader.raw n (remaining r)
unfolding raw Wire.Reader.raw remaining
raw_refines n r = rw (length-drop r.off r.buf) (
    rw (drop-drop r.off n r.buf)
      (ground (arith, ap (λ (k : ℕ). take k (drop r.off r.buf)) (add-sub r.off n))))

byte_refines : (r : Reader) → view (byte r) ≡ Wire.Reader.byte (remaining r)
unfolding byte Wire.Reader.byte remaining
byte_refines r = from (drop r.off r.buf) refl
  where
    from : (t : Bytes) → drop r.off r.buf ≡ t → view (byte r) ≡ Wire.Reader.byte t
    from [] e = ground (arith, length-drop r.off r.buf, ap {B = ℕ} length e)
    from (b ∷ t) e = ground (
      arith,
      length-drop r.off r.buf,
      ap {B = ℕ} length e,
      get_or-drop r.off 0 r.buf 0,
      ap (λ (x : Bytes). get_or x 0 0) e,
      drop-drop r.off 1 r.buf,
      ap (λ (x : Bytes). drop 1 x) e,
    )

uint16_refines : (r : Reader) → view (uint16 r) ≡ Wire.Reader.uint16 (remaining r)
unfolding uint16 Wire.Reader.uint16 remaining
uint16_refines r = from (drop r.off r.buf) refl
  where
    from : (t : Bytes) → drop r.off r.buf ≡ t → view (uint16 r) ≡ Wire.Reader.uint16 t
    from [] e = ground (arith, length-drop r.off r.buf, ap {B = ℕ} length e)
    from (a ∷ []) e = ground (arith, length-drop r.off r.buf, ap {B = ℕ} length e)
    from (a ∷ b ∷ t) e = ground (
      arith,
      length-drop r.off r.buf,
      ap {B = ℕ} length e,
      get_or-drop r.off 0 r.buf 0,
      get_or-drop r.off 1 r.buf 0,
      ap (λ (x : Bytes). get_or x 0 0) e,
      ap (λ (x : Bytes). get_or x 1 0) e,
      drop-drop r.off 2 r.buf,
      ap (λ (x : Bytes). drop 2 x) e,
    )

-- From any buffer and offset, each method of the reader returns the value or the error that its
-- version on the unread bytes returns, and leaves the same bytes unread.
pub reader_refines :
    (r : Reader) (n : ℕ)
    → (view_skip (skip n r) ≡ Wire.Reader.skip n (remaining r))
      × (view (byte r) ≡ Wire.Reader.byte (remaining r))
      × (view (uint16 r) ≡ Wire.Reader.uint16 (remaining r))
      × (view (raw n r) ≡ Wire.Reader.raw n (remaining r))
      × (view (string n r) ≡ Wire.Reader.string n (remaining r))
      × (view (int32 r) ≡ Wire.Reader.int32 (remaining r))
      × (view (int64 r) ≡ Wire.Reader.int64 (remaining r))
unfolding int64 Wire.Reader.int64
reader_refines r n = (
  skip_refines n r,
  byte_refines r,
  uint16_refines r,
  raw_refines n r,
  string_refines n r,
  int32_refines r,
  packed_refines true r,
)
