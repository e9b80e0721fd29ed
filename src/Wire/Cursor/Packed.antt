-- ===== src/Wire/Cursor/Packed.antt =====
-- The packed integers of the reader with its offset.
use txmlconnector.Common.{
  ℕ, zero, suc, ◌+◌, ◌-◌, ◌*◌, ◌%◌, ◌^◌, ◌≤◌, ◌<◌, ◌≡◌, refl, sym, ap, ◌∙◌, arith,
}
use txmlconnector.Common.{Bool, false, [], ◌∷◌, ◌++◌, Bytes, length, take, drop, get_or}
use txmlconnector.Common.{
  take-snoc, le→ltb, lt→ltb, ltb→lt, ltb→le, length-drop, drop-drop, get_or-drop, inl, inr,
  Bool-cases,
}
use txmlconnector.Common.{ltb, ◌==◌, if◌then◌else◌, Result, ok, err, short_buffer, ◌>>=◌}
use txmlconnector.Wire.Words.{min_int64, min_int32, truncate32}
use txmlconnector.Wire
use mathlib.Core.Path.{ap₂}
use native.Mathlib.Numerals.{add-one}
use txmlconnector.Wire.Reader.{extra_bytes, little_endian, packed_word}
use txmlconnector.Wire.Cursor.{Reader, remaining, extra_from, packed_value, packed, int32}
use txmlconnector.Wire.Cursor.View.{view, head_at, size_at}

-- `little_endian` with the word that the loop starts from.
le_from : ℕ → Bytes → ℕ
le_from m [] = m
le_from m (b ∷ bs) = le_from m bs * 256 % 2 ^ 64 + b

le_from_snoc :
    (m b : ℕ) (xs : Bytes) → le_from m (xs ++ (b ∷ [])) ≡ le_from (m * 256 % 2 ^ 64 + b) xs
unfolding le_from
le_from_snoc m b [] = refl
le_from_snoc m b (x ∷ xs) = rw (le_from_snoc m b xs)

le_from-zero : (xs : Bytes) → le_from 0 xs ≡ little_endian xs
unfolding le_from little_endian
le_from-zero [] = refl
le_from-zero (x ∷ xs) = rw (le_from-zero xs)

extra_from-le_from :
    (r : Reader) (head : ℕ) (tail : Bytes)
    → drop r.off r.buf ≡ head ∷ tail
    → (m n : ℕ) → n ≤ length tail
    → extra_from m n r ≡ le_from m (take n tail)
unfolding extra_from le_from
extra_from-le_from r head tail e m zero h = refl
extra_from-le_from r head tail e m (suc n) h =
    let found : get_or r.buf (r.off + suc n) 0 ≡ get_or tail n 0 =
      sym (get_or-drop r.off (suc n) r.buf 0) ∙ ap (λ (x : Bytes). get_or x (suc n) 0) e in
    rw found (
      extra_from-le_from r head tail e (m * 256 % 2 ^ 64 + get_or tail n 0) n (omega arith)
      ∙ sym (le_from_snoc m (get_or tail n 0) (take n tail))
      ∙ ap (le_from m) (sym (take-snoc n tail 0 h)))

packed_value_lem :
    (r : Reader) (head b : ℕ) (tail : Bytes)
    → drop r.off r.buf ≡ b ∷ tail
    → (n : ℕ) → n ≤ length tail
    → packed_value head n r ≡ packed_word head (take n tail)
unfolding packed_value packed_word
packed_value_lem r head b tail e n h =
    rw (extra_from-le_from r b tail e 0 n h, le_from-zero (take n tail))

after :
    (r : Reader) (b : ℕ) (t : Bytes)
    → drop r.off r.buf ≡ b ∷ t
    → (n : ℕ) → drop (r.off + (n + 1)) r.buf ≡ drop n t
after r b t e n =
    sym (drop-drop r.off (n + 1) r.buf)
    ∙ ap (λ (k : ℕ). drop k (drop r.off r.buf)) (add-one n)
    ∙ ap (λ (x : Bytes). drop (suc n) x) e

packed_fits :
    (wide : Bool) (r : Reader) (b : ℕ) (t : Bytes)
    → drop r.off r.buf ≡ b ∷ t
    → extra_bytes wide b ≤ length t
    → view (packed wide r)
      ≡ ok (packed_word b (take (extra_bytes wide b) t), drop (extra_bytes wide b) t)
unfolding packed
packed_fits wide r b t e h =
    let found : get_or r.buf r.off 0 ≡ b = head_at r b t e in
    let size : length r.buf - r.off ≡ suc (length t) = size_at r b t e in
    rw (found, size)
      (rw (le→ltb (suc (length t)) 1 (omega arith)) (
        rw (le→ltb (suc (length t)) (extra_bytes wide b + 1) (omega arith)) (
          ap₂ (λ (v : ℕ) (x : Bytes). ok (v, x)) (packed_value_lem r b b t e (extra_bytes wide b) h)
            (after r b t e (extra_bytes wide b)))))

packed_short :
    (wide : Bool) (r : Reader) (b : ℕ) (t : Bytes)
    → drop r.off r.buf ≡ b ∷ t
    → length t < extra_bytes wide b
    → packed wide r ≡ err short_buffer
unfolding packed
packed_short wide r b t e h =
    rw (head_at r b t e, size_at r b t e)
      (rw (le→ltb (suc (length t)) 1 (omega arith))
        (rw (lt→ltb (suc (length t)) (extra_bytes wide b + 1) (omega arith))))

packed_empty : (wide : Bool) (r : Reader) → drop r.off r.buf ≡ [] → packed wide r ≡ err short_buffer
unfolding packed
packed_empty wide r e = rw (sym (length-drop r.off r.buf) ∙ ap {B = ℕ} length e)

pub packed_refines :
    (wide : Bool) (r : Reader) → view (packed wide r) ≡ Wire.Reader.packed wide (remaining r)
unfolding Wire.Reader.packed remaining
packed_refines wide r = from (drop r.off r.buf) refl
  where
    from : (t : Bytes) → drop r.off r.buf ≡ t → view (packed wide r) ≡ Wire.Reader.packed wide t
    from [] e = rw (packed_empty wide r e)
    from (b ∷ t) e = elim (Bool-cases (ltb (length t) (extra_bytes wide b))) [
      | inl short ↦ rw short (rw (packed_short wide r b t e (ltb→lt _ _ short)))
      | inr fits ↦ rw fits (packed_fits wide r b t e (ltb→le _ _ fits))
    ]

pub int32_refines : (r : Reader) → view (int32 r) ≡ Wire.Reader.int32 (remaining r)
unfolding int32 Wire.Reader.int32
int32_refines r = from (packed false r) (packed_refines false r)
  where
    from :
        (p : Result (ℕ × Reader))
        → view p ≡ Wire.Reader.packed false (remaining r)
        → view (p >>= λ (v, r'). ok (if v == min_int64 then min_int32 else truncate32 v, r')) ≡ (
            Wire.Reader.packed false (remaining r) >>= λ (v, r').
            ok (if v == min_int64 then min_int32 else truncate32 v, r'))
    from (ok (v, r')) e = rw (← e)
    from (err x) e = rw (← e)
