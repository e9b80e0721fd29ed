-- ===== src/Wire/Cursor/Strings.antt =====
-- The search for the terminator of a string, by index and by unread bytes.
use txmlconnector.Common.{ℕ, zero, suc, ◌+◌, ◌-◌, ◌≤◌, ◌<◌, ◌≡◌, refl, sym, ap, ◌∙◌, arith}
use txmlconnector.Common.{[], ◌∷◌, ◌++◌, Bytes, length, take, drop, get_or}
use txmlconnector.Common.{
  take-snoc, length-drop, drop-drop, get_or-drop, append-nil, append_assoc, inl, inr, Bool-cases,
}
use txmlconnector.Common.{◌==◌, if◌then◌else◌, Result, ok, err, short_buffer, ◌>>=◌}
use txmlconnector.Wire
use txmlconnector.Wire.Reader.{extra_bytes, little_endian, packed_word}
use txmlconnector.Wire.Cursor.{Reader, remaining, slice, string_from, string}
use txmlconnector.Wire.Cursor.View.{view, add-sub_self, add-sub_back, suc-sub}

string_from_past :
    (f : ℕ) (r : Reader) (i max : ℕ) → r.off + max < i → string_from f i max r ≡ err short_buffer
unfolding string_from
string_from_past zero r i max h = refl
string_from_past (suc f) r i max h = ground arith

-- One round of the loop, within the limit.
string_from_step :
    (f : ℕ) (r : Reader) (i max b : ℕ) (t : Bytes)
    → drop i r.buf ≡ b ∷ t
    → i ≤ r.off + max
    → view (string_from (suc f) i max r)
      ≡ (if b == 0 then ok (slice r.buf r.off i, t) else view (string_from f (i + 1) max r))
unfolding string_from
string_from_step f r i max b t e h =
    let found : get_or r.buf i 0 ≡ b =
      ground (arith, get_or-drop i 0 r.buf 0, ap (λ (x : Bytes). get_or x 0 0) e) in
    let behind : drop (i + 1) r.buf ≡ t =
      sym (drop-drop i 1 r.buf) ∙ ap (λ (x : Bytes). drop 1 x) e in
    ground (arith, found, behind)

-- What is read so far in front of what is still read.
abbrev glue : Bytes → Result (Bytes × Bytes) → Result (Bytes × Bytes)
glue front (ok (s, rest)) = ok (front ++ s, rest)
glue front (err x) = err x

slice_longer :
    (r : Reader) (i b : ℕ) (t : Bytes)
    → drop i r.buf ≡ b ∷ t
    → r.off ≤ i
    → slice r.buf r.off (i + 1) ≡ slice r.buf r.off i ++ (b ∷ [])
slice_longer r i b t e h =
    let at_i : drop (i - r.off) (drop r.off r.buf) ≡ b ∷ t =
      drop-drop r.off (i - r.off) r.buf
      ∙ ap (λ (n : ℕ). drop n r.buf) (add-sub_back r.off i h)
      ∙ e in
    let within : i - r.off < length (drop r.off r.buf) =
      omega (arith, length-drop (i - r.off) (drop r.off r.buf), ap {B = ℕ} length at_i) in
    let byte_there : get_or (drop r.off r.buf) (i - r.off) 0 ≡ b = ground (
      arith,
      get_or-drop (i - r.off) 0 (drop r.off r.buf) 0,
      ap (λ (x : Bytes). get_or x 0 0) at_i,
    ) in
    ap (λ (n : ℕ). take n (drop r.off r.buf)) (suc-sub r.off i h)
    ∙ take-snoc (i - r.off) (drop r.off r.buf) 0 within
    ∙ ap (λ (x : ℕ). take (i - r.off) (drop r.off r.buf) ++ (x ∷ [])) byte_there

-- The loop at index `i`, where the NUL may come within `k` more bytes.
string_from_refines :
    (t : Bytes) (r : Reader) (i k max : ℕ)
    → drop i r.buf ≡ t
    → r.off ≤ i
    → i + k ≡ r.off + max
    → view (string_from (length t) i max r) ≡ glue (slice r.buf r.off i) (Wire.Reader.string k t)
unfolding Wire.Reader.string
string_from_refines [] r i zero max e h m = unfold string_from in refl
string_from_refines [] r i (suc k) max e h m = unfold string_from in refl
string_from_refines (b ∷ t) r i zero max e h m =
    string_from_step (length t) r i max b t e (omega arith) ∙ elim (Bool-cases (b == 0)) [
      | inl nul ↦ rw nul (rw (append-nil (slice r.buf r.off i)))
      | inr more ↦ rw more (rw (string_from_past (length t) r (i + 1) max (omega arith)))
    ]
string_from_refines (b ∷ t) r i (suc k) max e h m =
    string_from_step (length t) r i max b t e (omega arith) ∙ elim (Bool-cases (b == 0)) [
      | inl nul ↦ rw nul (rw (append-nil (slice r.buf r.off i)))
      | inr more ↦ rw more (
          string_from_refines t r (i + 1) k max behind (omega arith) (omega arith)
          ∙ regroup (Wire.Reader.string k t))
    ]
  where
    behind : drop (i + 1) r.buf ≡ t
    behind = sym (drop-drop i 1 r.buf) ∙ ap (λ (x : Bytes). drop 1 x) e

    regroup :
        (p : Result (Bytes × Bytes))
        → glue (slice r.buf r.off (i + 1)) p
          ≡ glue (slice r.buf r.off i) (◌>>=◌ {B = Bytes × Bytes} p (λ (s, rest). ok (b ∷ s, rest)))
    regroup (ok (s, rest)) =
        ap (λ (x : Bytes). ok (x, rest))
          (ap (λ (x : Bytes). x ++ s) (slice_longer r i b t e h)
            ∙ append_assoc (slice r.buf r.off i) (b ∷ []) s)
    regroup (err x) = refl

glue-nil : (p : Result (Bytes × Bytes)) → glue [] p ≡ p
glue-nil (ok (s, rest)) = refl
glue-nil (err x) = refl

pub string_refines :
    (max : ℕ) (r : Reader) → view (string max r) ≡ Wire.Reader.string max (remaining r)
unfolding string remaining
string_refines max r = rw (sym (length-drop r.off r.buf)) (
    string_from_refines (drop r.off r.buf) r r.off max max refl (omega arith) refl
    ∙ ap (λ (n : ℕ). glue (take n (drop r.off r.buf)) (Wire.Reader.string max (drop r.off r.buf)))
        (add-sub_self r.off)
    ∙ glue-nil _)
