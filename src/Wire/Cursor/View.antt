-- ===== src/Wire/Cursor/View.antt =====
-- A reader seen as its unread bytes.
use txmlconnector.Common.{ℕ, suc, ◌+◌, ◌-◌, ◌≤◌, ◌≡◌, sym, ap, ◌∙◌, arith}
use txmlconnector.Common.{◌∷◌, Bytes, length, drop, get_or}
use txmlconnector.Common.{length-drop, get_or-drop}
use txmlconnector.Common.{Result, ok, err}
use txmlconnector.Wire.Cursor.{Reader}

-- A result with its reader seen as unread bytes.
abbrev pub view : {A : Type 0} → Result (A × Reader) → Result (A × Bytes)
view (ok (a, r)) = ok (a, drop r.off r.buf)
view (err e) = err e

abbrev pub view_skip : Result Reader → Result Bytes
view_skip (ok r) = ok (drop r.off r.buf)
view_skip (err e) = err e

pub add-sub : (m n : ℕ) → m + n - m ≡ n
add-sub m n = omega arith

pub add-sub_self : (m : ℕ) → m - m ≡ 0
add-sub_self m = omega arith

pub add-sub_back : (m i : ℕ) → m ≤ i → m + (i - m) ≡ i
add-sub_back m i h = omega arith

pub suc-sub : (m i : ℕ) → m ≤ i → i + 1 - m ≡ suc (i - m)
suc-sub m i h = omega arith

pub head_at : (r : Reader) (b : ℕ) (t : Bytes) → drop r.off r.buf ≡ b ∷ t → get_or r.buf r.off 0 ≡ b
head_at r b t e = ground (arith, get_or-drop r.off 0 r.buf 0, ap (λ (x : Bytes). get_or x 0 0) e)

pub size_at :
    (r : Reader) (b : ℕ) (t : Bytes)
    → drop r.off r.buf ≡ b ∷ t
    → length r.buf - r.off ≡ suc (length t)
size_at r b t e = sym (length-drop r.off r.buf) ∙ ap {B = ℕ} length e
