-- ===== src/Crypto/Counter.antt =====
-- Counter mode undoes itself.
use txmlconnector.Common.{ℕ, zero, suc, ◌≤◌, ◌≡◌, refl, sym, ap, ◌∙◌, arith}
use txmlconnector.Common.{[], ◌∷◌, ◌++◌, Bytes, IsByte, All, All-drop, length, take, drop}
use txmlconnector.Common.{take-append-drop, length-drop, length-append}
use mathlib.Core.Path.{ap₂, subst}
use txmlconnector.Crypto.{Cipher, encrypt_block, xor_block, next_n1, next_n2, gamma_from, gamma}
use txmlconnector.Crypto.Blocks.{
  encrypt_block_shape, EndsAfter, xor_block_back, drop-xor_block, drop_short, length-xor_block,
}

gamma_from-nil : (c : Cipher) (f n1 n2 : ℕ) → gamma_from c f n1 n2 [] ≡ []
unfolding gamma_from
gamma_from-nil c zero n1 n2 = refl
gamma_from-nil c (suc f) n1 n2 = refl

-- One round, whether bytes are left or not.
gamma_from-suc :
    (c : Cipher) (f n1 n2 : ℕ) (src : Bytes)
    → gamma_from c (suc f) n1 n2 src
      ≡ xor_block src (encrypt_block c (next_n1 n1) (next_n2 n2))
        ++ gamma_from c f (next_n1 n1) (next_n2 n2) (drop 8 src)
gamma_from-suc c f n1 n2 [] =
    gamma_from-nil c (suc f) n1 n2 ∙ sym (unfold xor_block in gamma_from-nil c f _ _)
gamma_from-suc c f n1 n2 (b ∷ src) = unfold gamma_from in refl

length-gamma_from :
    (c : Cipher) (f n1 n2 : ℕ) (src : Bytes)
    → length src ≤ f
    → length (gamma_from c f n1 n2 src) ≡ length src
length-gamma_from c zero n1 n2 [] h = rw (gamma_from-nil c zero n1 n2)
length-gamma_from c zero n1 n2 (b ∷ src) h = absurd (omega arith)
length-gamma_from c (suc f) n1 n2 src h =
    let g : Bytes = encrypt_block c (next_n1 n1) (next_n2 n2) in
    rw (gamma_from-suc c f n1 n2 src) (
      omega (
        arith,
        length-append (xor_block src g) (gamma_from c f (next_n1 n1) (next_n2 n2) (drop 8 src)),
        length-xor_block src g,
        (encrypt_block_shape c (next_n1 n1) (next_n2 n2)).0,
        length-drop 8 src,
        length-gamma_from c f (next_n1 n1) (next_n2 n2) (drop 8 src)
            (omega (arith, length-drop 8 src)),
      ))

gamma_from_back :
    (c : Cipher) (f n1 n2 : ℕ) (src : Bytes)
    → All IsByte src
    → length src ≤ f
    → gamma_from c f n1 n2 (gamma_from c f n1 n2 src) ≡ src
gamma_from_back c zero n1 n2 [] b h = rw (gamma_from-nil c zero n1 n2, gamma_from-nil c zero n1 n2)
gamma_from_back c zero n1 n2 (x ∷ src) b h = absurd (omega arith)
gamma_from_back c (suc f) n1 n2 src b h =
    let g : Bytes = encrypt_block c (next_n1 n1) (next_n2 n2) in
    let ys : Bytes = gamma_from c f (next_n1 n1) (next_n2 n2) (drop 8 src) in
    let shape = encrypt_block_shape c (next_n1 n1) (next_n2 n2) in
    let ends : EndsAfter src g ys = λ short.
      ap (gamma_from c f (next_n1 n1) (next_n2 n2)) (drop_short 8 src (omega (arith, shape.0)))
      ∙ gamma_from-nil c f _ _ in
    let tail : drop 8 (xor_block src g ++ ys) ≡ ys =
      subst (λ (n : ℕ). drop n (xor_block src g ++ ys) ≡ ys) shape.0
        (drop-xor_block src g ys ends) in
    let head : xor_block (xor_block src g ++ ys) g ≡ take 8 src =
      xor_block_back src g ys b shape.1 ends ∙ ap (λ (n : ℕ). take n src) shape.0 in
    ap (gamma_from c (suc f) n1 n2) (gamma_from-suc c f n1 n2 src)
    ∙ gamma_from-suc c f n1 n2 (xor_block src g ++ ys)
    ∙ ap₂ (λ (p q : Bytes). p ++ gamma_from c f (next_n1 n1) (next_n2 n2) q) head tail
    ∙ ap (λ (q : Bytes). take 8 src ++ q)
        (gamma_from_back c f (next_n1 n1) (next_n2 n2) (drop 8 src) (All-drop IsByte 8 src b)
          (omega (arith, length-drop 8 src)))
    ∙ take-append-drop 8 src

-- `Gamma` with one key and one sync value undoes itself on any bytes, whatever their number.
pub gamma_involution :
    (c : Cipher) (sync src : Bytes) → All IsByte src → gamma c sync (gamma c sync src) ≡ src
unfolding gamma
gamma_involution c sync src b =
    rw (length-gamma_from c (length src) _ _ src (omega arith))
      (gamma_from_back c (length src) _ _ src b (omega arith))

pub length-gamma : (c : Cipher) (sync src : Bytes) → length (gamma c sync src) ≡ length src
unfolding gamma
length-gamma c sync src = length-gamma_from c (length src) _ _ src (omega arith)
