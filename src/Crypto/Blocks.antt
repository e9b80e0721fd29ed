-- ===== src/Crypto/Blocks.antt =====
-- One block: what `xor_block` gives, and how it is undone.
use txmlconnector.Common.{ℕ, zero, suc, ◌≤◌, ◌<◌, ◌≡◌, refl, ap, arith}
use txmlconnector.Common.{[], ◌∷◌, ◌++◌, Bytes, IsByte, All, length, take, drop, bit_xor, min}
use txmlconnector.Common.Xor.{bit_xor_twice}
use txmlconnector.Crypto.{Cipher, encrypt_block, xor_block}

-- The block cipher gives eight bytes.
pub encrypt_block_shape :
    (c : Cipher) (n1 n2 : ℕ)
    → (length (encrypt_block c n1 n2) ≡ 8) × All IsByte (encrypt_block c n1 n2)
unfolding encrypt_block
encrypt_block_shape c n1 n2 = (refl, omega arith)

-- What follows a short block is nothing.
abbrev pub EndsAfter : Bytes → Bytes → Bytes → Type 0
EndsAfter src g ys = length src < length g → ys ≡ []

pub xor_block_back :
    (src g ys : Bytes)
    → All IsByte src
    → All IsByte g
    → EndsAfter src g ys
    → xor_block (xor_block src g ++ ys) g ≡ take (length g) src
unfolding xor_block
xor_block_back [] [] [] hs hg e = refl
xor_block_back [] [] (y ∷ ys) hs hg e = refl
xor_block_back [] (z ∷ g) ys hs hg e = rw (e (omega arith))
xor_block_back (x ∷ src) [] [] hs hg e = refl
xor_block_back (x ∷ src) [] (y ∷ ys) hs hg e = refl
xor_block_back (x ∷ src) (z ∷ g) ys hs hg e =
    rw (bit_xor_twice 8 x z (omega arith) (omega arith))
      (ap (◌∷◌ x) (xor_block_back src g ys hs.1 hg.1 (λ h. e (omega arith))))

pub drop-xor_block :
    (src g ys : Bytes) → EndsAfter src g ys → drop (length g) (xor_block src g ++ ys) ≡ ys
unfolding xor_block
drop-xor_block [] [] ys e = refl
drop-xor_block [] (z ∷ g) ys e = rw (e (omega arith))
drop-xor_block (x ∷ src) [] ys e = refl
drop-xor_block (x ∷ src) (z ∷ g) ys e = drop-xor_block src g ys (λ h. e (omega arith))

pub take-xor_block :
    (src g ys : Bytes)
    → EndsAfter src g ys
    → take (length g) (xor_block src g ++ ys) ≡ xor_block src g
unfolding xor_block
take-xor_block [] [] ys e = refl
take-xor_block [] (z ∷ g) ys e = rw (e (omega arith))
take-xor_block (x ∷ src) [] ys e = refl
take-xor_block (x ∷ src) (z ∷ g) ys e =
    ap (◌∷◌ (bit_xor x z)) (take-xor_block src g ys (λ h. e (omega arith)))

pub drop_short : (n : ℕ) (xs : Bytes) → length xs ≤ n → drop n xs ≡ []
drop_short zero [] h = refl
drop_short zero (x ∷ xs) h = absurd (omega arith)
drop_short (suc n) [] h = refl
drop_short (suc n) (x ∷ xs) h = drop_short n xs (omega arith)

pub length-xor_block : (src g : Bytes) → length (xor_block src g) ≡ min (length src) (length g)
unfolding xor_block
length-xor_block [] g = omega arith
length-xor_block (x ∷ src) [] = omega arith
length-xor_block (x ∷ src) (y ∷ g) = omega (arith, length-xor_block src g)
