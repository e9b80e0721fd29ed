-- ===== src/Crypto/Feedback.antt =====
-- Decryption in cipher feedback mode undoes encryption.
use txmlconnector.Common.{ℕ, zero, suc, ◌≤◌, ◌≡◌, refl, sym, ap, ◌∙◌, arith}
use txmlconnector.Common.{
  [], ◌∷◌, ◌++◌, Bytes, IsByte, All, All-drop, length, take, drop, append-nil,
}
use txmlconnector.Common.{take-append-drop, length-drop, length-append}
use mathlib.Core.Path.{ap₂, subst}
use txmlconnector.Crypto.{
  Cipher, xor_block, feedback_block, cfb_encrypt_from, cfb_decrypt_from, cfb_encrypt, cfb_decrypt,
}
use txmlconnector.Crypto.Blocks.{
  encrypt_block_shape, EndsAfter, xor_block_back, drop-xor_block, take-xor_block, drop_short,
  length-xor_block,
}

feedback_block_shape :
    (c : Cipher) (fb : Bytes)
    → (length (feedback_block c fb) ≡ 8) × All IsByte (feedback_block c fb)
unfolding feedback_block
feedback_block_shape c fb = encrypt_block_shape c _ _

-- The register after a block whose cipher text is `out`.
abbrev register : Cipher → Bytes → Bytes → Bytes
register c fb out = out ++ drop (length out) (feedback_block c fb)

cfb_encrypt_from-nil : (c : Cipher) (f : ℕ) (fb : Bytes) → cfb_encrypt_from c f fb [] ≡ []
unfolding cfb_encrypt_from
cfb_encrypt_from-nil c zero fb = refl
cfb_encrypt_from-nil c (suc f) fb = refl

cfb_decrypt_from-nil : (c : Cipher) (f : ℕ) (fb : Bytes) → cfb_decrypt_from c f fb [] ≡ []
unfolding cfb_decrypt_from
cfb_decrypt_from-nil c zero fb = refl
cfb_decrypt_from-nil c (suc f) fb = refl

cfb_encrypt_from-suc :
    (c : Cipher) (f : ℕ) (fb src : Bytes)
    → cfb_encrypt_from c (suc f) fb src
      ≡ xor_block src (feedback_block c fb)
        ++ cfb_encrypt_from c f (register c fb (xor_block src (feedback_block c fb))) (drop 8 src)
cfb_encrypt_from-suc c f fb [] =
    cfb_encrypt_from-nil c (suc f) fb ∙ sym (unfold xor_block in cfb_encrypt_from-nil c f _)
cfb_encrypt_from-suc c f fb (b ∷ src) = unfold cfb_encrypt_from in refl

cfb_decrypt_from-suc :
    (c : Cipher) (f : ℕ) (fb src : Bytes)
    → cfb_decrypt_from c (suc f) fb src
      ≡ xor_block (take 8 src) (feedback_block c fb)
        ++ cfb_decrypt_from c f (register c fb (take 8 src)) (drop 8 src)
cfb_decrypt_from-suc c f fb [] =
    cfb_decrypt_from-nil c (suc f) fb ∙ sym (unfold xor_block in cfb_decrypt_from-nil c f _)
cfb_decrypt_from-suc c f fb (b ∷ src) = unfold cfb_decrypt_from in refl

length-cfb_encrypt_from :
    (c : Cipher) (f : ℕ) (fb src : Bytes)
    → length src ≤ f
    → length (cfb_encrypt_from c f fb src) ≡ length src
length-cfb_encrypt_from c zero fb [] h = rw (cfb_encrypt_from-nil c zero fb)
length-cfb_encrypt_from c zero fb (b ∷ src) h = absurd (omega arith)
length-cfb_encrypt_from c (suc f) fb src h =
    let g : Bytes = feedback_block c fb in
    let fb' : Bytes = register c fb (xor_block src g) in
    rw (cfb_encrypt_from-suc c f fb src) (
      omega (
        arith,
        length-append (xor_block src g) (cfb_encrypt_from c f fb' (drop 8 src)),
        length-xor_block src g,
        (feedback_block_shape c fb).0,
        length-drop 8 src,
        length-cfb_encrypt_from c f fb' (drop 8 src) (omega (arith, length-drop 8 src)),
      ))

-- A block of cipher text `out` with the blocks `ys` behind it, cut off and read back.
cfb_decrypt_from-append :
    (c : Cipher) (f : ℕ) (fb src ys : Bytes)
    → All IsByte src
    → EndsAfter src (feedback_block c fb) ys
    → cfb_decrypt_from c (suc f) fb (xor_block src (feedback_block c fb) ++ ys)
      ≡ take 8 src ++ cfb_decrypt_from c f (register c fb (xor_block src (feedback_block c fb))) ys
cfb_decrypt_from-append c f fb src ys b ends =
    let g : Bytes = feedback_block c fb in
    let shape = feedback_block_shape c fb in
    let front : take 8 (xor_block src g ++ ys) ≡ xor_block src g =
      subst (λ (n : ℕ). take n (xor_block src g ++ ys) ≡ xor_block src g) shape.0
        (take-xor_block src g ys ends) in
    let tail : drop 8 (xor_block src g ++ ys) ≡ ys =
      subst (λ (n : ℕ). drop n (xor_block src g ++ ys) ≡ ys) shape.0
        (drop-xor_block src g ys ends) in
    let plain : xor_block (xor_block src g) g ≡ take 8 src =
      ap (λ (x : Bytes). xor_block x g) (sym (append-nil (xor_block src g)))
      ∙ xor_block_back src g [] b shape.1 (λ h. refl)
      ∙ ap (λ (n : ℕ). take n src) shape.0 in
    cfb_decrypt_from-suc c f fb (xor_block src g ++ ys)
    ∙ ap₂ (λ (p q : Bytes). xor_block p g ++ cfb_decrypt_from c f (register c fb p) q) front tail
    ∙ ap (λ (p : Bytes). p ++ cfb_decrypt_from c f (register c fb (xor_block src g)) ys) plain

cfb_from_back :
    (c : Cipher) (f : ℕ) (fb src : Bytes)
    → All IsByte src
    → length src ≤ f
    → cfb_decrypt_from c f fb (cfb_encrypt_from c f fb src) ≡ src
cfb_from_back c zero fb [] b h = rw (cfb_encrypt_from-nil c zero fb, cfb_decrypt_from-nil c zero fb)
cfb_from_back c zero fb (x ∷ src) b h = absurd (omega arith)
cfb_from_back c (suc f) fb src b h =
    let g : Bytes = feedback_block c fb in
    let fb' : Bytes = register c fb (xor_block src g) in
    let ends : EndsAfter src g (cfb_encrypt_from c f fb' (drop 8 src)) = λ short.
      ap (cfb_encrypt_from c f fb')
        (drop_short 8 src (omega (arith, (feedback_block_shape c fb).0)))
      ∙ cfb_encrypt_from-nil c f fb' in
    ap (cfb_decrypt_from c (suc f) fb) (cfb_encrypt_from-suc c f fb src)
    ∙ cfb_decrypt_from-append c f fb src _ b ends
    ∙ ap (λ (q : Bytes). take 8 src ++ q)
        (cfb_from_back c f fb' (drop 8 src) (All-drop IsByte 8 src b)
          (omega (arith, length-drop 8 src)))
    ∙ take-append-drop 8 src

-- `CFBDecrypt` gives back any bytes that `CFBEncrypt` encrypted with the same key and sync value.
pub cfb_decrypt-cfb_encrypt :
    (c : Cipher) (sync src : Bytes)
    → All IsByte src
    → cfb_decrypt c sync (cfb_encrypt c sync src) ≡ src
unfolding cfb_decrypt cfb_encrypt
cfb_decrypt-cfb_encrypt c sync src b =
    rw (length-cfb_encrypt_from c (length src) sync src (omega arith))
      (cfb_from_back c (length src) sync src b (omega arith))

pub length-cfb_encrypt :
    (c : Cipher) (sync src : Bytes) → length (cfb_encrypt c sync src) ≡ length src
unfolding cfb_encrypt
length-cfb_encrypt c sync src = length-cfb_encrypt_from c (length src) sync src (omega arith)
