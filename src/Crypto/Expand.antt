-- ===== src/Crypto/Expand.antt =====
-- The key that is made of a password.
use txmlconnector.Common.{
  ℕ, zero, suc, ◌+◌, ◌-◌, ◌*◌, ◌/◌, ◌%◌, ◌≤◌, ◌<◌, ◌≡◌, ◌⊎◌, refl, ap, ◌∙◌, sym, arith, bit_xor,
  Bool-cases, inl, inr, ltb, ltb→lt, ltb→le, get_or,
}
use mathlib.Core.Path.{subst}
use txmlconnector.Common.{
  [], ◌∷◌, ◌++◌, append-nil, append_assoc, Bytes, length, take, length-append, length-take,
}
use txmlconnector.Crypto.{expand_byte, expand_from, expand_key}

-- The loop keeps what it has written and appends one byte a round.
expand_from_keeps :
    (left n size : ℕ) (out : Bytes)
    → (tail : Bytes) × (expand_from left n size out ≡ out ++ tail) × (length tail ≡ left)
unfolding expand_from
expand_from_keeps zero n size out = ([], sym (append-nil out), refl)
expand_from_keeps (suc left) n size out =
    let b : ℕ = expand_byte n size out in
    let (tail, e, l) = expand_from_keeps left n size (out ++ (b ∷ [])) in
    (b ∷ tail, e ∙ append_assoc out (b ∷ []) tail, ap suc l)

get_or-append_left : (xs ys : Bytes) (i : ℕ) → i < length xs → get_or (xs ++ ys) i 0 ≡ get_or xs i 0
get_or-append_left [] ys i h = elim h [ ]
get_or-append_left (x ∷ xs) ys zero h = refl
get_or-append_left (x ∷ xs) ys (suc i) h = get_or-append_left xs ys i (omega arith)

get_or-append_end : (xs : Bytes) (y : ℕ) → get_or (xs ++ (y ∷ [])) (length xs) 0 ≡ y
get_or-append_end [] y = refl
get_or-append_end (x ∷ xs) y = get_or-append_end xs y

-- A byte turned to the left by three bits.
abbrev pub rotated : ℕ → ℕ
rotated b = b * 8 % 256 + b / 32

-- The byte `x` at `i` comes of the one `n` places before it, which is `y`.
abbrev pub IsExpanded : ℕ → ℕ → ℕ → ℕ → Type 0
IsExpanded size i y x =
    (b : ℕ) × (b < 256) × ((b + i) % 256 ≡ (y + size) % 256) × (x ≡ bit_xor (rotated b) 0x97)

expand_byte-IsExpanded :
    (n size : ℕ) (out : Bytes)
    → IsExpanded size (length out) (get_or out (length out - n) 0) (expand_byte n size out)
unfolding expand_byte
expand_byte-IsExpanded n size out =
    let y : ℕ = get_or out (length out - n) 0 in
    let i : ℕ = length out in
    let b : ℕ = (y + 256 - i % 256 + size % 256) % 256 in
    (b, omega arith, omega arith, ap (λ (x : ℕ). bit_xor x 0x97) (omega arith))

-- Each byte behind the first `n` comes of an earlier one.
AreExpanded : ℕ → ℕ → Bytes → Type 0
AreExpanded n size out =
    (i : ℕ) → n ≤ i → i < length out → IsExpanded size i (get_or out (i - n) 0) (get_or out i 0)

AreExpanded-append :
    (n size : ℕ) (out : Bytes)
    → 1 ≤ n
    → n ≤ length out
    → AreExpanded n size out
    → AreExpanded n size (out ++ (expand_byte n size out ∷ []))
unfolding AreExpanded
AreExpanded-append n size out pos fits h i ge lt = elim (Bool-cases (ltb i (length out))) [
  | inl old ↦
      let below = ltb→lt i (length out) old in
      rw (get_or-append_left out (expand_byte n size out ∷ []) i below) (
        rw (get_or-append_left out (expand_byte n size out ∷ []) (i - n) (omega arith))
          (h i ge below))
  | inr new ↦
      let last : length out ≡ i =
        omega (arith, ltb→le i (length out) new, length-append out (expand_byte n size out ∷ [])) in
      subst
        (λ j.
          IsExpanded size j (get_or (out ++ (expand_byte n size out ∷ [])) (j - n) 0)
            (get_or (out ++ (expand_byte n size out ∷ [])) j 0))
        last
        (rw (get_or-append_end out (expand_byte n size out)) (
          rw (get_or-append_left out (expand_byte n size out ∷ []) (length out - n) (omega arith))
            (expand_byte-IsExpanded n size out)))
]

expand_from-AreExpanded :
    (left n size : ℕ) (out : Bytes)
    → 1 ≤ n
    → n ≤ length out
    → AreExpanded n size out
    → AreExpanded n size (expand_from left n size out)
unfolding expand_from
expand_from-AreExpanded zero n size out pos fits h = h
expand_from-AreExpanded (suc left) n size out pos fits h =
    expand_from-AreExpanded left n size (out ++ (expand_byte n size out ∷ [])) pos
      (omega (arith, length-append out (expand_byte n size out ∷ [])))
      (AreExpanded-append n size out pos fits h)

get_or-take : (n i : ℕ) (xs : Bytes) → i < n → get_or (take n xs) i 0 ≡ get_or xs i 0
get_or-take zero i xs h = elim h [ ]
get_or-take (suc n) i [] h = refl
get_or-take (suc n) zero (x ∷ xs) h = refl
get_or-take (suc n) (suc i) (x ∷ xs) h = get_or-take n i xs (omega arith)

expand_key-AreExpanded :
    (src : Bytes) (size : ℕ)
    → 1 ≤ length (take size src)
    → AreExpanded (length (take size src)) size (expand_key src size)
unfolding expand_key AreExpanded
expand_key-AreExpanded src size some_copied =
    let copied : Bytes = take size src in
    expand_from-AreExpanded (size - length copied) (length copied) size copied some_copied
      (omega arith) (λ j a b. absurd (omega arith))

-- The key has the size asked for and begins with the copied bytes.
expand_key-copied :
    (src : Bytes) (size : ℕ)
    → (tail : Bytes) × (expand_key src size ≡ take size src ++ tail)
      × (length (expand_key src size) ≡ size)
unfolding expand_key
expand_key-copied src size =
    let copied : Bytes = take size src in
    let (tail, e, l) = expand_from_keeps (size - length copied) (length copied) size copied in
    (tail, e, rw e (omega (arith, length-append copied tail, length-take size src)))

-- For a source that is not empty, the expanded key has the size asked for. At a place i below it stands
-- the byte of the source, or, behind the n bytes of the source, the byte b turned to the left by three
-- bits and combined by xor with 0x97, where b + i is the sum of the key's byte at i - n and the size,
-- modulo 256.
pub expand_key_bytes :
    (src : Bytes) (size i : ℕ)
    → 1 ≤ length src
    → i < size
    → (length (expand_key src size) ≡ size)
      × (((i < length src) × (get_or (expand_key src size) i 0 ≡ get_or src i 0))
          ⊎ ((length src ≤ i)
              × IsExpanded size i
                  (get_or (expand_key src size) (i - length src) 0)
                  (get_or (expand_key src size) i 0)))
unfolding AreExpanded
expand_key_bytes src size i some_src lt =
    let (tail, e, whole) = expand_key-copied src size in
    let copied = length-take size src in
    (
      whole,
      elim (Bool-cases (ltb i (length src))) [
        | inl old ↦
            let below = ltb→lt i (length src) old in
            inl (
              below,
              ap (λ k. get_or k i 0) e
                  ∙ get_or-append_left (take size src) tail i (omega arith)
                  ∙ get_or-take size i src lt,
            )
        | inr new ↦
            let behind = ltb→le i (length src) new in
            let n : length (take size src) ≡ length src = omega arith in
            inr (
              behind,
              subst
                  (λ k.
                    IsExpanded size i (get_or (expand_key src size) (i - k) 0)
                      (get_or (expand_key src size) i 0))
                  n (expand_key-AreExpanded src size (omega arith) i (omega arith) (omega arith)),
            )
      ],
    )
