-- ===== src/Records/Trades/Rising.antt =====
-- The trades of one security that are let through have rising numbers.
use txmlconnector.Common.{
  ℕ, ◌^◌, ◌≤◌, ◌<◌, ◌≡◌, refl, sym, ap, ◌∙◌, arith, Bool, true, false, ◌&&◌, ◌⊎◌, Option, none,
  some, List, [], ◌∷◌, Bytes, All,
}
use txmlconnector.Common.{Bool-cases, inl, inr, ◌==◌, ==_iff, if◌then◌else◌}
use mathlib.Core.Path.{subst}
use txmlconnector.Wire.Words.{IsWord64}
use txmlconnector.Records.Trades.{lookup, is_above, check_fresh, same_raw, same_bytes, same_symbol}

-- The order of the int64s that two bit patterns stand for.
abbrev pub IsBelow : ℕ → ℕ → Type 0
IsBelow a b = ((2 ^ 63 ≤ a) × (b < 2 ^ 63)) ⊎ ((2 ^ 63 ≤ a) × (a < b)) ⊎ ((b < 2 ^ 63) × (a < b))

abbrev pub IsNew : Option ℕ → ℕ → Type 0
IsNew none n = Unit {0}
IsNew (some last) n = IsBelow last n

-- Each number is above the one before.
abbrev pub IsRising : Option ℕ → List ℕ → Type 0
IsRising last [] = Unit {0}
IsRising last (n ∷ ns) = IsNew last n × IsRising (some n) ns

-- Of the numbers of the first list the second has those that are above the last one that it has.
pub data Sifted : Option ℕ → List ℕ → List ℕ → Type 0 where
  over : {last : Option ℕ} → Sifted last [] []
  passes :
      {last : Option ℕ} {n : ℕ} {ns ps : List ℕ}
      → IsNew last n
      → Sifted (some n) ns ps
      → Sifted last (n ∷ ns) (n ∷ ps)
  drops :
      {last : Option ℕ} {n : ℕ} {ns ps : List ℕ}
      → ¬ IsNew last n
      → Sifted last ns ps
      → Sifted last (n ∷ ns) ps

Sifted-IsRising :
    {last : Option ℕ} {ns ps : List ℕ}
    → Sifted last ns ps
    → (l : Option ℕ) → ((n : ℕ) → IsNew last n → IsNew l n)
    → IsRising l ps
Sifted-IsRising over l h = tt
Sifted-IsRising (passes {last} {n} new s) l h = (h n new, Sifted-IsRising s (some n) (λ k x. x))
Sifted-IsRising (drops old s) l h = Sifted-IsRising s l h

-- A last number is an int64.
abbrev IsLast : Option ℕ → Type 0
IsLast none = Unit {0}
IsLast (some last) = IsWord64 last

above-IsNew :
    (last : Option ℕ) (n : ℕ) → IsLast last → IsWord64 n → is_above last n ≡ true → IsNew last n
above-IsNew none n w k h = tt
above-IsNew (some last) n w k h = ground arith

below-not-IsNew :
    (last : Option ℕ) (n : ℕ) → IsLast last → IsWord64 n → is_above last n ≡ false → ¬ IsNew last n
below-not-IsNew none n w k h x = cc
below-not-IsNew (some last) n w k h x = ground arith

pub same_bytes_sound : (a b : Bytes) → same_bytes a b ≡ true → a ≡ b
same_bytes_sound [] [] h = refl
same_bytes_sound [] (b ∷ ys) h = cc
same_bytes_sound (a ∷ xs) [] h = cc
same_bytes_sound (a ∷ xs) (b ∷ ys) h = elim (Bool-cases (a == b)) [
  | inl e ↦
      ap (λ x. x ∷ xs) ((==_iff a b).0 e)
      ∙ ap (λ zs. b ∷ zs) (same_bytes_sound xs ys (ap (λ c. c && same_bytes xs ys) (sym e) ∙ h))
  | inr e ↦ cc (ap (λ c. c && same_bytes xs ys) (sym e) ∙ h)
]

-- Symbols that the test takes for the same are.
pub same_symbol_sound : (x y : Bytes × Bytes) → same_symbol x y ≡ true → x ≡ y
same_symbol_sound (a, b) (c, d) h = elim (Bool-cases (same_bytes a c)) [
  | inl e ↦
      ap (λ x. (x, b)) (same_bytes_sound a c e)
      ∙ ap (λ y. (c, y)) (same_bytes_sound b d (ap (λ z. z && same_bytes b d) (sym e) ∙ h))
  | inr e ↦ cc (ap (λ z. z && same_bytes b d) (sym e) ∙ h)
]

module _ {K : Type 0} (same : K → K → Bool) where
  -- The keys and numbers of a sequence of trades that are let through.
  abbrev pub passed : List (K × ℕ) → List (K × ℕ) → List (K × ℕ)
  passed m [] = []
  passed m ((key, n) ∷ ts) =
      let (new, m') = check_fresh same m key n in
      let rest = passed m' ts in if new then (key, n) ∷ rest else rest

  -- The numbers of one key.
  abbrev pub numbers : K → List (K × ℕ) → List ℕ
  numbers key [] = []
  numbers key ((k, n) ∷ ts) = let rest = numbers key ts in if same key k then n ∷ rest else rest

  lookup-IsLast :
      (key : K) (m : List (K × ℕ)) → All (λ x. IsWord64 x.1) m → IsLast (lookup same key m)
  lookup-IsLast key [] w = tt
  lookup-IsLast key ((k, n) ∷ m) w = elim (Bool-cases (same key k)) [
    | inl e ↦ rw e w.0
    | inr e ↦ rw e (lookup-IsLast key m w.1)
  ]

  passed-Sifted :
      ((x y : K) → same x y ≡ true → x ≡ y)
      → (key : K) (m ts : List (K × ℕ)) → All (λ x. IsWord64 x.1) m
      → All (λ x. IsWord64 x.1) ts
      → Sifted (lookup same key m) (numbers key ts) (numbers key (passed m ts))
  unfolding check_fresh
  passed-Sifted sound key m [] wm wt = over
  passed-Sifted sound key m ((k, n) ∷ ts) wm wt =
      let last = lookup same k m in
      let w = lookup-IsLast k m wm in
      elim (Bool-cases (is_above last n)) [
        | inr old ↦
            let rest = passed-Sifted sound key m ts wm wt.1 in
            rw (old, check_fresh)
              (elim (Bool-cases (same key k)) [
                | inl e ↦
                    let stays =
                      subst (λ x. ¬ IsNew (lookup same x m) n) (sym (sound key k e))
                        (below-not-IsNew last n w wt.0 old) in
                    rw e (drops stays rest)
                | inr e ↦ rw e rest
              ])
        | inl new ↦
            let rest = passed-Sifted sound key ((k, n) ∷ m) ts (wt.0, wm) wt.1 in
            let after = λ (b : Bool).
              Sifted (if b then some n else lookup same key m) (numbers key ts)
                (numbers key (passed ((k, n) ∷ m) ts)) in
            rw (new, check_fresh)
              (elim (Bool-cases (same key k)) [
                | inl e ↦
                    let comes =
                      subst (λ x. IsNew (lookup same x m) n) (sym (sound key k e))
                        (above-IsNew last n w wt.0 new) in
                    rw e (passes comes (subst after e rest))
                | inr e ↦ rw e (subst after e rest)
              ])
      ]

  -- For each security, in any sequence of trades with int64 numbers and from any map of such, the numbers
  -- of the trades that are let through rise in the order of int64 from the last number that the map has
  -- for it; and a trade of the security is dropped only where its number is not above the last one let
  -- through. The test of keys takes only equal keys for the same.
  pub passed-IsRising :
      ((x y : K) → same x y ≡ true → x ≡ y)
      → (key : K) (m ts : List (K × ℕ)) → All (λ x. IsWord64 x.1) m
      → All (λ x. IsWord64 x.1) ts
      → IsRising (lookup same key m) (numbers key (passed m ts))
        × Sifted (lookup same key m) (numbers key ts) (numbers key (passed m ts))
  passed-IsRising sound key m ts wm wt =
      let sifted = passed-Sifted sound key m ts wm wt in
      (Sifted-IsRising sifted (lookup same key m) (λ n x. x), sifted)

-- Pairs of a secid and a board that the test takes for the same are.
pub same_raw_sound : (x y : ℕ × ℕ) → same_raw x y ≡ true → x ≡ y
same_raw_sound (a, b) (c, d) h = elim (Bool-cases (a == c)) [
  | inl e ↦
      ap (λ x. (x, b)) ((==_iff a c).0 e)
      ∙ ap (λ y. (c, y)) ((==_iff b d).0 (ap (λ z. z && b == d) (sym e) ∙ h))
  | inr e ↦ cc (ap (λ z. z && b == d) (sym e) ∙ h)
]
