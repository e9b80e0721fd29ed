-- ===== src/Common/Keys.antt =====
-- The keys of a map: each stands once, in the order of the first writes.
use mathlib.Core.Path.{◌≡◌, refl, sym, ap, ◌∙◌}
use mathlib.Core.Logic.{inl, inr}
use mathlib.Core.Bool.{Bool, false}
use mathlib.Core.Option.{Option, none, some}
use mathlib.Core.List.{List, [], ◌∷◌, ◌++◌}
use Prim.Native.Nat.{◌≤◌}
use native.Mathlib.Omega.{arith}
use txmlconnector.Common.Lists.{length, length-append, All}
use txmlconnector.Common.Tests.{if◌then◌else◌, Bool-cases}
use txmlconnector.Common.Maps.{
  find, insert, keys, IsEquality, Fresh, IsDistinct, same_refl, same_sym, find-insert, insert_new,
}

-- The map has the key.
abbrev pub Has : {K V : Type 0} → (K → K → Bool) → K → List (K × V) → Type 0
Has {K} {V} same key m = (v : V) × (find same key m ≡ some v)

module _ {K : Type 0} (same : K → K → Bool) where
  pub Fresh-snoc :
      (j k : K) (ks : List K) → Fresh same j ks → same j k ≡ false → Fresh same j (ks ++ k ∷ [])
  Fresh-snoc j k [] f d = (d, tt)
  Fresh-snoc j k (l ∷ ks) f d = (f.0, Fresh-snoc j k ks f.1 d)

  pub IsDistinct-snoc :
      IsEquality same
      → (k : K) (ks : List K) → IsDistinct same ks
      → Fresh same k ks
      → IsDistinct same (ks ++ k ∷ [])
  IsDistinct-snoc equality k [] d f = (tt, tt)
  IsDistinct-snoc equality k (l ∷ ks) d f = (
    Fresh-snoc l k ks d.0 (same_sym same equality k l f.0),
    IsDistinct-snoc equality k ks d.1 f.1,
  )

module _ {K V : Type 0} (same : K → K → Bool) where
  pub keys-snoc : (m : List (K × V)) (k : K) (v : V) → keys (m ++ (k, v) ∷ []) ≡ keys m ++ k ∷ []
  keys-snoc [] k v = refl
  keys-snoc ((l, w) ∷ m) k v = ap (λ ks. l ∷ ks) (keys-snoc m k v)

  -- What the map lacks is none of its keys.
  pub keys-Fresh : (k : K) (m : List (K × V)) → find same k m ≡ none → Fresh same k (keys m)
  keys-Fresh k [] h = tt
  keys-Fresh k ((l, w) ∷ m) h = elim (Bool-cases (same k l)) [
    | inl e ↦ cc (sym (ap (λ b. if b then some w else find same k m) e) ∙ h)
    | inr e ↦ (e, keys-Fresh k m (sym (ap (λ b. if b then some w else find same k m) e) ∙ h))
  ]

  -- A write at a key that the map has leaves the keys.
  pub keys-insert :
      (k : K) (v w : V) (m : List (K × V))
      → find same k m ≡ some w
      → keys (insert same k v m) ≡ keys m
  keys-insert k v w [] h = cc
  keys-insert k v w ((l, u) ∷ m) h = elim (Bool-cases (same k l)) [
    | inl e ↦ rw e
    | inr e ↦ rw e (
        ap (λ ks. l ∷ ks)
          (keys-insert k v w m (sym (ap (λ b. if b then some u else find same k m) e) ∙ h)))
  ]

  -- A write keeps every key.
  pub insert-Has :
      IsEquality same
      → (j k : K) (v : V) (m : List (K × V)) → Has same j m
      → Has same j (insert same k v m)
  insert-Has equality j k v m (w, h) = elim (Bool-cases (same j k)) [
    | inl e ↦
        (v, find-insert same equality j k v m ∙ ap (λ b. if b then some v else find same j m) e)
    | inr e ↦
        (w, find-insert same equality j k v m ∙ ap (λ b. if b then some v else find same j m) e ∙ h)
  ]

-- A key at the end of a list of keys, unless the map has it.
abbrev pub appended : {K V : Type 0} → K → Option V → List K → List K
appended key (some v) order = order
appended key none order = order ++ key ∷ []

module _ {K V : Type 0} (same : K → K → Bool) (equality : IsEquality same) where
  -- The keys of a map behind a write, where a list has them in the order of their arrival.
  pub keys-insert-appended :
      (m : List (K × V)) (k : K) (v : V)
      → IsDistinct same (keys m)
      → (keys (insert same k v m) ≡ appended k (find same k m) (keys m))
        × IsDistinct same (appended k (find same k m) (keys m))
        × (length (keys m) ≤ length (appended k (find same k m) (keys m)))
  keys-insert-appended m k v d = split (find same k m) refl
    where
      split :
          (x : Option V)
          → find same k m ≡ x
          → (keys (insert same k v m) ≡ appended k x (keys m))
            × IsDistinct same (appended k x (keys m))
            × (length (keys m) ≤ length (appended k x (keys m)))
      split (some t) e = (keys-insert same k v t m e, d, omega arith)
      split none e = (
        ap keys (insert_new same equality k v m e) ∙ keys-snoc same m k v,
        IsDistinct-snoc same equality k (keys m) d (keys-Fresh same k m e),
        omega (arith, length-append (keys m) (k ∷ [])),
      )

  -- Where every value carries its key, so it does behind a write of such a value.
  pub find-insert_own :
      (key_of : V → K) (m : List (K × V)) (k : K) (v : V)
      → key_of v ≡ k
      → ((j : K) (w : V) → find same j m ≡ some w → key_of w ≡ j)
      → (j : K) (w : V) → find same j (insert same k v m) ≡ some w
      → key_of w ≡ j
  find-insert_own key_of m k v is own j w h =
      let law = find-insert same equality j k v m in
      elim (Bool-cases (same j k)) [
        | inl e ↦
            let at : some v ≡ some w =
              sym (law ∙ ap (λ b. if b then some v else find same j m) e) ∙ h in
            let same_value : v ≡ w = ground arith in
            ap key_of (sym same_value) ∙ is ∙ sym ((equality j k).0 e)
        | inr e ↦ own j w (sym (law ∙ ap (λ b. if b then some v else find same j m) e) ∙ h)
      ]

module _ {K V : Type 0} (same : K → K → Bool) where
  cons-Has : (j k : K) (v : V) (m : List (K × V)) → Has same j m → Has same j ((k, v) ∷ m)
  cons-Has j k v m (w, h) = elim (Bool-cases (same j k)) [
    | inl e ↦ (v, rw e)
    | inr e ↦ (w, ap (λ b. if b then some v else find same j m) e ∙ h)
  ]

  All-Has-cons :
      (k : K) (v : V) (m : List (K × V)) (ls : List K)
      → All (λ j. Has same j m) ls
      → All (λ j. Has same j ((k, v) ∷ m)) ls
  All-Has-cons k v m [] h = tt
  All-Has-cons k v m (j ∷ ls) h = (cons-Has j k v m h.0, All-Has-cons k v m ls h.1)

  -- A map has its keys.
  pub keys-Has : IsEquality same → (m : List (K × V)) → All (λ j. Has same j m) (keys m)
  keys-Has equality [] = tt
  keys-Has equality ((k, v) ∷ m) = (
    (v, ap (λ b. if b then some v else find same k m) (same_refl same equality k)),
    All-Has-cons k v m (keys m) (keys-Has equality m),
  )
