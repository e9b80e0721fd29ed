-- ===== src/Common/Maps.antt =====
-- Go's maps, as association lists in the order of the first writes. A test says which keys are the
-- same.
use mathlib.Core.Path.{◌≡◌, refl, sym, ap, ◌∙◌}
use mathlib.Core.Logic.{◌↔◌, inl, inr}
use mathlib.Core.Bool.{Bool, true, false}
use mathlib.Core.Option.{Option, none, some}
use mathlib.Core.List.{List, [], ◌∷◌, ◌++◌}
use txmlconnector.Common.Tests.{if◌then◌else◌, Bool-cases}

module _ {K V : Type 0} where
  -- `v, ok := m[key]`.
  abbrev pub find : (K → K → Bool) → K → List (K × V) → Option V
  find same key [] = none
  find same key ((k, v) ∷ m) = let rest = find same key m in if same key k then some v else rest

  -- `m[key] = v`.
  abbrev pub insert : (K → K → Bool) → K → V → List (K × V) → List (K × V)
  insert same key v [] = (key, v) ∷ []
  insert same key v ((k, w) ∷ m) =
      let rest = insert same key v m in if same key k then (k, v) ∷ m else (k, w) ∷ rest

  -- `delete(m, key)`.
  abbrev pub delete : (K → K → Bool) → K → List (K × V) → List (K × V)
  delete same key [] = []
  delete same key ((k, v) ∷ m) =
      let rest = delete same key m in if same key k then rest else (k, v) ∷ rest

  abbrev pub keys : List (K × V) → List K
  keys [] = []
  keys ((k, v) ∷ m) = k ∷ keys m

-- The test takes a key for the same as itself, and no others.
abbrev pub IsEquality : {K : Type 0} → (K → K → Bool) → Type 0
IsEquality {K} same = (x y : K) → (same x y ≡ true) ↔ (x ≡ y)

-- A list without the key, and one that holds no key twice.
abbrev pub Fresh : {K : Type 0} → (K → K → Bool) → K → List K → Type 0
Fresh same key [] = Unit {0}
Fresh same key (k ∷ ks) = (same key k ≡ false) × Fresh same key ks

abbrev pub IsDistinct : {K : Type 0} → (K → K → Bool) → List K → Type 0
IsDistinct same [] = Unit {0}
IsDistinct same (k ∷ ks) = Fresh same k ks × IsDistinct same ks

module _ {K : Type 0} (same : K → K → Bool) (equality : IsEquality same) where
  pub same_refl : (k : K) → same k k ≡ true
  same_refl k = (equality k k).1 refl

  pub same_sym : (j k : K) → same j k ≡ false → same k j ≡ false
  same_sym j k h = elim (Bool-cases (same k j)) [
    | inl e ↦ cc (sym ((equality j k).1 (sym ((equality k j).0 e))) ∙ h)
    | inr e ↦ e
  ]

  -- A key that is the same as one of two keys that differ is not the same as the other.
  pub same_apart : (j k l : K) → same j k ≡ true → same k l ≡ false → same j l ≡ false
  same_apart j k l h d = ap (λ x. same x l) ((equality j k).0 h) ∙ d

module _ {K V : Type 0} (same : K → K → Bool) (equality : IsEquality same) where
  pub find-insert :
      (j k : K) (v : V) (m : List (K × V))
      → find same j (insert same k v m) ≡ (if same j k then some v else find same j m)
  find-insert j k v [] = refl
  find-insert j k v ((l, w) ∷ m) = elim (Bool-cases (same k l)) [
    | inl e ↦ rw e (elim (Bool-cases (same j k)) [
      | inl f ↦ rw f (rw (sym (ap (same j) ((equality k l).0 e)) ∙ f))
      | inr f ↦ rw f (rw (sym (ap (same j) ((equality k l).0 e)) ∙ f))
    ])
    | inr e ↦ rw e (elim (Bool-cases (same j l)) [
      | inl f ↦ rw f (elim (Bool-cases (same j k)) [
        | inl g ↦ cc (sym (same_apart same equality j k l g e) ∙ f)
        | inr g ↦ rw g
      ])
      | inr f ↦ rw f (find-insert j k v m)
    ])
  ]

  pub find-insert_self :
      (k : K) (v : V) (m : List (K × V)) → find same k (insert same k v m) ≡ some v
  find-insert_self k v m =
      find-insert k k v m
      ∙ ap (λ b. if b then some v else find same k m) (same_refl same equality k)

  -- A write at a key that the map lacks.
  pub insert_new :
      (k : K) (v : V) (m : List (K × V))
      → find same k m ≡ none
      → insert same k v m ≡ m ++ (k, v) ∷ []
  insert_new k v [] h = refl
  insert_new k v ((l, w) ∷ m) h = elim (Bool-cases (same k l)) [
    | inl e ↦ cc (sym (ap (λ b. if b then some w else find same k m) e) ∙ h)
    | inr e ↦ rw e (
        ap (λ rest. (l, w) ∷ rest)
          (insert_new k v m (sym (ap (λ b. if b then some w else find same k m) e) ∙ h)))
  ]

  pub find-delete :
      (j k : K) (m : List (K × V))
      → find same j (delete same k m) ≡ (if same j k then none else find same j m)
  find-delete j k [] = elim (Bool-cases (same j k)) [ inl e ↦ rw e | inr e ↦ rw e ]
  find-delete j k ((l, w) ∷ m) = elim (Bool-cases (same k l)) [
    | inl e ↦ rw e (elim (Bool-cases (same j k)) [
      | inl f ↦ rw f (find-delete j k m ∙ ap (λ b. if b then none else find same j m) f)
      | inr f ↦ rw f (
          rw (sym (ap (same j) ((equality k l).0 e)) ∙ f)
            (find-delete j k m ∙ ap (λ b. if b then none else find same j m) f))
    ])
    | inr e ↦ rw e (elim (Bool-cases (same j l)) [
      | inl f ↦ rw f (elim (Bool-cases (same j k)) [
        | inl g ↦ cc (sym (same_apart same equality j k l g e) ∙ f)
        | inr g ↦ rw g
      ])
      | inr f ↦ rw f (find-delete j k m)
    ])
  ]
