-- ===== src/Records/Catalog/Keys.antt =====
-- The tests of the keys of the catalog's maps take equal keys for the same, and no others.
use txmlconnector.Common.{ℕ, ◌≡◌, refl, true, [], ◌∷◌, Bytes, ◌==◌, ==_iff, ==_refl}
use txmlconnector.Common.{IsEquality}
use txmlconnector.Records.Trades.{same_bytes, same_symbol}
use txmlconnector.Records.Trades.Rising.{same_bytes_sound, same_symbol_sound}
use mathlib.Core.Path.{subst}

same_bytes_refl : (a : Bytes) → same_bytes a a ≡ true
same_bytes_refl [] = refl
same_bytes_refl (a ∷ xs) = rw (==_refl a) (same_bytes_refl xs)

pub same_id-IsEquality : IsEquality (λ (a b : ℕ). a == b)
same_id-IsEquality x y = ==_iff x y

pub same_bytes-IsEquality : IsEquality same_bytes
same_bytes-IsEquality x y =
    (same_bytes_sound x y, λ e. subst (λ z. same_bytes x z ≡ true) e (same_bytes_refl x))

same_symbol_refl : (s : Bytes × Bytes) → same_symbol s s ≡ true
same_symbol_refl (a, b) = rw (same_bytes_refl a) (same_bytes_refl b)

pub same_symbol-IsEquality : IsEquality same_symbol
same_symbol-IsEquality x y =
    (same_symbol_sound x y, λ e. subst (λ z. same_symbol x z ≡ true) e (same_symbol_refl x))
