-- ===== src/Records/Catalog/Symbols.antt =====
-- Symbols that are registered or kept stand for securities and boards that the maps have.
use txmlconnector.Common.{ℕ, ◌≡◌, refl, sym, ap, ◌∙◌, arith}
use txmlconnector.Common.{Option, none, some, List, [], ◌∷◌, Bytes, if◌then◌else◌}
use txmlconnector.Common.{find, insert, Has, find-insert, insert-Has, Bool-cases, inl, inr}
use mathlib.Core.Path.{subst}
use txmlconnector.Records.Trades.{same_bytes, same_symbol}
use txmlconnector.Records.Dictionary.{Board}
use txmlconnector.Records.Securities.{SecNew, Pit}
use txmlconnector.Records.Catalog.{same_id, add_symbol, add_symbols}
use txmlconnector.Records.Catalog.Keys.{same_id-IsEquality, same_symbol-IsEquality}

-- Every board is found by its code.
abbrev pub IsCoded : List (ℕ × Board) → List (Bytes × Board) → Type 0
IsCoded boards codes =
    (num : ℕ) (b : Board) → find same_id num boards ≡ some b → Has same_bytes b.code codes

-- Every symbol stands for a security and a board that the maps have.
abbrev pub IsResolved :
    List (ℕ × SecNew) → List (Bytes × Board) → List ((Bytes × Bytes) × ℕ) → Type 0
IsResolved secs codes symbols =
    (s : Bytes × Bytes) (id : ℕ)
    → find same_symbol s symbols ≡ some id
    → Has same_id id secs × Has same_bytes s.0 codes

module _ (secs : List (ℕ × SecNew)) (codes : List (Bytes × Board)) where
  add_symbol-IsResolved :
      (x : Option Board) (code : Bytes) (id : ℕ) (symbols : List ((Bytes × Bytes) × ℕ))
      → ((b : Board) → x ≡ some b → Has same_bytes b.code codes)
      → Has same_id id secs
      → IsResolved secs codes symbols
      → IsResolved secs codes (add_symbol x code id symbols)
  add_symbol-IsResolved none code id symbols coded has r s i h = r s i h
  add_symbol-IsResolved (some b) code id symbols coded has r s i h =
      let law = find-insert same_symbol same_symbol-IsEquality s (b.code, code) id symbols in
      elim (Bool-cases (same_symbol s (b.code, code))) [
        | inl e ↦
            let at : some id ≡ some i =
              sym (law ∙ ap (λ t. if t then some id else find same_symbol s symbols) e) ∙ h in
            let place : s ≡ (b.code, code) = (same_symbol-IsEquality s (b.code, code)).0 e in
            let id_eq : id ≡ i = ground arith in
            (
              subst (λ j. Has same_id j secs) id_eq has,
              subst (λ t. Has same_bytes t.0 codes) (sym place) (coded b refl),
            )
        | inr e ↦
            r s i (sym (law ∙ ap (λ t. if t then some id else find same_symbol s symbols) e) ∙ h)
      ]

  pub add_symbols-IsResolved :
      (boards : List (ℕ × Board)) (code : Bytes) (id : ℕ) (ps : List Pit)
      (symbols : List ((Bytes × Bytes) × ℕ))
      → IsCoded boards codes
      → Has same_id id secs
      → IsResolved secs codes symbols
      → IsResolved secs codes (add_symbols boards code id ps symbols)
  unfolding add_symbols
  add_symbols-IsResolved boards code id [] symbols coded has r = r
  add_symbols-IsResolved boards code id (p ∷ ps) symbols coded has r =
      add_symbols-IsResolved boards code id ps
        (add_symbol (find same_id p.board boards) code id symbols) coded has
        (add_symbol-IsResolved (find same_id p.board boards) code id symbols (coded p.board) has r)

-- A write at an id keeps what the symbols stand for.
pub insert-IsResolved :
    (secs : List (ℕ × SecNew)) (codes : List (Bytes × Board)) (symbols : List ((Bytes × Bytes) × ℕ))
    (id : ℕ) (s : SecNew)
    → IsResolved secs codes symbols
    → IsResolved (insert same_id id s secs) codes symbols
insert-IsResolved secs codes symbols id s r t i h =
    let (has, coded) = r t i h in (insert-Has same_id same_id-IsEquality i id s secs has, coded)
