-- ===== src/Records/Catalog/Invariant.antt =====
-- The invariant of a catalog, from the new one on.
use txmlconnector.Common.{ℕ, ◌≡◌, refl, sym, ap, ◌∙◌, arith}
use txmlconnector.Common.{some, List, [], ◌∷◌, Bytes, if◌then◌else◌}
use txmlconnector.Common.{
  find, insert, keys, Has, IsDistinct, find-insert, insert-Has, Bool-cases, inl, inr,
  find-insert_self,
}
use mathlib.Core.Path.{subst}
use txmlconnector.Records.Trades.{same_bytes, same_symbol}
use txmlconnector.Records.Dictionary.{Startup, Board}
use txmlconnector.Records.Catalog.{Catalog, same_id, empty_catalog, add_boards, new_catalog}
use txmlconnector.Records.Catalog.Keys.{same_id-IsEquality, same_bytes-IsEquality}
use txmlconnector.Records.Catalog.Calls.{Call, calls}
use txmlconnector.Records.Catalog.Symbols.{IsCoded}
use txmlconnector.Records.Catalog.Sound.{IsSound, calls_kept}

-- What a catalog is while it has only boards.
IsBare : Catalog → Type 0
IsBare c =
    (c.secs ≡ []) × (c.symbols ≡ []) × (c.order ≡ []) × (c.delivered ≡ 0) × IsCoded c.boards c.codes

insert-IsCoded :
    (boards : List (ℕ × Board)) (codes : List (Bytes × Board)) (b : Board)
    → IsCoded boards codes
    → IsCoded (insert same_id b.num b boards) (insert same_bytes b.code b codes)
insert-IsCoded boards codes b coded num t h =
    let law = find-insert same_id same_id-IsEquality num b.num b boards in
    elim (Bool-cases (same_id num b.num)) [
      | inl e ↦
          let at : some b ≡ some t =
            sym (law ∙ ap (λ x. if x then some b else find same_id num boards) e) ∙ h in
          let eq : b ≡ t = ground arith in
          subst (λ x. Has same_bytes x.code (insert same_bytes b.code b codes)) eq
            (b, find-insert_self same_bytes same_bytes-IsEquality b.code b codes)
      | inr e ↦
          insert-Has same_bytes same_bytes-IsEquality t.code b.code b codes (
            coded num t (sym (law ∙ ap (λ x. if x then some b else find same_id num boards) e) ∙ h))
    ]

add_boards-IsBare : (bs : List Board) (c : Catalog) → IsBare c → IsBare (add_boards bs c)
unfolding add_boards IsBare
add_boards-IsBare [] c v = v
add_boards-IsBare (b ∷ bs) c (a0, a1, a2, a3, coded) =
    add_boards-IsBare bs
      (record c {
        boards = insert same_id b.num b c.boards;
        codes = insert same_bytes b.code b c.codes;
      })
      (a0, a1, a2, a3, insert-IsCoded c.boards c.codes b coded)

IsBare-IsSound : (c : Catalog) → IsBare c → IsSound c
unfolding IsBare
IsBare-IsSound c (no_secs, no_symbols, no_order, none_out, coded) = record {
  arrivals = ap keys no_secs ∙ sym no_order;
  once = subst (IsDistinct same_id) (sym no_order) tt;
  bounded = omega (arith, none_out);
  own = λ id s h. absurd (cc (sym (ap (find same_id id) no_secs) ∙ h));
  coded = coded;
  resolved = λ s id h. absurd (cc (sym (ap (find same_symbol s) no_symbols) ∙ h));
}

pub new_catalog-IsSound : (st : Startup) → IsSound (new_catalog st)
unfolding new_catalog IsBare
new_catalog-IsSound st = IsBare-IsSound (add_boards st.boards (empty_catalog st)) (
    add_boards-IsBare st.boards (empty_catalog st)
      (refl, refl, refl, refl, λ num b h. absurd (cc h)))

pub new_catalog_undelivered : (st : Startup) → (new_catalog st).delivered ≡ 0
unfolding new_catalog IsBare
new_catalog_undelivered st =
    (add_boards-IsBare st.boards (empty_catalog st)
      (refl, refl, refl, refl, λ num b h. absurd (cc h))).3

pub calls-IsSound :
    (cp1251 : Bytes → Bytes) (st : Startup) (xs : List Call)
    → IsSound (calls cp1251 (new_catalog st) xs).1
calls-IsSound cp1251 st xs = calls_kept cp1251 (new_catalog st) xs (new_catalog-IsSound st)
