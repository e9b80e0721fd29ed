-- ===== src/Records/Catalog/Resolving.antt =====
-- What `Lookup` finds.
use txmlconnector.Common.{ℕ, ◌≡◌, ◌≢◌, ◌⊎◌, refl, ap, ◌∙◌, Option, none, some}
use txmlconnector.Common.{List, [], ◌∷◌, ◌++◌, Bytes, if◌then◌else◌, ◌==◌, Bool-cases, inl, inr}
use txmlconnector.Common.{find, find-insert, find-insert_self}
use txmlconnector.Records.Trades.{same_bytes, same_symbol}
use txmlconnector.Records.Dictionary.{Startup, Board}
use txmlconnector.Records.Securities.{SecNew, Pit}
use txmlconnector.Records.Catalog.{
  Catalog, same_id, add_symbol, add_symbols, add_security, lookup, security, new_catalog,
}
use txmlconnector.Records.Catalog.Keys.{same_id-IsEquality, same_symbol-IsEquality}
use txmlconnector.Records.Catalog.Calls.{Call, calls}
use txmlconnector.Records.Catalog.Invariant.{calls-IsSound}
use txmlconnector.Records.Catalog.Sound.{}

module _ (boards : List (ℕ × Board)) (code : Bytes) (id : ℕ) where
  -- A symbol that stands for the security goes on doing so.
  add_symbol_keeps :
      (x : Option Board) (t : Bytes × Bytes) (m : List ((Bytes × Bytes) × ℕ))
      → find same_symbol t m ≡ some id
      → find same_symbol t (add_symbol x code id m) ≡ some id
  add_symbol_keeps none t m h = h
  add_symbol_keeps (some b) t m h =
      find-insert same_symbol same_symbol-IsEquality t (b.code, code) id m
      ∙ elim (Bool-cases (same_symbol t (b.code, code))) [ inl e ↦ rw e | inr e ↦ rw e h ]

  add_symbols_keeps :
      (ps : List Pit) (t : Bytes × Bytes) (m : List ((Bytes × Bytes) × ℕ))
      → find same_symbol t m ≡ some id
      → find same_symbol t (add_symbols boards code id ps m) ≡ some id
  unfolding add_symbols
  add_symbols_keeps [] t m h = h
  add_symbols_keeps (p ∷ ps) t m h =
      add_symbols_keeps ps t (add_symbol (find same_id p.board boards) code id m)
        (add_symbol_keeps (find same_id p.board boards) t m h)

  -- The symbol of a pit whose board is known.
  add_symbols_finds :
      (p : Pit) (b : Board) (before after : List Pit) (m : List ((Bytes × Bytes) × ℕ))
      → find same_id p.board boards ≡ some b
      → find same_symbol (b.code, code) (add_symbols boards code id (before ++ p ∷ after) m)
        ≡ some id
  unfolding add_symbols
  add_symbols_finds p b [] after m h =
      add_symbols_keeps after (b.code, code) (add_symbol (find same_id p.board boards) code id m)
        (ap (λ x. find same_symbol (b.code, code) (add_symbol x code id m)) h
          ∙ find-insert_self same_symbol same_symbol-IsEquality (b.code, code) id m)
  add_symbols_finds p b (q ∷ before) after m h =
      add_symbols_finds p b before after (add_symbol (find same_id q.board boards) code id m) h

  -- The symbols of other codes are left alone.
  add_symbol_others :
      (x : Option Board) (t : Bytes × Bytes) (m : List ((Bytes × Bytes) × ℕ))
      → t.1 ≢ code
      → find same_symbol t (add_symbol x code id m) ≡ find same_symbol t m
  add_symbol_others none t m d = refl
  add_symbol_others (some b) t m d =
      find-insert same_symbol same_symbol-IsEquality t (b.code, code) id m
      ∙ elim (Bool-cases (same_symbol t (b.code, code))) [
        | inl e ↦ absurd (d (ap (λ u. u.1) ((same_symbol-IsEquality t (b.code, code)).0 e)))
        | inr e ↦ rw e
      ]

  add_symbols_others :
      (ps : List Pit) (t : Bytes × Bytes) (m : List ((Bytes × Bytes) × ℕ))
      → t.1 ≢ code
      → find same_symbol t (add_symbols boards code id ps m) ≡ find same_symbol t m
  unfolding add_symbols
  add_symbols_others [] t m d = refl
  add_symbols_others (p ∷ ps) t m d =
      add_symbols_others ps t (add_symbol (find same_id p.board boards) code id m) d
      ∙ add_symbol_others (find same_id p.board boards) t m d

-- What `lookup` makes of an id.
lookup_at :
    (c : Catalog) (board code : Bytes) (id : ℕ)
    → find same_symbol (board, code) c.symbols ≡ some id
    → lookup c board code ≡ some (find same_id id c.secs, find same_bytes board c.codes)
unfolding lookup
lookup_at c board code id h = rw (h, lookup)

-- A security that is added is found under its code on the board of each of its pits, where the catalog
-- knows that board; its id is the security, and the other ids are what they were. A symbol with another
-- code that stood for the id is left, and stands for the new security.
pub lookup-add_security :
    (c : Catalog) (s : SecNew)
    → ((p : Pit) (b : Board) (before after : List Pit)
        → s.pits ≡ before ++ p ∷ after
        → find same_id p.board c.boards ≡ some b
        → lookup (add_security c s) b.code s.sec_code
          ≡ some (some s, find same_bytes b.code c.codes))
      × ((id : ℕ)
          → security (add_security c s) id ≡ (if id == s.sec_id then some s else security c id))
      × ((board code : Bytes)
          → find same_symbol (board, code) c.symbols ≡ some s.sec_id
          → code ≢ s.sec_code
          → lookup (add_security c s) board code ≡ some (some s, find same_bytes board c.codes))
unfolding add_security security
lookup-add_security c s = (
  λ p b before after pits known.
      lookup_at (add_security c s) b.code s.sec_code s.sec_id (
        ap
          (λ ps.
            find same_symbol (b.code, s.sec_code)
              (add_symbols c.boards s.sec_code s.sec_id ps c.symbols))
          pits
        ∙ add_symbols_finds c.boards s.sec_code s.sec_id p b before after c.symbols known)
      ∙ ap (λ x. some (x, find same_bytes b.code c.codes))
          (find-insert_self same_id same_id-IsEquality s.sec_id s c.secs),
  λ id. find-insert same_id same_id-IsEquality id s.sec_id s c.secs,
  λ board code h d.
      lookup_at (add_security c s) board code s.sec_id
        (add_symbols_others c.boards s.sec_code s.sec_id s.pits (board, code) c.symbols d ∙ h)
      ∙ ap (λ x. some (x, find same_bytes board c.codes))
          (find-insert_self same_id same_id-IsEquality s.sec_id s c.secs),
)

-- After any calls on a new catalog, `Lookup` finds nothing, or a security and a board that the catalog
-- has: never the zero values.
pub lookup_known :
    (cp1251 : Bytes → Bytes) (st : Startup) (xs : List Call) (board code : Bytes)
    → let c = (calls cp1251 (new_catalog st) xs).1 in
      (lookup c board code ≡ none)
      ⊎ ((s : SecNew) × (b : Board) × (lookup c board code ≡ some (some s, some b))
          × (security c s.sec_id ≡ some s))
unfolding security lookup
lookup_known cp1251 st xs board code =
    split (find same_symbol (board, code) (calls cp1251 (new_catalog st) xs).1.symbols) refl
  where
    split :
        let c = (calls cp1251 (new_catalog st) xs).1 in
        (x : Option ℕ)
        → find same_symbol (board, code) c.symbols ≡ x
        → (lookup c board code ≡ none)
          ⊎ ((s : SecNew) × (b : Board) × (lookup c board code ≡ some (some s, some b))
              × (find same_id s.sec_id c.secs ≡ some s))
    split none e = inl (rw (e, lookup))
    split (some id) e =
        let c = (calls cp1251 (new_catalog st) xs).1 in
        let v = calls-IsSound cp1251 st xs in
        let ((s, at), (b, coded)) = v.resolved (board, code) id e in
        inr (
          s,
          b,
          lookup_at c board code id e
              ∙ ap (λ x. some (x, find same_bytes board c.codes)) at
              ∙ ap (λ x. some (some s, x)) coded,
          ap (λ (i : ℕ). find same_id i c.secs) (v.own id s at) ∙ at,
        )
