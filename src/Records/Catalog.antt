-- ===== src/Records/Catalog.antt =====
-- native/records/catalog.go: the boards, the securities and the symbols of a session. Go's maps are
-- association lists.
pub mod Keys
pub mod Calls
pub mod Symbols
pub mod Sound
pub mod Invariant
pub mod Resolving
pub mod Draining
pub mod Flags
mod Runs
use txmlconnector.Common.{ℕ, ◌+◌, ◌*◌, Bool, true, false, not, ◌||◌, Option, none, some}
use txmlconnector.Common.{List, [], ◌∷◌, ◌++◌, Bytes, length, drop, leb, ◌==◌, if◌then◌else◌}
use txmlconnector.Common.{appended, find, insert, Result, ok, err, short_buffer}
use Prim.Native.Nat.{bit_and, bit_or}
use txmlconnector.Wire.Words.{sign_extend}
use txmlconnector.Records.Trades.{same_bytes, same_symbol}
use txmlconnector.Records.Dictionary.{Startup, Board}
use txmlconnector.Records.Securities.{SecNew, Pit, parse_sec_new, default_pit}
use txmlconnector.Records.Bodies.{is_attr}
use txmlconnector.Records.Split.Parses.{trade_date as read_date}

-- `same` of the ids and of the board numbers.
abbrev pub same_id : ℕ → ℕ → Bool
same_id a b = a == b

-- A board number or an id is the key of its map; a symbol is its board code and its code.
pub record Catalog : Type 0 where
  pub startup : Startup
  pub boards : List (ℕ × Board)
  pub codes : List (Bytes × Board)
  pub secs : List (ℕ × SecNew)
  pub symbols : List ((Bytes × Bytes) × ℕ)
  pub order : List ℕ
  pub delivered : ℕ
  pub trade_date : ℕ

-- `for _, b := range st.Boards`.
unfoldable pub add_boards : List Board → Catalog → Catalog
add_boards [] c = c
add_boards (b ∷ bs) c = add_boards bs (record c {
  boards = insert same_id b.num b c.boards;
  codes = insert same_bytes b.code b c.codes;
})

abbrev pub empty_catalog : Startup → Catalog
empty_catalog st = record {
  startup = st;
  boards = [];
  codes = [];
  secs = [];
  symbols = [];
  order = [];
  delivered = 0;
  trade_date = 0;
}

-- `NewCatalog`.
unfoldable pub new_catalog : Startup → Catalog
unfolding add_boards
new_catalog st = add_boards st.boards (empty_catalog st)

-- The symbol on a board that the catalog has.
abbrev pub add_symbol :
    Option Board → Bytes → ℕ → List ((Bytes × Bytes) × ℕ) → List ((Bytes × Bytes) × ℕ)
add_symbol (some b) code id m = insert same_symbol (b.code, code) id m
add_symbol none code id m = m

-- `for _, p := range s.Pits`: the symbols of the boards that are known.
unfoldable pub add_symbols :
    List (ℕ × Board)
    → Bytes
    → ℕ
    → List Pit
    → List ((Bytes × Bytes) × ℕ)
    → List ((Bytes × Bytes) × ℕ)
add_symbols boards code id [] m = m
add_symbols boards code id (p ∷ ps) m =
    add_symbols boards code id ps (add_symbol (find same_id p.board boards) code id m)

-- `AddSecurity`.
unfoldable pub add_security : Catalog → SecNew → Catalog
unfolding add_symbols
add_security c s = record c {
  order = appended s.sec_id (find same_id s.sec_id c.secs) c.order;
  secs = insert same_id s.sec_id s c.secs;
  symbols = add_symbols c.boards s.sec_code s.sec_id s.pits c.symbols;
}

-- The securities of the ids, where the map has them.
unfoldable pub securities : List (ℕ × SecNew) → List ℕ → List SecNew
securities secs [] = []
securities secs (id ∷ ids) =
    let rest = securities secs ids in
    elim (find same_id id secs) [ some s ↦ s ∷ rest | none ↦ rest ]

-- `DrainPending`: the securities since the last call.
unfoldable pub drain_pending : Catalog → List SecNew × Catalog
unfolding securities
drain_pending c =
    if leb (length c.order) c.delivered
    then ([], c)
    else (securities c.secs (drop c.delivered c.order), record c { delivered = length c.order })

-- `List` and `Len`.
unfoldable pub listed : Catalog → List SecNew
unfolding securities
listed c = securities c.secs c.order

unfoldable pub known : Catalog → ℕ
known c = length c.secs

-- `Security`, `Board` and `BoardByCode`.
unfoldable pub security : Catalog → ℕ → Option SecNew
security c id = find same_id id c.secs

unfoldable pub board : Catalog → ℕ → Option Board
board c num = find same_id num c.boards

unfoldable pub board_by_code : Catalog → Bytes → Option Board
board_by_code c code = find same_bytes code c.codes

-- What `Lookup` returns: `c.secs[id]` and `c.codes[board]`, each of which Go makes a zero value of where
-- the map lacks the key (`none` here); and `none` for `false`.
unfoldable pub lookup : Catalog → Bytes → Bytes → Option (Option SecNew × Option Board)
lookup c board sec_code = elim (find same_symbol (board, sec_code) c.symbols) [
  | some id ↦ some (find same_id id c.secs, find same_bytes board c.codes)
  | none ↦ none
]

unfoldable pub pit_for : ℕ → List Pit → Option Pit
pit_for num [] = none
pit_for num (p ∷ ps) = let rest = pit_for num ps in if p.board == num then some p else rest

abbrev pub decimals_of : Option Pit → Option ℕ
decimals_of (some p) = some p.decimals
decimals_of none = none

-- `Decimals`: the pit of the board, else the default one.
unfoldable pub decimals : Catalog → ℕ → ℕ → Option ℕ
unfolding pit_for
decimals c id num = elim (find same_id id c.secs) [
  | none ↦ none
  | some s ↦ (elim (pit_for num s.pits) [
    | some p ↦ some p.decimals
    | none ↦ decimals_of (default_pit s)
  ])
]

module _ (cp1251 : Bytes → Bytes) where
  -- `Apply`: whether the record was used.
  unfoldable pub apply : Catalog → ℕ → Bytes → Result Bool × Catalog
  apply c tag body =
      if tag == 0x28
      then (elim (parse_sec_new cp1251 body) [
        | ok s ↦ (ok true, add_security c s)
        | err e ↦ (err e, c)
      ])
      else if tag == 0x3d
      then (elim (read_date body) [
        | ok d ↦ (ok true, record c { trade_date = sign_extend d })
        | err e ↦ (err e, c)
      ])
      else (ok false, c)

-- The flags that an attribute record leaves a security.
unfoldable pub new_flags : ℕ → ℕ → ℕ → ℕ
new_flags tag v flags =
    if tag == 0x0d
    then bit_or (bit_and flags 0xfc) v
    else if tag == 0x0e
    then if v == 0 then bit_and flags 0xfb else bit_or flags 4
    else flags

-- The id and the value of an attribute record.
unfoldable pub set_flags : Catalog → ℕ → ℕ → ℕ → Catalog
unfolding new_flags
set_flags c tag id v = elim (find same_id id c.secs) [
  | none ↦ c
  | some s ↦
      if tag == 0x0d || tag == 0x0e
      then record c {
        secs = insert same_id id (record s { flags = new_flags tag v s.flags }) c.secs;
      }
      else c
]

abbrev pub head_of : Bytes → Option (ℕ × ℕ)
head_of (a ∷ b ∷ v ∷ r) = some (a * 256 + b, v)
head_of _ = none

module _ (cp1251 : Bytes → Bytes) where
  -- `ApplyMutations`.
  unfoldable pub apply_mutations : Catalog → ℕ → Bytes → Result Bool × Catalog
  unfolding set_flags apply
  apply_mutations c tag body =
      if tag == 0x28 || tag == 0x3d
      then apply cp1251 c tag body
      else if not (is_attr tag)
      then (ok false, c)
      else (elim (head_of body) [
        | none ↦ (err short_buffer, c)
        | some (id, v) ↦ (ok true, set_flags c tag id v)
      ])
