-- ===== src/Records/Securities/Pits.antt =====
-- The layout of the pits in an R_SEC_NEW body, and that their readers take it.
use txmlconnector.Common.{ℕ, zero, suc, ◌<◌, ◌≡◌, refl, arith, Bool, true, false, not, none, some}
use txmlconnector.Common.{
  List, [], ◌∷◌, ◌++◌, Bytes, All, length, length-append, ◌==◌, Bool-cases, inl, inr, if◌then◌else◌,
}
use mathlib.Core.List.{map}
use txmlconnector.Wire.Words.{IsWord32, IsWord64}
use txmlconnector.Wire.Writer.{write_uint16, write_int32, write_string}
use txmlconnector.Wire.Reader.{uint16}
use txmlconnector.Records.Parser.{read_until, read_all}
use txmlconnector.Records.Dictionary.{item_after, read_section}
use txmlconnector.Records.Securities.{Pit, read_pit}
use txmlconnector.Records.Securities.Prints.{
  Prints, bind-Prints, bind-end, pure-Prints, byte-Prints, uint16-Prints, int32-Prints, raw-Prints,
  IsText, str-Prints, le_bytes, length-le_bytes, little_endian-le_bytes,
}

-- A pit behind the number of its board; its texts are those of the body.
abbrev pub pit_bytes : Pit → Bytes
pit_bytes p =
    write_int32 [] p.lot_size
    ++ (write_int32 [] p.lot_divider
        ++ (write_int32 [] p.min_step
            ++ ((p.decimals ∷ [])
                ++ ((p.byte1 ∷ [])
                    ++ (le_bytes 8 p.point_cost
                        ++ (write_string [] p.text 0xc
                            ++ (((if p.is_default then 1 else 0) ∷ [])
                                ++ (write_int32 [] p.int1 ++ write_string [] p.currency 4))))))))

pub record FitsPit (p : Pit) : Type 0 where
  pub board : p.board < 0xffff
  pub lot_size : IsWord32 p.lot_size
  pub lot_divider : IsWord32 p.lot_divider
  pub min_step : IsWord32 p.min_step
  pub point_cost : IsWord64 p.point_cost
  pub text : IsText 0xc p.text
  pub int1 : IsWord32 p.int1
  pub currency : IsText 4 p.currency

-- The pits with their boards, and the mark behind them.
pub pits_bytes : List Pit → Bytes
pits_bytes [] = write_uint16 [] 0xffff
pits_bytes (p ∷ ps) = (write_uint16 [] p.board ++ pit_bytes p) ++ pits_bytes ps

module _ (cp1251 : Bytes → Bytes) where
  -- A pit with its texts decoded.
  abbrev pub decoded_pit : Pit → Pit
  decoded_pit p = record p { text = cp1251 p.text; currency = cp1251 p.currency }

  default_read : (d : Bool) → not ((if d then 1 else 0) == 0) ≡ d
  default_read true = refl
  default_read false = refl

  pit-Prints :
      (p : Pit) → FitsPit p → Prints (pit_bytes p) (read_pit cp1251 p.board) (decoded_pit p)
  unfolding read_pit
  pit-Prints p h = bind-Prints _ (int32-Prints p.lot_size h.lot_size) (
      bind-Prints _ (int32-Prints p.lot_divider h.lot_divider) (
        bind-Prints _ (int32-Prints p.min_step h.min_step) (
          bind-Prints _ (byte-Prints p.decimals) (
            bind-Prints _ (byte-Prints p.byte1) (
              bind-Prints _
                (raw-Prints 8 (le_bytes 8 p.point_cost) (length-le_bytes 8 p.point_cost))
                (bind-Prints _ (str-Prints cp1251 0xc p.text h.text) (
                  bind-Prints _ (byte-Prints (if p.is_default then 1 else 0)) (
                    bind-Prints _ (int32-Prints p.int1 h.int1) (
                      bind-end _ (str-Prints cp1251 4 p.currency h.currency) (
                        rw
                          (
                            little_endian-le_bytes 8 p.point_cost h.point_cost h.point_cost,
                            default_read p.is_default,
                          )
                          (pure-Prints (decoded_pit p))))))))))))

  item-Prints :
      (p : Pit)
      → FitsPit p
      → Prints
          (write_uint16 [] p.board ++ pit_bytes p)
          (item_after uint16 0xffff (read_pit cp1251))
          (some (decoded_pit p))
  unfolding item_after
  item-Prints p h =
      bind-Prints _ (uint16-Prints p.board (omega (arith, h.board)))
        (elim (Bool-cases (p.board == 0xffff)) [
          | inl e ↦ absurd (ground (arith, h.board))
          | inr e ↦ rw e (bind-end _ (pit-Prints p h) (pure-Prints (some (decoded_pit p))))
        ])

  mark-Prints : Prints (write_uint16 [] 0xffff) (item_after uint16 0xffff (read_pit cp1251)) none
  unfolding item_after
  mark-Prints = bind-end _ (uint16-Prints 0xffff (omega arith)) (pure-Prints none)

  pits_from-Prints :
      (fuel : ℕ) (ps : List Pit)
      → length ps < fuel
      → All FitsPit ps
      → Prints
          (pits_bytes ps)
          (read_until fuel (item_after uint16 0xffff (read_pit cp1251)))
          (map decoded_pit ps)
  unfolding read_until pits_bytes
  pits_from-Prints zero ps l h = elim l [ ]
  pits_from-Prints (suc fuel) [] l h = bind-end _ mark-Prints (pure-Prints [])
  pits_from-Prints (suc fuel) (p ∷ ps) l h = bind-Prints _ (item-Prints p h.0) (
      bind-end _ (pits_from-Prints fuel ps (omega arith) h.1)
        (pure-Prints (decoded_pit p ∷ map decoded_pit ps)))

  length-pits_bytes : (ps : List Pit) → length ps < length (pits_bytes ps)
  unfolding pits_bytes write_uint16
  length-pits_bytes [] = omega arith
  length-pits_bytes (p ∷ ps) =
      omega (arith, length-pits_bytes ps, length-append (pit_bytes p) (pits_bytes ps))

  pub pits-Prints :
      (ps : List Pit)
      → All FitsPit ps
      → Prints (pits_bytes ps) (read_section uint16 0xffff (read_pit cp1251)) (map decoded_pit ps)
  unfolding read_section read_all
  pits-Prints ps h = record {
    reads = λ rest.
        (pits_from-Prints (suc (length (pits_bytes ps ++ rest))) ps
            (omega (arith, length-pits_bytes ps, length-append (pits_bytes ps) rest)) h).reads
          rest;
  }
