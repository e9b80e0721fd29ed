-- ===== src/Records/Securities/Layout.antt =====
-- The layout of the R_SEC_NEW body, written out, and that `parse_sec_new` takes it.
use txmlconnector.Common.{
  ℕ, ◌≤◌, ◌≡◌, ap, Bool, ◌||◌, [], ◌∷◌, ◌++◌, Bytes, All, ok, ◌==◌, Bool-cases, inl, inr,
  if◌then◌else◌,
}
use mathlib.Core.List.{map}
use txmlconnector.Wire.Words.{IsU16, IsWord32}
use txmlconnector.Wire.Writer.{write_uint16, write_int32, write_string}
use txmlconnector.Records.Parser.{has_bit, value_of}
use txmlconnector.Records.Securities.{
  SecNew, read_tail, read_derivative, read_sec_new, parse_sec_new,
}
use txmlconnector.Records.Securities.Prints.{
  Prints, bind-Prints, bind-end, pure-Prints, bind-last, pure-last, byte-Prints, uint16-Prints,
  int32-Prints, IsText, str-Prints,
}
use txmlconnector.Records.Securities.Pits.{FitsPit, pits_bytes, decoded_pit, pits-Prints}
use txmlconnector.Records.Securities.Ends.{FitsTail, tail_bytes, decoded_tail, tail_read}

abbrev pub is_derivative : ℕ → Bool
is_derivative kind = kind == 4 || kind == 5

abbrev pub has_underlying : ℕ → Bool
has_underlying flags = has_bit flags 2 || has_bit flags 3

-- Futures and options have flags, and these say whether a text follows.
abbrev pub derivative_bytes : ℕ → ℕ → Bytes → Bytes
derivative_bytes kind flags underlying =
    if is_derivative kind
    then (flags ∷ []) ++ (if has_underlying flags then write_string [] underlying 0x19 else [])
    else []

-- The body of a security with so many groups at its end; its texts are those of the body.
abbrev pub sec_new_bytes : ℕ → SecNew → Bytes
sec_new_bytes n s =
    write_uint16 [] s.sec_id
    ++ ((s.market ∷ [])
        ++ ((s.kind ∷ [])
            ++ ((s.class ∷ [])
                ++ (write_string [] s.sec_code 0x19
                    ++ (write_string [] s.short_name 0x1e
                        ++ (write_string [] s.isin 0xc
                            ++ ((s.byte1 ∷ [])
                                ++ (write_int32 [] s.int1
                                    ++ ((s.flags ∷ [])
                                        ++ (write_int32 [] s.int2
                                            ++ (derivative_bytes s.kind s.deriv_flags s.underlying
                                                ++ ((s.props ∷ [])
                                                    ++ (pits_bytes s.pits
                                                        ++ (write_string [] s.currency 4
                                                            ++ tail_bytes n s.tail))))))))))))))

-- The words have their sizes, the texts have no NUL and fit, and no board has the number of the end mark.
pub record FitsSecNew (s : SecNew) : Type 0 where
  pub sec_id : IsU16 s.sec_id
  pub sec_code : IsText 0x19 s.sec_code
  pub short_name : IsText 0x1e s.short_name
  pub isin : IsText 0xc s.isin
  pub int1 : IsWord32 s.int1
  pub int2 : IsWord32 s.int2
  pub underlying : IsText 0x19 s.underlying
  pub pits : All FitsPit s.pits
  pub currency : IsText 4 s.currency
  pub tail : FitsTail s.tail

module _ (cp1251 : Bytes → Bytes) where
  -- The security with its texts decoded; what the body leaves out is zero or empty.
  abbrev pub decoded : ℕ → SecNew → SecNew
  decoded n s = record s {
    sec_code = cp1251 s.sec_code;
    short_name = cp1251 s.short_name;
    isin = cp1251 s.isin;
    deriv_flags = if is_derivative s.kind then s.deriv_flags else 0;
    underlying =
        if is_derivative s.kind
        then if has_underlying s.deriv_flags then cp1251 s.underlying else []
        else [];
    pits = map (decoded_pit cp1251) s.pits;
    currency = cp1251 s.currency;
    tail = decoded_tail cp1251 n s.tail;
  }

  derivative-Prints :
      (kind flags : ℕ) (underlying : Bytes)
      → IsText 0x19 underlying
      → Prints (derivative_bytes kind flags underlying) (read_derivative cp1251 kind) (
        if is_derivative kind then flags else 0,
        if is_derivative kind then if has_underlying flags then cp1251 underlying else [] else [],
      )
  unfolding read_derivative
  derivative-Prints kind flags underlying h = elim (Bool-cases (is_derivative kind)) [
    | inr e ↦ rw e (pure-Prints (0, []))
    | inl e ↦ rw e (
        bind-Prints _ (byte-Prints flags) (elim (Bool-cases (has_underlying flags)) [
          | inr f ↦ rw f (bind-Prints _ (pure-Prints []) (pure-Prints (flags, [])))
          | inl f ↦ rw f (
              bind-end _ (str-Prints cp1251 0x19 underlying h)
                (pure-Prints (flags, cp1251 underlying)))
        ]))
  ]

  sec_new_read :
      (n : ℕ) (s : SecNew)
      → n ≤ 6
      → FitsSecNew s
      → read_sec_new cp1251 (sec_new_bytes n s) ≡ ok (decoded n s, [])
  unfolding read_sec_new
  sec_new_read n s l h = bind-last _ (uint16-Prints s.sec_id h.sec_id) (
      bind-last _ (byte-Prints s.market) (
        bind-last _ (byte-Prints s.kind) (
          bind-last _ (byte-Prints s.class) (
            bind-last _ (str-Prints cp1251 0x19 s.sec_code h.sec_code) (
              bind-last _ (str-Prints cp1251 0x1e s.short_name h.short_name) (
                bind-last _ (str-Prints cp1251 0xc s.isin h.isin) (
                  bind-last _ (byte-Prints s.byte1) (
                    bind-last _ (int32-Prints s.int1 h.int1) (
                      bind-last _ (byte-Prints s.flags) (
                        bind-last _ (int32-Prints s.int2 h.int2) (
                          bind-last _
                            (derivative-Prints s.kind s.deriv_flags s.underlying h.underlying)
                            (bind-last _ (byte-Prints s.props) (
                              bind-last _ (pits-Prints cp1251 s.pits h.pits) (
                                bind-last _ (str-Prints cp1251 4 s.currency h.currency) (
                                  pure-last (read_tail cp1251) _ (tail_bytes n s.tail)
                                    (tail_read cp1251 n s.tail l h.tail))))))))))))))))

  -- A body that is laid out from a security, with any number of the groups at its end, is parsed to that
  -- security with its texts decoded: each field from its own place, the fields of derivatives by the kind
  -- and the flags, every pit up to the end mark, and zero or empty for what the body leaves out. The words
  -- have their sizes, the texts have no NUL and fit, the time zone has 16 bytes, and no board has the
  -- number of the end mark.
  pub parse_sec_new-sec_new_bytes :
      (n : ℕ) (s : SecNew)
      → n ≤ 6
      → FitsSecNew s
      → parse_sec_new cp1251 (sec_new_bytes n s) ≡ ok (decoded n s)
  unfolding parse_sec_new
  parse_sec_new-sec_new_bytes n s l h = ap value_of (sec_new_read n s l h)
