-- ===== src/Records/Split/Agree.antt =====
-- The parser of a record's body follows the reader by which the splitter finds its end.
use txmlconnector.Common.{ℕ, zero, suc, ◌+◌, ◌/◌, ◌%◌, ◌≡◌, arith, [], ◌∷◌, ◌==◌}
use txmlconnector.Common.{◌⊎◌, Bool-cases, inl, inr, ok}
use txmlconnector.Wire.Words.{sign_extend}
use txmlconnector.Wire.Reader.{uint16, int32, int64}
use txmlconnector.Records.Parser.{Parser, ◌>>=◌, pure, read_all}
use txmlconnector.Records.Parser.Follows.{
  Follows, Any, Both, bind-Follows, then-Follows, pure-Follows, fail-Follows, if-Follows,
  read_all-Follows,
}
use txmlconnector.Records.Parser.Local.{bind_again}
use txmlconnector.Records.Messages.{read_message, skip_message}
use txmlconnector.Records.Quotes.{read_quotation, quotation_values}
use txmlconnector.Records.Misc.{
  read_sec_rate, read_union, read_edp_rate, read_am_book, am_book_level, am_book_fields,
}
use txmlconnector.Records.Bodies.{
  skip_int32s, skip_quotation, skip_sec_rate, skip_union, skip_edp_rate, skip_am_book,
  skip_am_book_level, skip_am_book_fields, ones_count,
}

pub itself-Follows : {A : Type 0} (p : Parser A) → Follows Any p p
itself-Follows p = record { follow = λ r a r' h. (a, tt, h) }

-- The rules by which `search` lines the two up call by call.
pub ruleset follow_rules = (bind-Follows, then-Follows, pure-Follows, fail-Follows, if-Follows)

pub read_message-skip_message : Follows Any skip_message read_message
unfolding skip_message read_message
read_message-skip_message = search follow_rules depth 16

pub read_sec_rate-skip_sec_rate : Follows Any skip_sec_rate read_sec_rate
unfolding skip_sec_rate read_sec_rate
read_sec_rate-skip_sec_rate = search follow_rules depth 16

pub read_union-skip_union : Follows Any skip_union read_union
unfolding skip_union read_union
read_union-skip_union = search follow_rules depth 16

pub read_edp_rate-skip_edp_rate : Follows Any skip_edp_rate read_edp_rate
unfolding skip_edp_rate read_edp_rate
read_edp_rate-skip_edp_rate = search follow_rules depth 16

am_book_level-skip_am_book_level : Follows Both skip_am_book_level am_book_level
unfolding skip_am_book_level am_book_level skip_am_book_fields am_book_fields
am_book_level-skip_am_book_level = search follow_rules depth 16

-- A value made of what `q` reads.
made-Follows :
    {A B C : Type 0} (p : Parser A) (q : Parser B) (f : B → C)
    → Follows Any p q
    → Follows Any p (q >>= λ b. pure (f b))
unfolding pure
made-Follows p q f k = record {
  follow = λ r a r' h.
      let (b, _, e) = k.follow r a r' h in (f b, tt, bind_again q (λ b r. ok (f b, r)) e);
}

pub read_am_book-skip_am_book : Follows Any skip_am_book read_am_book
unfolding skip_am_book read_am_book
read_am_book-skip_am_book =
    then-Follows uint16 (read_all skip_am_book_level)
      (λ sec_id.
        read_all am_book_level >>= λ levels. pure (record { sec_id = sec_id; levels = levels }))
      (λ sec_id.
        made-Follows (read_all skip_am_book_level) (read_all am_book_level)
          (λ levels. record { sec_id = sec_id; levels = levels })
          (read_all-Follows am_book_level-skip_am_book_level))

bit_cases : (mask : ℕ) → (mask % 2 ≡ 0) ⊎ (mask % 2 ≡ 1)
bit_cases mask = elim (Bool-cases (mask % 2 == 0)) [
  | inl e ↦ inl (ground arith)
  | inr e ↦ inr (grind arith)
]

zero_plus : (n : ℕ) → 0 + n ≡ n
zero_plus n = omega arith

one_plus : (n : ℕ) → 1 + n ≡ suc n
one_plus n = omega arith

-- One value for each bit that is set.
quotation_values-skip_int32s :
    (left bit mask : ℕ)
    → Follows Any (skip_int32s (ones_count left mask)) (quotation_values left bit mask)
unfolding skip_int32s ones_count quotation_values
quotation_values-skip_int32s zero bit mask = pure-Follows tt [] tt
quotation_values-skip_int32s (suc left) bit mask =
    let rest = quotation_values-skip_int32s left (bit + 1) (mask / 2) in
    elim (bit_cases mask) [
      | inl e ↦ rw (e, zero_plus) rest
      | inr e ↦
          rw (e, one_plus)
            (then-Follows int32 (skip_int32s (ones_count left (mask / 2)))
              (λ value. quotation_values left (bit + 1) (mask / 2) >>= λ values.
                pure ((bit, sign_extend value) ∷ values))
              (λ value. made-Follows _ _ (λ values. (bit, sign_extend value) ∷ values) rest))
    ]

pub read_quotation-skip_quotation : Follows Any skip_quotation read_quotation
unfolding skip_quotation read_quotation
read_quotation-skip_quotation = then-Follows uint16 _ _ (λ sec_id. then-Follows uint16 _ _ (λ board.
    bind-Follows int64 _ _ (λ mask.
      made-Follows _ (quotation_values 64 0 mask)
        (λ values. record { sec_id = sec_id; board = board; mask = mask; values = values })
        (quotation_values-skip_int32s 64 0 mask))))
