-- ===== src/Records/Modify.antt =====
-- native/records/order.go: R_ORD_MODIFY, the update of an order. A body that ran out is skipped.
use txmlconnector.Common.{ℕ, ◌+◌, ◌*◌, not, Option, none, some}
use txmlconnector.Common.{List, [], ◌∷◌, ◌++◌, Bytes, ltb, ◌==◌, if◌then◌else◌, ok, err}
use txmlconnector.Wire.Words.{sign_extend}
use txmlconnector.Wire.Reader.{byte, int32, int64, raw, string}
use txmlconnector.Records.Parser.{Parser, ◌>>=◌, ◌>>◌, pure, fail, has_bit, optional}
use txmlconnector.Common.{bad_value}
use txmlconnector.Records.Orders.{Order, cents, skip_with}

-- What one bit of the mask of R_ORD_MODIFY changes in an order. The source composes functions.
pub data Change : Type 0 where
  set_status set_order_no set_price set_quantity set_balance set_condition_value : ℕ → Change
  set_broker_ref : Bytes → Change
  set_valid_after set_valid_before : ℕ → Change

-- The result of a cancelled order, in UTF-8.
abbrev pub cancelled_text : Bytes
cancelled_text =
    0x7b ∷ 0x33 ∷ 0x37 ∷ 0x7d ∷ 0x20 ∷ 0xd0 ∷ 0x97 ∷ 0xd0 ∷ 0xb0 ∷ 0xd1 ∷ 0x8f ∷ 0xd0 ∷ 0xb2 ∷ 0xd0
    ∷ 0xba ∷ 0xd0 ∷ 0xb0 ∷ 0x20 ∷ 0xd0 ∷ 0xbe ∷ 0xd1 ∷ 0x82 ∷ 0xd0 ∷ 0xbc ∷ 0xd0 ∷ 0xb5 ∷ 0xd0
    ∷ 0xbd ∷ 0xd0 ∷ 0xb5 ∷ 0xd0 ∷ 0xbd ∷ 0xd0 ∷ 0xb0 ∷ []

-- `orderStatusResult`.
unfoldable pub order_status_result : ℕ → Bytes
order_status_result status = if status == 2 then cancelled_text else []

unfoldable pub change : Change → Order → Order
unfolding order_status_result
change (set_status v) o = record o { status = v; result = order_status_result v }
change (set_order_no v) o = record o { order_no = v }
change (set_price v) o = record o { price = cents (sign_extend v) }
change (set_quantity v) o = record o { quantity = sign_extend v }
change (set_balance v) o = record o { balance = sign_extend v }
change (set_condition_value v) o = record o { condition_value = cents (sign_extend v) }
change (set_broker_ref v) o = record o { broker_ref = v }
change (set_valid_after v) o = record o { valid_after = v }
change (set_valid_before v) o = record o { valid_before = v }

-- `out.Apply`.
unfoldable pub change_all : List Change → Order → Order
unfolding change
change_all [] o = o
change_all (x ∷ xs) o = change_all xs (change x o)

abbrev pub one : {A : Type 0} → (A → Change) → Parser A → Parser (List Change)
one make read = do v ← read; pure (make v ∷ [])

-- A flag, and a text where it is set.
unfoldable pub skip_special : Parser (Unit {0})
skip_special = do flag ← byte; optional (not (flag == 0)) (skip_with (string 512)) tt

-- The fields that the mask selects.
unfoldable pub read_changes : ℕ → Parser (List Change)
unfolding skip_special
read_changes mask = do
  status ← optional (has_bit mask 0) (one set_status byte) []
  order_no ← optional (has_bit mask 1) (one set_order_no int64) []
  price ← optional (has_bit mask 2) (one set_price int32) []
  quantity ← optional (has_bit mask 3) (one set_quantity int32) []
  balance ← optional (has_bit mask 4) (one set_balance int32) []
  condition ← optional (has_bit mask 5) (one set_condition_value int32) []
  broker_ref ← optional (has_bit mask 6) (one set_broker_ref (string 12)) []
  after ← optional (has_bit mask 7) (one set_valid_after int32) []
  before ← optional (has_bit mask 8) (one set_valid_before int32) []
  optional (has_bit mask 9) (skip_with int32) tt
  optional (has_bit mask 10) skip_special tt
  pure (
      status
      ++ (order_no
          ++ (price
              ++ (quantity ++ (balance ++ (condition ++ (broker_ref ++ (after ++ before))))))))

-- Four bytes, the most significant first.
abbrev pub big_endian32 : Bytes → ℕ
big_endian32 (a ∷ b ∷ c ∷ d ∷ r) = ((a * 256 + b) * 256 + c) * 256 + d
big_endian32 r = 0

unfoldable pub read_modify : Parser (ℕ × List Change)
unfolding read_changes
read_modify = do
  id ← int32
  bytes ← raw 4
  let mask = big_endian32 bytes
  if ltb 0x7ff mask then fail bad_value else (read_changes mask >>= λ changes. pure (id, changes))

-- `ParseOrderModify`: the transaction and its changes; `none` stands for `Short`.
unfoldable pub parse_order_modify : Bytes → Option (ℕ × List Change)
unfolding read_modify
parse_order_modify body = elim (read_modify body) [ ok (m, r) ↦ some m | err e ↦ none ]
