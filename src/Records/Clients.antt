-- ===== src/Records/Clients.antt =====
-- native/records/client.go: the client accounts, R_CLN_NEW.
use txmlconnector.Common.{ℕ, Bytes, [], ◌∷◌, Result, ◌==◌, if◌then◌else◌}
use txmlconnector.Wire.Reader.{byte, uint16, int32, int64, string}
use txmlconnector.Records.Parser.{Parser, ◌>>=◌, pure, value_of}

pub record ClientNew : Type 0 where
  pub id : ℕ
  pub code : Bytes
  pub login : Bytes
  pub flag : ℕ
  pub type : ℕ
  pub market : ℕ
  pub union : Bytes
  pub byte1 : ℕ
  pub currency_id : ℕ
  pub word : ℕ
  pub cl_port_sub : ℕ
  pub int1 : ℕ
  pub extra : Bytes

-- `if r.Len() > 0 { c.Extra, _ = r.Raw(r.Len()) }`: all that is left.
unfoldable pub read_extra : Parser Bytes
read_extra r = pure r []

unfoldable pub read_client_new : Parser ClientNew
unfolding read_extra
read_client_new = do
  id ← int64
  code ← string 12
  login ← string 32
  flag ← byte
  type ← byte
  market ← byte
  union ← string 7
  byte1 ← byte
  currency_id ← byte
  word ← uint16
  cl_port_sub ← byte
  int1 ← int32
  extra ← read_extra
  pure (record {
    id = id;
    code = code;
    login = login;
    flag = flag;
    type = type;
    market = market;
    union = union;
    byte1 = byte1;
    currency_id = currency_id;
    word = word;
    cl_port_sub = cl_port_sub;
    int1 = int1;
    extra = extra;
  })

-- `ParseClientNew`.
unfoldable pub parse_client_new : Bytes → Result ClientNew
unfolding read_client_new
parse_client_new body = value_of (read_client_new body)

-- `ClientTypeName`, whose second result no caller reads, and `CurrencyName`.
unfoldable pub client_type_name : ℕ → Bytes
client_type_name t =
    if t == 0
    then b's' ∷ b'p' ∷ b'o' ∷ b't' ∷ []
    else if t == 1
    then b'r' ∷ b'i' ∷ b's' ∷ b'k' ∷ []
    else if t == 2
    then b'l' ∷ b'e' ∷ b'v' ∷ b'e' ∷ b'r' ∷ b'a' ∷ b'g' ∷ b'e' ∷ []
    else if t == 3
    then b'm' ∷ b'a' ∷ b'r' ∷ b'g' ∷ b'i' ∷ b'n' ∷ b'_' ∷ b'l' ∷ b'e' ∷ b'v' ∷ b'e' ∷ b'l' ∷ []
    else if t == 4
    then b'm' ∷ b'c' ∷ b't' ∷ []
    else []

unfoldable pub currency_name : ℕ → Bytes
currency_name id = if id == 1 then b'R' ∷ b'U' ∷ b'B' ∷ [] else []
