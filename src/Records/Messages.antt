-- ===== src/Records/Messages.antt =====
-- native/records/message.go and news.go: messages and the headers of news. The end of a packed news
-- body is found by the standard library's zlib reader, which is a parameter: it says how many bytes
-- of its input the stream takes, or that they hold no stream.
use txmlconnector.Common.{ℕ, Bytes}
use txmlconnector.Common.{Result}
use txmlconnector.Wire.Words.{sign_extend}
use txmlconnector.Wire.Reader.{byte, int32}
use txmlconnector.Records.Parser.{Parser, ◌>>=◌, pure, read_cstring, finished}

pub record RMsg : Type 0 where
  pub flags : ℕ
  pub sender : Bytes
  pub date : ℕ
  pub text : Bytes

unfoldable pub read_message : Parser RMsg
read_message = do
  flags ← byte
  sender ← read_cstring 20
  date ← int32
  text ← read_cstring 1024
  pure (record { flags = flags; sender = sender; date = sign_extend date; text = text })

unfoldable pub parse_rmsg : Bytes → Result RMsg
parse_rmsg body = finished (read_message body)

unfoldable pub skip_message : Parser (Unit {0})
skip_message = do
  flags ← byte
  sender ← read_cstring 20
  date ← int32
  text ← read_cstring 1024
  pure tt

pub record NewsHeaderRecord : Type 0 where
  pub id : ℕ
  pub timestamp : ℕ
  pub source : Bytes
  pub title : Bytes
  pub flag : ℕ

unfoldable pub read_news_header_fields : Parser NewsHeaderRecord
read_news_header_fields = do
  id ← int32
  timestamp ← int32
  source ← read_cstring 16
  title ← read_cstring 128
  flag ← byte
  pure (record {
    id = sign_extend id;
    timestamp = sign_extend timestamp;
    source = source;
    title = title;
    flag = flag;
  })

unfoldable pub parse_news_header : Bytes → Result NewsHeaderRecord
parse_news_header body = finished (read_news_header_fields body)
