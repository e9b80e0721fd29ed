-- ===== src/Session/Replies.antt =====
-- native/session: the replies. A reply that a request refuses is an error of the request.
use txmlconnector.Common.{ℕ, zero, suc, ◌||◌, Option, none, some, List, [], ◌∷◌, Bytes}
use txmlconnector.Common.{
  length, ltb, ◌==◌, if◌then◌else◌, Error, Result, ok, err, short_buffer, bad_value,
}
use txmlconnector.Crypto.Tables.{default_sync}
use txmlconnector.Crypto.{Cipher, cfb_decrypt}
use txmlconnector.Wire.Words.{sign_extend}
use txmlconnector.Wire.Reader.{Read, byte, uint16, raw, string, int32, int64}
use txmlconnector.Records.Parser.{
  Parser, ◌>>=◌, ◌>>◌, pure, read_cstring, has_bit, optional, finished, value_of,
}

pub record VersionInfo : Type 0 where
  pub text : Bytes
  pub a : ℕ
  pub b : ℕ

-- What the reply to RQ_LOGIN or RQ_PWD gives: its value, the code of a refusal with the server's
-- text, or a malformed reply.
pub data LoginReply (A : Type 0) : Type 0 where
  accepted : A → LoginReply A
  rejected : ℕ → Bytes → LoginReply A
  malformed : Error → LoginReply A

abbrev pub from_read : {A : Type 0} → Read A → LoginReply A
from_read (ok (a, r)) = accepted a
from_read (err e) = malformed e

unfoldable pub read_version : Parser (Option VersionInfo)
read_version = do
  text ← string 0x20
  a ← int32
  b ← int32
  pure (some (record { text = text; a = a; b = sign_extend b }))

unfoldable pub read_challenge : ℕ → Parser (Bytes × Option VersionInfo)
read_challenge flags = do
  n ← byte
  challenge ← raw n
  version ← optional (has_bit flags 0) read_version none
  pure (challenge, version)

unfoldable pub parse_login_reply : Bytes → LoginReply (Bytes × Option VersionInfo)
parse_login_reply [] = malformed short_buffer
parse_login_reply (flags ∷ r) =
    if has_bit flags 2
    then rejected 0xc []
    else if has_bit flags 3
    then rejected 0xd []
    else from_read (read_challenge flags r)

-- The fields of `Info` in the order of the reply. The version is that of the RQ_LOGIN reply.
pub record Info : Type 0 where
  pub version : Option VersionInfo
  pub byte1 : ℕ
  pub byte2 : ℕ
  pub byte3 : ℕ
  pub session_timeout : ℕ
  pub byte4 : ℕ
  pub byte5 : ℕ
  pub byte6 : ℕ
  pub byte7 : ℕ
  pub int1 : ℕ
  pub flags : ℕ
  pub byte8 : ℕ
  pub sub_broker : ℕ
  pub text1 : Bytes
  pub byte9 : ℕ
  pub text2 : Bytes
  pub text3 : Bytes
  pub byte10 : ℕ
  pub uid : ℕ
  pub byte11 : ℕ
  pub sid : ℕ
  pub byte12 : ℕ
  pub byte13 : ℕ
  pub sys_version : ℕ
  pub build : ℕ
  pub byte14 : ℕ
  pub int2 : ℕ
  pub text4 : Bytes
  pub text5 : Bytes
  pub text6 : Bytes
  pub protocol : ℕ
  pub forts_date : ℕ
  pub text7 : Bytes

-- A read whose failure is ignored: the field is then `absent`, and the position stays.
unfoldable pub lenient : {A : Type 0} → Parser A → A → Parser A
lenient read absent r = elim (read r) [ ok (a, r') ↦ ok (a, r') | err e ↦ ok (absent, r) ]

unfoldable pub read_info : Parser Info
read_info = do
  byte1 ← byte
  byte2 ← byte
  byte3 ← byte
  session_timeout ← int32
  byte4 ← byte
  byte5 ← byte
  byte6 ← byte
  byte7 ← byte
  int1 ← int32
  flags ← lenient byte 0
  byte8 ← lenient byte 0
  sub_broker ← lenient byte 0
  text1 ← lenient (string 0x81) []
  byte9 ← lenient byte 0
  text2 ← lenient (string 0x41) []
  text3 ← lenient (string 0xd) []
  byte10 ← lenient byte 0
  uid ← lenient int32 0
  byte11 ← lenient byte 0
  sid ← lenient byte 0
  byte12 ← lenient byte 0
  byte13 ← lenient byte 0
  sys_version ← lenient int32 0
  build ← lenient int32 0
  byte14 ← lenient byte 0
  int2 ← lenient int32 0
  text4 ← lenient (string 0xf) []
  text5 ← lenient (string 0x80) []
  text6 ← lenient (string 0x40) []
  protocol ← lenient uint16 62
  forts_date ← lenient int32 0
  text7 ← lenient (string 0xf) []
  pure (record {
    version = none;
    byte1 = byte1;
    byte2 = byte2;
    byte3 = byte3;
    session_timeout = session_timeout;
    byte4 = byte4;
    byte5 = byte5;
    byte6 = byte6;
    byte7 = byte7;
    int1 = int1;
    flags = flags;
    byte8 = byte8;
    sub_broker = sub_broker;
    text1 = text1;
    byte9 = byte9;
    text2 = text2;
    text3 = text3;
    byte10 = byte10;
    uid = uid;
    byte11 = byte11;
    sid = sid;
    byte12 = byte12;
    byte13 = byte13;
    sys_version = sys_version;
    build = build;
    byte14 = byte14;
    int2 = int2;
    text4 = text4;
    text5 = text5;
    text6 = text6;
    protocol = protocol;
    forts_date = forts_date;
    text7 = text7;
  })

pub record Issued : Type 0 where
  pub info : Info
  pub key : Bytes
  pub sync : Bytes

unfoldable pub read_issued : Cipher → Parser Issued
read_issued pw_key = do
  enc_key ← raw 32
  enc_sync ← raw 8
  info ← read_info
  pure (record {
    info = info;
    key = cfb_decrypt pw_key default_sync enc_key;
    sync = cfb_decrypt pw_key default_sync enc_sync;
  })

-- The server's text of a refusal; a text that cannot be read is empty.
unfoldable pub refusal_text : ℕ → Bytes → Bytes
refusal_text status r =
    if status == 0x0e then elim (string 0x103 r) [ ok (s, r') ↦ s | err e ↦ [] ] else []

unfoldable pub parse_pwd_reply : Cipher → Bytes → LoginReply Issued
parse_pwd_reply pw_key [] = malformed short_buffer
parse_pwd_reply pw_key (status ∷ r) =
    if status == 0
    then from_read (read_issued pw_key r)
    else rejected status (refusal_text status r)

pub record ServerTime : Type 0 where
  pub seconds : ℕ
  pub zone : Bytes

-- `uint32(secs)` is the bit pattern.
unfoldable pub read_time : Parser ServerTime
read_time = do seconds ← int32; zone ← raw 16; pure (record { seconds = seconds; zone = zone })

unfoldable pub parse_time : Bytes → Result ServerTime
parse_time p = value_of (read_time p)

pub record ReloginReply : Type 0 where
  pub token : Bytes
  pub sid : ℕ

unfoldable pub read_relogin_reply : Parser ReloginReply
read_relogin_reply = do
  n ← byte
  token ← raw n
  sid ← byte
  pure (record { token = token; sid = sid })

unfoldable pub parse_relogin_reply : Bytes → Result ReloginReply
parse_relogin_reply p = value_of (read_relogin_reply p)

pub record ChangePasswordReply : Type 0 where
  pub status : ℕ
  pub message : Bytes

-- The text behind status 2, which has to be all of the rest and not empty.
unfoldable pub fatal_or_text : Read Bytes → Option ChangePasswordReply
fatal_or_text (ok (c ∷ text, [])) = some (record { status = 2; message = c ∷ text })
fatal_or_text _ = none

-- With `none` the reply is `ErrChangePasswordFatal`.
unfoldable pub parse_change_password_reply : Bytes → Option ChangePasswordReply
parse_change_password_reply [] = none
parse_change_password_reply (status ∷ r) =
    if status == 0 || status == 1
    then if length r == 0 then some (record { status = status; message = [] }) else none
    else if status == 2
    then if ltb (length r) 2 then none else fatal_or_text (read_cstring 0xfff0 r)
    else none

-- `OptionsReply`: the text, with nothing behind it.
unfoldable pub options_reply : Bytes → Result Bytes
options_reply [] = err bad_value
options_reply (c ∷ p) = finished (read_cstring 0x200 (c ∷ p))

-- What an option request ends with: done, the server's text, or a reply that is malformed.
pub data OptionsOutcome : Type 0 where
  done : OptionsOutcome
  server_text : Bytes → OptionsOutcome
  bad_reply : Error → OptionsOutcome

abbrev pub text_outcome : Result Bytes → OptionsOutcome
text_outcome (ok []) = done
text_outcome (ok (c ∷ s)) = server_text (c ∷ s)
text_outcome (err e) = bad_reply e

unfoldable pub options_reply_error : Bytes → OptionsOutcome
options_reply_error [] = done
options_reply_error (c ∷ p) = text_outcome (options_reply (c ∷ p))

-- `MakeCondOwn`, whose text may have bytes behind it.
unfoldable pub make_cond_own_reply : Bytes → OptionsOutcome
make_cond_own_reply [] = done
make_cond_own_reply (c ∷ p) = text_outcome (value_of (string 0x200 (c ∷ p)))

-- One record of RQ_TRNS_IN_PROGRESS behind its number.
unfoldable pub skip_transaction : Parser (Unit {0})
skip_transaction = do
  int32
  byte
  int64
  string 12
  byte
  string 25
  byte
  int32
  string 15
  string 15
  pure tt

-- The numbers up to the first read that fails. A record takes a byte at least.
unfoldable pub transaction_numbers : ℕ → Bytes → List ℕ
transaction_numbers zero r = []
transaction_numbers (suc fuel) r = elim (int32 r) [
  | err e ↦ []
  | ok (number, r') ↦
      sign_extend number
      ∷ elim (skip_transaction r') [ err e ↦ [] | ok (u, r'') ↦ transaction_numbers fuel r'' ]
]

unfoldable pub transactions_in_progress : Bytes → List ℕ
unfolding transaction_numbers
transactions_in_progress payload = transaction_numbers (suc (length payload)) payload
