-- ===== src/Session/Runs.antt =====
-- Concrete runs of the session.
use txmlconnector.Common.{
  ℕ, ◌≤◌, ◌≡◌, refl, arith, true, false, Option, none, some, List, [], ◌∷◌, ◌++◌, Bytes,
}
use txmlconnector.Common.{All, IsByte, length, take, drop, ok, header_crc}
use txmlconnector.Crypto.{
  Cipher, new_cipher, password_key, cfb_encrypt, cfb_decrypt, encrypt as cipher_encrypt, gamma,
}
use txmlconnector.Crypto.Tables.{default_key, default_sync}
use txmlconnector.Crypto.Runs.{test_hash, cipher_of}
use txmlconnector.Wire.Frame.{
  Frame, kind, default_keys, new_keys, max_payload, encode, decode, decode_payload, encrypt,
  decrypt, crc16,
}
use txmlconnector.Session.Conn.{
  closed, cancelled, answer, failed, Socket, Net, Conn, request, exchange, talk, write_and_read,
  receive, read_reply, unread_after, judge, frame_error,
}
use txmlconnector.Session.Conn.Pairing.{IsReply, wire_of, stream}
use txmlconnector.Session.Conn.Exchange.{IsWaiting, encoded, exchange_answers, exchange_abandons}
use txmlconnector.Session.Conn.Judged.{Answers, IsOwn, exchange-IsOwn}
use txmlconnector.Session.Payloads.{
  ClientInfo, pwd_payload, write_addresses, rq_relogin, rq_recover, relogin_payload,
  recover_payload,
}
use txmlconnector.Wire.Reader.{
  byte, raw, int32, extra_bytes, packed_word, little_endian, string, uint16,
}
use txmlconnector.Wire.Writer.{
  write_string, write_int32, write_int64, write_byte, write_raw, append_packed, before_nul,
}
use txmlconnector.Records.Parser.{◌>>=◌, pure}
use txmlconnector.Session.Replies.{
  Info, read_info, lenient, accepted, parse_login_reply, read_challenge, parse_relogin_reply,
  read_relogin_reply,
}
use txmlconnector.Session.Restore.{restore}
use txmlconnector.Session.Restore.Honest.{IsSame, restore_resumes, IsSettled, restore-IsSettled}
use txmlconnector.Session.Login.{Config, with_version, log_in}
use txmlconnector.Session.Login.Honest.{IsHonest, issue, log_in_agrees}
use txmlconnector.Session.Requests.{logout}
use txmlconnector.Session.Requests.Closed.{logout_final}
use txmlconnector.Session.Transact.{transact}
use txmlconnector.Session.Transact.Safety.{transact_unsent}
use txmlconnector.Session.Inquire.{inquire}
use txmlconnector.Session.Inquire.Reassembly.{replies, inquire_reassembles}

abbrev pub new_socket : Socket
new_socket = record { unread = []; sent = [] }

-- A connection that gave up two requests.
abbrev pub busy : Conn
busy = record {
  nc = some new_socket;
  keys = default_keys;
  sid = 3;
  seq = 9;
  last_type = 7;
  abandoned = 5 ∷ 6 ∷ [];
}

abbrev pub reply_of : ℕ → Bytes → Frame
reply_of type payload = record { flags = 2; type = type; payload = payload }

abbrev owed_replies : List Frame
owed_replies = reply_of 5 (1 ∷ 2 ∷ []) ∷ reply_of 6 [] ∷ []

abbrev pub good_net : Bytes → Net
good_net bytes = record { deadline_set = true; write_limit = none; arrives = bytes; ended = false }

abbrev ending_net : Bytes → Net
ending_net bytes = record { deadline_set = true; write_limit = none; arrives = bytes; ended = true }

reply_of-IsReply :
    (type : ℕ) (payload : Bytes)
    → IsByte type
    → All IsByte payload
    → length payload ≤ max_payload
    → IsReply (reply_of type payload)
unfolding kind
reply_of-IsReply type payload h k l = record {
  flags_byte = omega arith;
  type_byte = h;
  payload_bytes = k;
  fits = l;
  is_reply = refl;
}

busy-IsWaiting : IsWaiting busy owed_replies
busy-IsWaiting = record {
  socket = new_socket;
  open_nc = refl;
  drained = refl;
  listed = refl;
  replies = (
    reply_of-IsReply 5 (1 ∷ 2 ∷ []) (omega arith) (omega arith) (omega arith),
    (reply_of-IsReply 6 [] (omega arith) tt (omega arith), tt),
  );
}

exchange_answers_example :
    ((exchange
        (good_net (stream default_keys (owed_replies ++ (reply_of 8 (4 ∷ []) ∷ []))))
        8
        (1 ∷ [])
        true
        busy).0
      ≡ answer (reply_of 8 (4 ∷ [])))
    × IsWaiting
        (exchange
          (good_net (stream default_keys (owed_replies ++ (reply_of 8 (4 ∷ []) ∷ []))))
          8
          (1 ∷ [])
          true
          busy).1
        []
exchange_answers_example =
    exchange_answers (good_net (stream default_keys (owed_replies ++ (reply_of 8 (4 ∷ []) ∷ [])))) 8
      (1 ∷ []) busy owed_replies (reply_of 8 (4 ∷ [])) busy-IsWaiting
      (reply_of-IsReply 8 (4 ∷ []) (omega arith) (omega arith) (omega arith)) refl (omega arith)
      (record { in_time = refl; writes = refl; brings = refl })

exchange_abandons_example :
    ((exchange (ending_net (stream default_keys (take 1 owed_replies))) 8 (1 ∷ []) true busy).0
      ≡ failed cancelled)
    × IsWaiting
        (exchange (ending_net (stream default_keys (take 1 owed_replies))) 8 (1 ∷ []) true busy).1
        (drop 1 owed_replies ++ (reply_of 8 (4 ∷ []) ∷ []))
exchange_abandons_example =
    exchange_abandons (ending_net (stream default_keys (take 1 owed_replies))) 8 (1 ∷ []) busy
      owed_replies (reply_of 8 (4 ∷ [])) 1 busy-IsWaiting
      (reply_of-IsReply 8 (4 ∷ []) (omega arith) (omega arith) (omega arith)) refl (omega arith)
      (record { in_time = refl; writes = refl; brings = refl }) refl

exchange-IsOwn_example :
    Answers
      (IsOwn 8)
      (exchange
        (good_net (stream default_keys (owed_replies ++ (reply_of 8 (4 ∷ []) ∷ []))))
        8
        (1 ∷ [])
        true
        busy).0
exchange-IsOwn_example =
    exchange-IsOwn (good_net (stream default_keys (owed_replies ++ (reply_of 8 (4 ∷ []) ∷ [])))) 8
      (1 ∷ []) busy

-- A closed connection sends no transaction.
abbrev shut : Conn
shut = record busy { nc = none }

transact_unsent_example : (transact (good_net []) 2 (7 ∷ []) 41 shut).1.nc ≡ shut.nc
unfolding transact
transact_unsent_example = transact_unsent (good_net []) 2 (7 ∷ []) 41 shut refl

abbrev halves : Bytes → Option Bytes
halves z = some (9 ∷ 9 ∷ [])

inquire_reassembles_example :
    inquire halves [] (replies 1 2 5 ((1 ∷ 2 ∷ 3 ∷ []) ∷ (4 ∷ 5 ∷ []) ∷ []))
    ≡ record { offsets = 0 ∷ 3 ∷ []; document = ok (9 ∷ 9 ∷ []) }
inquire_reassembles_example =
    inquire_reassembles halves 1 (1 ∷ 2 ∷ 3 ∷ []) ((4 ∷ 5 ∷ []) ∷ []) (9 ∷ 9 ∷ []) (omega arith)
      (omega arith) refl (omega arith)

-- An honest login: the password's hash is `test_hash`, and the server issues 32 bytes 7 as the key.
abbrev sample_key : Bytes
sample_key =
    7 ∷ 7 ∷ 7 ∷ 7 ∷ 7 ∷ 7 ∷ 7 ∷ 7 ∷ 7 ∷ 7 ∷ 7 ∷ 7 ∷ 7 ∷ 7 ∷ 7 ∷ 7 ∷ 7 ∷ 7 ∷ 7 ∷ 7 ∷ 7 ∷ 7 ∷ 7 ∷ 7
    ∷ 7 ∷ 7 ∷ 7 ∷ 7 ∷ 7 ∷ 7 ∷ 7 ∷ 7 ∷ []

abbrev sample_sync : Bytes
sample_sync = 1 ∷ 2 ∷ 3 ∷ 4 ∷ 5 ∷ 6 ∷ 7 ∷ 8 ∷ []

abbrev sample_hash : Bytes → Bytes
sample_hash password = test_hash

abbrev sample_pw_key : Cipher
sample_pw_key = cipher_of (password_key sample_hash [])

abbrev sample_client : ClientInfo
sample_client = record {
  computer_name = 80 ∷ 67 ∷ [];
  user_name = 117 ∷ [];
  os = [];
  hardware_id = 12;
  addresses = 5 ∷ 6 ∷ [];
  trailer = 0;
}

abbrev sample_config : Config
sample_config = record { login = 65 ∷ []; password = []; client = sample_client }

abbrev sample_challenge : Bytes
sample_challenge = 1 ∷ 2 ∷ 3 ∷ 4 ∷ 5 ∷ 6 ∷ 7 ∷ 8 ∷ []

-- What the first reply says, and the fields of the second up to those that may be missing.
abbrev first_reply : Frame
first_reply = reply_of 1 (0 ∷ 8 ∷ sample_challenge)

abbrev info_bytes : Bytes
info_bytes = 1 ∷ 2 ∷ 3 ∷ 64 ∷ 5 ∷ 6 ∷ 7 ∷ 8 ∷ 144 ∷ []

abbrev second_reply : Frame
second_reply = reply_of 46 (issue sample_pw_key sample_key sample_sync info_bytes)

abbrev sample_info : Info
sample_info = record {
  version = none;
  byte1 = 1;
  byte2 = 2;
  byte3 = 3;
  session_timeout = 4;
  byte4 = 5;
  byte5 = 6;
  byte6 = 7;
  byte7 = 8;
  int1 = 9;
  flags = 0;
  byte8 = 0;
  sub_broker = 0;
  text1 = [];
  byte9 = 0;
  text2 = [];
  text3 = [];
  byte10 = 0;
  uid = 0;
  byte11 = 0;
  sid = 0;
  byte12 = 0;
  byte13 = 0;
  sys_version = 0;
  build = 0;
  byte14 = 0;
  int2 = 0;
  text4 = [];
  text5 = [];
  text6 = [];
  protocol = 62;
  forts_date = 0;
  text7 = [];
}

-- A reply may end behind `int1`; the protocol is then 62.
info_read : read_info info_bytes ≡ ok (sample_info, [])
unfolding read_info lenient byte int32 extra_bytes packed_word little_endian string uint16 pure
    ◌>>=◌
info_read = refl

sample_keys-read :
    new_keys sample_key sample_sync
    ≡ ok (record { cipher = cipher_of sample_key; sync = sample_sync })
unfolding new_keys new_cipher
sample_keys-read = refl

sample_pw_key-read : new_cipher (password_key sample_hash []) ≡ ok sample_pw_key
unfolding new_cipher password_key
sample_pw_key-read = refl

challenge_read : parse_login_reply first_reply.payload ≡ accepted (sample_challenge, none)
unfolding parse_login_reply read_challenge byte raw pure ◌>>=◌
challenge_read = refl

abbrev sample_payload : Bytes
sample_payload = elim (pwd_payload sample_pw_key sample_challenge sample_client) [
  | some p ↦ p
  | none ↦ []
]

payload_built : pwd_payload sample_pw_key sample_challenge sample_client ≡ some sample_payload
unfolding pwd_payload
payload_built = refl

sample_payload-fits : length sample_payload ≤ max_payload
unfolding pwd_payload write_addresses write_string write_int32 write_int64 write_byte write_raw
    append_packed before_nul gamma
sample_payload-fits = omega arith

issued_bytes : All IsByte (issue sample_pw_key sample_key sample_sync info_bytes)
unfolding cfb_encrypt cipher_encrypt password_key new_cipher default_sync
issued_bytes = omega arith

issued_fits : length (issue sample_pw_key sample_key sample_sync info_bytes) ≤ max_payload
unfolding cfb_encrypt cipher_encrypt password_key new_cipher default_sync
issued_fits = omega arith

sample_config-IsHonest :
    IsHonest sample_pw_key
      (good_net (stream default_keys (first_reply ∷ [])))
      (good_net (stream default_keys (second_reply ∷ [])))
      first_reply
      second_reply
      sample_key
      sample_sync
      info_bytes
sample_config-IsHonest = record {
  first_reply =
      reply_of-IsReply 1 (0 ∷ 8 ∷ sample_challenge) (omega arith) (omega arith) (omega arith);
  first_type = refl;
  first_brought = record { in_time = refl; writes = refl; brings = refl };
  second_reply =
      reply_of-IsReply 46 (issue sample_pw_key sample_key sample_sync info_bytes) (omega arith)
        issued_bytes issued_fits;
  second_type = refl;
  second_brought = record { in_time = refl; writes = refl; brings = refl };
  issues = refl;
  key_bytes = omega arith;
  sync_bytes = omega arith;
  key_length = refl;
  sync_length = refl;
}

log_in_agrees_example :
    (c : Conn) × (log_in sample_hash
        (good_net (stream default_keys (first_reply ∷ [])))
        (good_net (stream default_keys (second_reply ∷ [])))
        new_socket
        sample_config
      ≡ answer (c, with_version none sample_info))
    × (c.keys ≡ record { cipher = cipher_of sample_key; sync = sample_sync })
    × (c.sid ≡ 0)
    × (c.seq ≡ 2)
    × IsWaiting c []
log_in_agrees_example =
    log_in_agrees sample_hash (good_net (stream default_keys (first_reply ∷ [])))
      (good_net (stream default_keys (second_reply ∷ []))) new_socket sample_config sample_pw_key
      first_reply second_reply sample_challenge sample_payload sample_key sample_sync info_bytes []
      none sample_info (record { cipher = cipher_of sample_key; sync = sample_sync }) refl
      sample_pw_key-read sample_config-IsHonest challenge_read payload_built sample_payload-fits
      info_read sample_keys-read

abbrev pub token_reply : Frame
token_reply = reply_of 63 (2 ∷ 10 ∷ 11 ∷ 3 ∷ [])

token_read : parse_relogin_reply token_reply.payload ≡ ok (record { token = 10 ∷ 11 ∷ []; sid = 3 })
unfolding parse_relogin_reply read_relogin_reply byte raw pure ◌>>=◌
token_read = refl

recover_payload-fits : length (recover_payload (10 ∷ 11 ∷ []) 9) ≤ max_payload
unfolding recover_payload write_int32 write_raw append_packed
recover_payload-fits = omega arith

pub token_reply-IsSame :
    IsSame
      (good_net (stream default_keys (token_reply ∷ [])))
      (good_net (stream default_keys (reply_of 7 [] ∷ [])))
      busy
      token_reply
      (reply_of 7 [])
      (record { token = 10 ∷ 11 ∷ []; sid = 3 })
token_reply-IsSame = record {
  in_time = refl;
  writes = refl;
  first_reply =
      reply_of-IsReply 63 (2 ∷ 10 ∷ 11 ∷ 3 ∷ []) (omega arith) (omega arith) (omega arith);
  first_type = refl;
  first_brought = refl;
  parsed = token_read;
  same_sid = refl;
  token_fits = recover_payload-fits;
  writes_again = refl;
  second_reply = reply_of-IsReply 7 [] (omega arith) tt (omega arith);
  second_type = refl;
  second_brought = refl;
}

restore_resumes_example :
    restore
      (good_net (stream default_keys (token_reply ∷ [])))
      (good_net (stream default_keys (reply_of 7 [] ∷ [])))
      new_socket
      (65 ∷ [])
      busy
    ≡ (
      none,
      record busy {
        nc = some (record {
          unread = [];
          sent =
              encoded default_keys (request rq_relogin (relogin_payload (65 ∷ [])))
              ++ encoded default_keys (request rq_recover (recover_payload (10 ∷ 11 ∷ []) 9));
        });
        abandoned = [];
      },
    )
restore_resumes_example =
    restore_resumes (good_net (stream default_keys (token_reply ∷ [])))
      (good_net (stream default_keys (reply_of 7 [] ∷ []))) new_socket (65 ∷ []) busy token_reply
      (reply_of 7 []) (record { token = 10 ∷ 11 ∷ []; sid = 3 }) refl token_reply-IsSame

restore-IsSettled_example :
    IsSettled shut (restore (good_net []) (good_net []) new_socket (65 ∷ []) shut)
restore-IsSettled_example = restore-IsSettled (good_net []) (good_net []) new_socket (65 ∷ []) shut

-- A frame that comes in two parts around the end of the context: the first part is read and lost, and
-- the next exchange takes the second for a frame.
abbrev idle : Conn
idle = record {
  nc = some new_socket;
  keys = default_keys;
  sid = 3;
  seq = 9;
  last_type = 7;
  abandoned = [];
}

abbrev late_wire : Bytes
late_wire = wire_of default_keys (reply_of 8 (4 ∷ []))

abbrev second_wire : Bytes
second_wire = wire_of default_keys (reply_of 9 (5 ∷ []))

cut_frame_lost :
    (exchange
      (good_net (drop 4 late_wire ++ second_wire))
      9
      []
      true
      (exchange (ending_net (take 4 late_wire)) 8 [] true idle).1).0
    ≡ failed (frame_error header_crc)
unfolding exchange talk write_and_read receive read_reply unread_after wire_of encode decode
    decode_payload encrypt decrypt gamma cfb_encrypt cfb_decrypt cipher_encrypt crc16 new_cipher
    default_keys new_keys default_key default_sync judge kind
cut_frame_lost = refl

logout_final_example :
    (exchange (good_net []) 8 (1 ∷ []) true (logout (good_net []) busy).1
      ≡ (failed closed, (logout (good_net []) busy).1))
    × ((transact (good_net []) 2 (1 ∷ []) 41 (logout (good_net []) busy).1).0.error ≡ some closed)
    × ((transact (good_net []) 2 (1 ∷ []) 41 (logout (good_net []) busy).1).1
        ≡ (logout (good_net []) busy).1)
logout_final_example = logout_final (good_net []) (good_net []) busy 8 (1 ∷ []) true 2 41
