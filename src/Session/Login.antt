-- ===== src/Session/Login.antt =====
-- native/session/login.go: the login sequence over a new socket, up to the issued keys.
pub mod Honest
use txmlconnector.Common.{ℕ, Bool, true, false, not, Option, none, some, List, [], ◌∷◌, Bytes}
use txmlconnector.Common.{◌==◌, if◌then◌else◌, Error, Result, ok, err}
use txmlconnector.Crypto.{Cipher, new_cipher, password_key}
use txmlconnector.Wire.Frame.{Keys, default_keys, new_keys}
use txmlconnector.Session.Payloads.{ClientInfo, rq_login, rq_pwd, login_payload, pwd_payload}
use txmlconnector.Session.Replies.{
  LoginReply, accepted, rejected, malformed, VersionInfo, Info, Issued, parse_login_reply,
  parse_pwd_reply,
}
use txmlconnector.Session.Conn.{
  SessionError, frame_error, bye, login_error, bad_payload, Answer, answer, failed, Socket, Net,
  Conn, request_reply,
}
use txmlconnector.Session.Restore.{◌>>=◌}

pub record Config : Type 0 where
  pub login : Bytes
  pub password : Bytes
  pub client : ClientInfo

abbrev pub new_conn : Socket → Conn
new_conn s = record {
  nc = some s;
  keys = default_keys;
  sid = 0;
  seq = 0;
  last_type = 0;
  abandoned = [];
}

abbrev pub accept : {A : Type 0} → LoginReply A → Answer A
accept (accepted a) = answer a
accept (rejected code text) = failed (login_error code text)
accept (malformed e) = failed (frame_error e)

abbrev pub checked : {A : Type 0} → Result A → Answer A
checked (ok a) = answer a
checked (err e) = failed (frame_error e)

abbrev pub payload_or_fail : Option Bytes → Answer Bytes
payload_or_fail none = failed bad_payload
payload_or_fail (some p) = answer p

-- A BYE to RQ_PWD with a code that is not 0 is a refused login.
unfoldable pub refused : Answer Bytes → Answer Bytes
refused (failed (bye (code ∷ r))) =
    if code == 0 then failed (bye (code ∷ r)) else failed (login_error code [])
refused a = a

abbrev pub with_version : Option VersionInfo → Info → Info
with_version version info = record info { version = version }

-- What the login keeps of the second reply: the session's keys and the server's id.
unfoldable pub switch_keys : Conn → Option VersionInfo → Issued → Answer (Conn × Info)
switch_keys c version issued = do
  keys ← checked (new_keys issued.key issued.sync)
  answer (record c { keys = keys; sid = (issued.info).sid }, with_version version issued.info)

-- What follows the reply to RQ_PWD.
unfoldable pub proved : Cipher → Option VersionInfo → Answer Bytes × Conn → Answer (Conn × Info)
unfolding switch_keys
proved pw_key version (reply, c) = do
  p ← refused reply
  issued ← accept (parse_pwd_reply pw_key p)
  switch_keys c version issued

-- RQ_PWD with the answer to the challenge.
unfoldable pub prove :
    Net → Config → Cipher → Conn → Bytes × Option VersionInfo → Answer (Conn × Info)
unfolding proved
prove net cfg pw_key c (challenge, version) = do
  payload ← payload_or_fail (pwd_payload pw_key challenge cfg.client)
  proved pw_key version (request_reply net rq_pwd payload c)

-- What follows the reply to RQ_LOGIN. SHA-1 is a parameter.
unfoldable pub challenged :
    (Bytes → Bytes) → Net → Config → Answer Bytes × Conn → Answer (Conn × Info)
unfolding prove
challenged sha1 net cfg (reply, c) = do
  p ← reply
  challenge ← accept (parse_login_reply p)
  pw_key ← checked (new_cipher (password_key sha1 cfg.password))
  prove net cfg pw_key c challenge

-- `Login`; `net` is the network of the first exchange and `net'` that of the second.
unfoldable pub log_in : (Bytes → Bytes) → Net → Net → Socket → Config → Answer (Conn × Info)
unfolding challenged
log_in sha1 net net' nc cfg =
    challenged sha1 net' cfg (request_reply net rq_login (login_payload cfg.login) (new_conn nc))
