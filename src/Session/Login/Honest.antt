-- ===== src/Session/Login/Honest.antt =====
-- With a server that issues keys under the password's key, the login ends with the keys it issued.
use txmlconnector.Common.{
  ℕ, ◌≤◌, ◌≡◌, refl, sym, ap, ◌∙◌, arith, Option, some, [], ◌∷◌, ◌++◌, Bytes,
}
use txmlconnector.Common.{All, IsByte, length, take, length-append, length-take, ok}
use txmlconnector.Crypto.{Cipher, new_cipher, password_key, cfb_encrypt, cfb_decrypt}
use txmlconnector.Crypto.Tables.{default_sync}
use txmlconnector.Crypto.Feedback.{cfb_decrypt-cfb_encrypt, length-cfb_encrypt}
use txmlconnector.Wire.Frame.{Frame, Keys, default_keys, new_keys, max_payload}
use txmlconnector.Wire.Reader.{raw}
use txmlconnector.Wire.Writer.{write_raw, write_byte, write_uint16, write_string, before_nul}
use txmlconnector.Wire.Fields.{raw-write_raw}
use txmlconnector.Records.Parser.{◌>>=◌, pure}
use txmlconnector.Records.Parser.Local.{bind_again}
use txmlconnector.Session.Payloads.{max_login, rq_login, rq_pwd, login_payload, pwd_payload}
use txmlconnector.Session.Replies.{
  accepted, VersionInfo, Info, Issued, parse_login_reply, parse_pwd_reply, read_issued, read_info,
  from_read,
}
use txmlconnector.Session.Conn.{answer, Socket, Net, Conn, request_reply, payload_of}
use txmlconnector.Session.Conn.Pairing.{IsReply, stream}
use txmlconnector.Session.Conn.Exchange.{
  IsWaiting, IsGood, answered, answered-IsWaiting, exchange_own,
}
use txmlconnector.Session.Login.{
  Config, new_conn, switch_keys, challenged, prove, proved, refused, log_in, with_version, accept,
  checked, payload_or_fail,
}
use txmlconnector.Session.Restore.{◌>>=◌ as then_answer}

raw_front : (b rest : Bytes) (n : ℕ) → length b ≡ n → raw n (b ++ rest) ≡ ok (b, rest)
raw_front b rest n e =
    ap (λ m. raw m (b ++ rest)) (sym e) ∙ unfold write_raw in raw-write_raw b rest

-- The payload of the server's second reply.
abbrev pub issue : Cipher → Bytes → Bytes → Bytes → Bytes
issue pw_key key sync info =
    0 ∷ (cfb_encrypt pw_key default_sync key ++ (cfb_encrypt pw_key default_sync sync ++ info))

abbrev decrypted : Cipher → Bytes → Bytes → Info → Issued
decrypted pw_key k s i = record {
  info = i;
  key = cfb_decrypt pw_key default_sync k;
  sync = cfb_decrypt pw_key default_sync s;
}

-- The keys and the fields that were issued come out of the reply.
pub parse_pwd_reply-issue :
    (pw_key : Cipher) (key sync bytes : Bytes) (info : Info) (rest : Bytes)
    → All IsByte key
    → All IsByte sync
    → length key ≡ 32
    → length sync ≡ 8
    → read_info bytes ≡ ok (info, rest)
    → parse_pwd_reply pw_key (issue pw_key key sync bytes)
      ≡ accepted (record { info = info; key = key; sync = sync })
unfolding parse_pwd_reply read_issued pure
parse_pwd_reply-issue pw_key key sync bytes info rest hk hs lk ls e =
    let ek = cfb_encrypt pw_key default_sync key in
    let es = cfb_encrypt pw_key default_sync sync in
    ap from_read (
      bind_again (raw 32) (λ k. raw 8 >>= λ s. read_info >>= λ i. pure (decrypted pw_key k s i))
        (raw_front ek (es ++ bytes) 32 (length-cfb_encrypt pw_key default_sync key ∙ lk))
      ∙ bind_again (raw 8) (λ s. read_info >>= λ i. pure (decrypted pw_key ek s i))
          (raw_front es bytes 8 (length-cfb_encrypt pw_key default_sync sync ∙ ls))
      ∙ bind_again read_info (λ i. pure (decrypted pw_key ek es i)) e)
    ∙ ap
        (λ k. accepted (record { info = info; key = k; sync = cfb_decrypt pw_key default_sync es }))
        (cfb_decrypt-cfb_encrypt pw_key default_sync key hk)
    ∙ ap (λ s. accepted (record { info = info; key = key; sync = s }))
        (cfb_decrypt-cfb_encrypt pw_key default_sync sync hs)

-- What an honest server sends during a login: replies to both requests, the second with the keys under
-- the password's key, in frames that the network brings whole.
pub record IsHonest (pw_key : Cipher) (net net' : Net) (first second : Frame)
    (key sync bytes : Bytes) : Type 0 where
  pub first_reply : IsReply first
  pub first_type : first.type ≡ rq_login
  pub first_brought : IsGood net (stream default_keys (first ∷ []))
  pub second_reply : IsReply second
  pub second_type : second.type ≡ rq_pwd
  pub second_brought : IsGood net' (stream default_keys (second ∷ []))
  pub issues : second.payload ≡ issue pw_key key sync bytes
  pub key_bytes : All IsByte key
  pub sync_bytes : All IsByte sync
  pub key_length : length key ≡ 32
  pub sync_length : length sync ≡ 8

new_conn-IsWaiting : (nc : Socket) → nc.unread ≡ [] → IsWaiting (new_conn nc) []
new_conn-IsWaiting nc e = record {
  socket = nc;
  open_nc = refl;
  drained = e;
  listed = refl;
  replies = tt;
}

request_own :
    (net : Net) (type : ℕ) (payload : Bytes) (c : Conn) (f : Frame)
    → IsWaiting c []
    → IsReply f
    → f.type ≡ type
    → length payload ≤ max_payload
    → IsGood net (stream c.keys (f ∷ []))
    → (sent : Bytes) × (request_reply net type payload c ≡ (answer f.payload, answered type c sent))
unfolding request_reply
request_own net type payload c f w h e l g =
    let (sent, x) = exchange_own net type payload c [] f w h e l g in (sent, ap payload_of x)

login_payload-fits : (login : Bytes) → length (login_payload login) ≤ max_payload
unfolding login_payload write_byte write_uint16 write_string
login_payload-fits login =
    let text = take max_login (before_nul login) in
    omega (
      arith,
      length-append (text ++ (0 ∷ [])) (255 ∷ 232 ∷ []),
      length-append text (0 ∷ []),
      length-take max_login (before_nul login),
    )

-- With a server that knows the password's key, issues keys under it and sends both replies whole,
-- and with a payload of RQ_PWD that fits a frame, the login succeeds: the connection has the issued
-- keys and the server's id, two requests are counted and no reply is owed.
pub log_in_agrees :
    (sha1 : Bytes → Bytes) (net net' : Net) (nc : Socket) (cfg : Config) (pw_key : Cipher)
    (first second : Frame) (challenge payload key sync bytes rest : Bytes)
    (version : Option VersionInfo) (info : Info) (keys : Keys)
    → nc.unread ≡ []
    → new_cipher (password_key sha1 cfg.password) ≡ ok pw_key
    → IsHonest pw_key net net' first second key sync bytes
    → parse_login_reply first.payload ≡ accepted (challenge, version)
    → pwd_payload pw_key challenge cfg.client ≡ some payload
    → length payload ≤ max_payload
    → read_info bytes ≡ ok (info, rest)
    → new_keys key sync ≡ ok keys
    → (c : Conn) × (log_in sha1 net net' nc cfg ≡ answer (c, with_version version info))
      × (c.keys ≡ keys)
      × (c.sid ≡ info.sid)
      × (c.seq ≡ 2)
      × IsWaiting c []
unfolding log_in challenged prove proved switch_keys refused
log_in_agrees sha1 net net' nc cfg pw_key first second challenge payload key sync bytes rest version
      info keys empty pw honest chal pays fits infos newk =
    let (sent, e) =
      request_own net rq_login (login_payload cfg.login) (new_conn nc) first
        (new_conn-IsWaiting nc empty) honest.first_reply honest.first_type
        (login_payload-fits cfg.login) honest.first_brought in
    let c1 = answered rq_login (new_conn nc) sent in
    let (sent', e') =
      request_own net' rq_pwd payload c1 second (answered-IsWaiting rq_login (new_conn nc) sent)
        honest.second_reply honest.second_type fits honest.second_brought in
    let c2 = answered rq_pwd c1 sent' in
    (
      record c2 { keys = keys; sid = info.sid },
      ap (challenged sha1 net' cfg) e
          ∙ ap
              (λ r. then_answer (accept r) (λ ch.
                then_answer (checked (new_cipher (password_key sha1 cfg.password)))
                  (λ k. prove net' cfg k c1 ch)))
              chal
          ∙ ap (λ r. then_answer (checked r) (λ k. prove net' cfg k c1 (challenge, version))) pw
          ∙ ap
              (λ r.
                then_answer (payload_or_fail r)
                  (λ p. proved pw_key version (request_reply net' rq_pwd p c1)))
              pays
          ∙ ap (proved pw_key version) e'
          ∙ ap (λ p. then_answer (accept (parse_pwd_reply pw_key p)) (switch_keys c2 version))
              honest.issues
          ∙ ap (λ r. then_answer (accept r) (switch_keys c2 version))
              (parse_pwd_reply-issue pw_key key sync bytes info rest honest.key_bytes
                honest.sync_bytes honest.key_length honest.sync_length infos)
          ∙ ap
              (λ r. then_answer (checked r) (λ keys.
                answer (record c2 { keys = keys; sid = info.sid }, with_version version info)))
              newk,
      refl,
      refl,
      refl,
      record {
        socket = record { unread = []; sent = sent' };
        open_nc = refl;
        drained = refl;
        listed = refl;
        replies = tt;
      },
    )
