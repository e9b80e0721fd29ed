-- ===== src/Session/Requests.antt =====
-- native/session: the requests of an open session, each an exchange with the payload of its arguments
-- and a reading of its reply.
pub mod Closed
use txmlconnector.Common.{
  ℕ, ◌+◌, ◌≤◌, Bool, true, false, Option, none, some, List, [], ◌∷◌, Bytes, length, ltb,
  if◌then◌else◌, Error, Result, ok, err,
}
use txmlconnector.Wire.Frame.{Frame, max_payload, header_size}
use txmlconnector.Session.Payloads.{
  rq_main, rq_logout, rq_time, rq_startup, rq_subscribe, rq_sec_spec, rq_subscribe_ticks, rq_ticks,
  rq_history_ext, rq_option_families, rq_family_options, rq_certain_options, rq_family_strikes,
  rq_client_limits, rq_make_cond_own, rq_change_pwd, rq_trns_in_progress, SubscribeItem,
  subscribe_payload, sec_spec_request, option_families_payload, family_strikes_payload,
  family_options_payload, certain_options_payload, TickItem, client_limits_request,
  make_cond_own_payload, change_password_payload,
}
use txmlconnector.Session.Replies.{
  ServerTime, parse_time, ChangePasswordReply, parse_change_password_reply, OptionsOutcome, done,
  server_text, bad_reply, options_reply_error, make_cond_own_reply, transactions_in_progress,
}
use txmlconnector.Session.Conn.{
  SessionError, frame_error, change_password_fatal, server_text_error, Answer, answer, failed, Net,
  Conn, exchange, request_reply, close,
}

-- What a request returns, from its reply.
abbrev pub reading : {B : Type 0} → (Bytes → Answer B) → Answer Bytes × Conn → Answer B × Conn
reading read (answer p, c) = (read p, c)
reading read (failed e, c) = (failed e, c)

abbrev pub read_or_fail : {B : Type 0} → Result B → Answer B
read_or_fail (ok b) = answer b
read_or_fail (err e) = failed (frame_error e)

abbrev pub outcome : OptionsOutcome → Answer (Unit {0})
outcome done = answer tt
outcome (server_text text) = failed (server_text_error text)
outcome (bad_reply e) = failed (frame_error e)

abbrev pub nothing : Bytes → Answer (Unit {0})
nothing p = answer tt

unfoldable pub time : Net → Conn → Answer ServerTime × Conn
time net c = reading (λ p. read_or_fail (parse_time p)) (request_reply net rq_time [] c)

unfoldable pub startup : Net → Conn → Answer Bytes × Conn
startup net c = request_reply net rq_startup [] c

pub record MainReply : Type 0 where
  pub flags : ℕ
  pub payload : Bytes
  pub more : Bool

abbrev pub main_full_threshold : ℕ
main_full_threshold = 500

abbrev pub client_buffer_size : ℕ
client_buffer_size = 65512

-- The difference of the source may be negative, so its other side is the larger.
abbrev pub main_reply : Frame → MainReply
main_reply f = record {
  flags = f.flags;
  payload = f.payload;
  more = ltb (client_buffer_size + header_size) (main_full_threshold + length f.payload);
}

abbrev pub polled : Answer Frame × Conn → Answer MainReply × Conn
polled (answer f, c) = (answer (main_reply f), c)
polled (failed e, c) = (failed e, c)

unfoldable pub main : Net → Conn → Answer MainReply × Conn
main net c = polled (exchange net rq_main [] true c)

abbrev pub left : Answer Frame × Conn → Option SessionError × Conn
left (answer f, c) = (none, close c)
left (failed e, c) = (some e, close c)

-- The error of closing the socket is left out.
unfoldable pub logout : Net → Conn → Option SessionError × Conn
logout net c = left (exchange net rq_logout [] false c)

unfoldable pub subscribe : Net → List SubscribeItem → Conn → Answer (Unit {0}) × Conn
subscribe net [] c = (answer tt, c)
subscribe net (i ∷ items) c =
    reading nothing (request_reply net rq_subscribe (subscribe_payload (i ∷ items)) c)

unfoldable pub sec_spec : Net → List ℕ → Conn → Answer Bytes × Conn
sec_spec net [] c = (answer [], c)
sec_spec net (i ∷ ids) c = request_reply net rq_sec_spec (sec_spec_request (i ∷ ids)) c

unfoldable pub subscribe_ticks : Net → Bytes → Conn → Answer (Unit {0}) × Conn
subscribe_ticks net payload c = reading nothing (request_reply net rq_subscribe_ticks payload c)

unfoldable pub poll_ticks : Net → Bytes → Conn → Answer Bytes × Conn
poll_ticks net payload c = request_reply net rq_ticks payload c

unfoldable pub history_ext : Net → Bytes → Conn → Answer (Unit {0}) × Conn
history_ext net payload c = reading nothing (request_reply net rq_history_ext payload c)

abbrev pub option_outcome : Bytes → Answer (Unit {0})
option_outcome p = outcome (options_reply_error p)

unfoldable pub option_families : Net → ℕ → Conn → Answer (Unit {0}) × Conn
option_families net sec_id c =
    reading option_outcome (request_reply net rq_option_families (option_families_payload sec_id) c)

unfoldable pub family_strikes : Net → ℕ → ℕ → Conn → Answer (Unit {0}) × Conn
family_strikes net sec_id family_id c =
    reading option_outcome
      (request_reply net rq_family_strikes (family_strikes_payload sec_id family_id) c)

unfoldable pub family_options : Net → ℕ → Bytes → ℕ → ℕ → Conn → Answer (Unit {0}) × Conn
family_options net sec_id text first second c =
    reading option_outcome
      (request_reply net rq_family_options (family_options_payload sec_id text first second) c)

unfoldable pub certain_options : Net → List Bytes → Conn → Answer (Unit {0}) × Conn
certain_options net opt_codes c =
    reading option_outcome
      (request_reply net rq_certain_options (certain_options_payload opt_codes) c)

unfoldable pub client_limits : Net → ℕ → Conn → Answer Bytes × Conn
client_limits net client_id c =
    request_reply net rq_client_limits (client_limits_request client_id) c

unfoldable pub make_cond_own : Net → ℕ → Conn → Answer (Unit {0}) × Conn
make_cond_own net transaction_id c =
    reading (λ p. outcome (make_cond_own_reply p))
      (request_reply net rq_make_cond_own (make_cond_own_payload transaction_id) c)

abbrev pub changed : Option ChangePasswordReply → Answer ChangePasswordReply
changed none = failed change_password_fatal
changed (some reply) = answer reply

-- SHA-1 is a parameter.
unfoldable pub change_password :
    (Bytes → Bytes) → Net → Bytes → Bytes → Conn → Answer ChangePasswordReply × Conn
change_password sha1 net old_password new_password c =
    reading (λ p. changed (parse_change_password_reply p))
      (request_reply net rq_change_pwd (change_password_payload sha1 old_password new_password) c)

unfoldable pub transactions : Net → Conn → Answer (List ℕ) × Conn
transactions net c =
    reading (λ p. answer (transactions_in_progress p)) (request_reply net rq_trns_in_progress [] c)
