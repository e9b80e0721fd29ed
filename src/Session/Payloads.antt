-- ===== src/Session/Payloads.antt =====
-- native/session: the payloads of the requests. An int32 and an int64 are given by their bit patterns.
use txmlconnector.Common.{
  ℕ, ◌++◌, Bool, Option, none, some, List, [], ◌∷◌, Bytes, length, ltb, ◌==◌, if◌then◌else◌,
}
use txmlconnector.Crypto.Tables.{default_sync}
use txmlconnector.Crypto.{Cipher, gamma}
use txmlconnector.Wire.Words.{truncate32}
use txmlconnector.Wire.Writer.{
  write_byte, write_uint16, write_string, write_raw, write_int32, write_int64,
}

abbrev pub rq_login : ℕ
rq_login = 1

abbrev pub rq_logout : ℕ
rq_logout = 2

abbrev pub rq_main : ℕ
rq_main = 5

abbrev pub rq_transact : ℕ
rq_transact = 14

abbrev pub rq_pwd : ℕ
rq_pwd = 46

abbrev pub rq_relogin : ℕ
rq_relogin = 63

abbrev pub rq_recover : ℕ
rq_recover = 64

abbrev pub rq_inquire_ut : ℕ
rq_inquire_ut = 152

abbrev pub rq_time : ℕ
rq_time = 50

abbrev pub rq_startup : ℕ
rq_startup = 9

abbrev pub rq_subscribe : ℕ
rq_subscribe = 10

abbrev pub rq_sec_spec : ℕ
rq_sec_spec = 15

abbrev pub rq_subscribe_ticks : ℕ
rq_subscribe_ticks = 120

abbrev pub rq_ticks : ℕ
rq_ticks = 13

abbrev pub rq_history_ext : ℕ
rq_history_ext = 148

abbrev pub rq_option_families : ℕ
rq_option_families = 149

abbrev pub rq_family_options : ℕ
rq_family_options = 150

abbrev pub rq_certain_options : ℕ
rq_certain_options = 151

abbrev pub rq_family_strikes : ℕ
rq_family_strikes = 153

abbrev pub rq_client_limits : ℕ
rq_client_limits = 43

abbrev pub rq_make_cond_own : ℕ
rq_make_cond_own = 112

abbrev pub rq_change_pwd : ℕ
rq_change_pwd = 3

abbrev pub rq_trns_in_progress : ℕ
rq_trns_in_progress = 156

abbrev pub max_login : ℕ
max_login = 12

unfoldable pub login_payload : Bytes → Bytes
login_payload login =
    let head = write_uint16 (write_uint16 (write_uint16 (write_byte [] b'x') 78) 1) 0x21c in
    write_uint16 (write_string head login max_login) 65512

pub record ClientInfo : Type 0 where
  pub computer_name : Bytes
  pub user_name : Bytes
  pub os : Bytes
  pub hardware_id : ℕ
  pub addresses : List ℕ
  pub trailer : ℕ

-- The addresses up to the first 0.
unfoldable pub write_addresses : Bytes → List ℕ → Bytes
write_addresses w [] = w
write_addresses w (a ∷ rest) =
    let others = write_addresses (write_int32 w a) rest in if a == 0 then w else others

-- `PwdPayload`; with more than four addresses there is none.
unfoldable pub pwd_payload : Cipher → Bytes → ClientInfo → Option Bytes
pwd_payload pw_key challenge ci =
    if ltb 4 (length ci.addresses)
    then none
    else let proof = gamma pw_key default_sync challenge in
      let names =
        write_string (write_string (write_raw [] proof) ci.computer_name 16) ci.user_name 32 in
      let host = write_int64 (write_string names ci.os 80) ci.hardware_id in
      some (write_byte (write_int32 (write_addresses host ci.addresses) 0) ci.trailer)

pub record SubscribeItem : Type 0 where
  pub sec_id : ℕ
  pub board : ℕ
  pub mask : ℕ

unfoldable pub write_subscribe_items : Bytes → List SubscribeItem → Bytes
write_subscribe_items w [] = w
write_subscribe_items w (it ∷ items) =
    write_subscribe_items (write_byte (write_uint16 (write_uint16 w it.sec_id) it.board) it.mask)
      items

unfoldable pub subscribe_payload : List SubscribeItem → Bytes
subscribe_payload items = write_subscribe_items [] items

unfoldable pub write_uint16s : Bytes → List ℕ → Bytes
write_uint16s w [] = w
write_uint16s w (v ∷ vs) = write_uint16s (write_uint16 w v) vs

unfoldable pub sec_spec_request : List ℕ → Bytes
sec_spec_request sec_ids = write_uint16s [] sec_ids

pub record TickItem : Type 0 where
  pub sec_id : ℕ
  pub board : ℕ
  pub trade_no : ℕ

unfoldable pub write_tick_items : Bytes → List TickItem → Bytes
write_tick_items w [] = w
write_tick_items w (it ∷ items) =
    write_tick_items (write_int64 (write_uint16 (write_uint16 w it.sec_id) it.board) it.trade_no)
      items

unfoldable pub ticks_payload : Bool → List TickItem → Bytes
ticks_payload filter items = write_tick_items (write_byte [] (if filter then 1 else 0)) items

unfoldable pub history_ext_payload : Bool → ℕ → ℕ → ℕ → ℕ → Bytes
history_ext_payload reset sec_id board period count =
    let head = write_uint16 (write_uint16 (write_byte [] (if reset then 1 else 0)) sec_id) board in
    write_int32 (write_int32 (write_uint16 (write_byte head period) count) 0xffffffff) 0

unfoldable pub option_families_payload : ℕ → Bytes
option_families_payload sec_id = write_uint16 [] sec_id

unfoldable pub family_strikes_payload : ℕ → ℕ → Bytes
family_strikes_payload sec_id family_id =
    write_int32 (write_uint16 [] sec_id) (truncate32 family_id)

unfoldable pub family_options_payload : ℕ → Bytes → ℕ → ℕ → Bytes
family_options_payload sec_id text first second =
    write_int32 (write_int32 (write_string (write_uint16 [] sec_id) text 6) (truncate32 first))
      (truncate32 second)

unfoldable pub write_codes : Bytes → List Bytes → Bytes
write_codes w [] = w
write_codes w (code ∷ codes) = write_codes (write_string w code 25) codes

unfoldable pub certain_options_payload : List Bytes → Bytes
certain_options_payload codes = write_codes [] codes

unfoldable pub client_limits_request : ℕ → Bytes
client_limits_request client_id = write_int32 [] (truncate32 client_id)

unfoldable pub make_cond_own_payload : ℕ → Bytes
make_cond_own_payload transaction_id = write_int32 [] transaction_id

unfoldable pub inquire_ut_payload : ℕ → ℕ → Bytes
inquire_ut_payload category offset = write_int32 (write_byte [] category) offset

unfoldable pub relogin_payload : Bytes → Bytes
relogin_payload login = write_string [] login max_login

unfoldable pub recover_payload : Bytes → ℕ → Bytes
recover_payload token last_seq = write_int32 (write_raw [] token) last_seq

-- SHA-1 is a parameter, as the standard library's function.
unfoldable pub change_password_payload : (Bytes → Bytes) → Bytes → Bytes → Bytes
change_password_payload sha1 old_password new_password =
    let eight = 0 ∷ 0 ∷ 0 ∷ 0 ∷ 0 ∷ 0 ∷ 0 ∷ 0 ∷ [] in
    (sha1 old_password ++ eight) ++ (sha1 new_password ++ eight)
