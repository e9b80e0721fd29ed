-- ===== src/Wire/Frame.antt =====
-- native/wire/frame.go: a packet is an encrypted header of eight bytes and a payload that is
-- encrypted by itself, both with checksums. The input of `Decode` is the bytes that the connection
-- still gives; `io_error` is what `io.ReadFull` reports where they run out.
pub mod RoundTrip
use txmlconnector.Common.{ℕ, zero, suc, ◌+◌, ◌*◌, ◌/◌, ◌%◌, ◌^◌, bit_xor}
use txmlconnector.Common.{
  Bool, not, ◌&&◌, [], ◌∷◌, ◌++◌, Bytes, length, take, drop, get_or, ltb, ◌==◌,
}
use txmlconnector.Common.{
  if◌then◌else◌, Result, ok, err, header_crc, payload_crc, too_large, io_error,
}
use txmlconnector.Common.{◌>>=◌}
use txmlconnector.Crypto.{Cipher, new_cipher, gamma, cfb_encrypt, cfb_decrypt}
use txmlconnector.Crypto.Tables.{default_key, default_sync}
use txmlconnector.Wire.Words.{big_endian16}

abbrev pub header_size : ℕ
header_size = 8

abbrev pub max_payload : ℕ
max_payload = 0xfff0

pub data Direction : Type 0 where
  client_to_server server_to_client : Direction

pub record Frame : Type 0 where
  pub flags : ℕ
  pub type : ℕ
  pub payload : Bytes

-- `Flags & KindMask`.
unfoldable pub kind : Frame → ℕ
kind f = f.flags % 4

pub record Keys : Type 0 where
  pub cipher : Cipher
  pub sync : Bytes

unfoldable pub new_keys : Bytes → Bytes → Result Keys
new_keys key sync = new_cipher key >>= λ c. ok (record { cipher = c; sync = sync })

-- `DefaultKeys`, which panics where the default key is not one; the first branch is taken.
unfoldable pub default_keys : Keys
unfolding new_keys
default_keys = elim (new_keys default_key default_sync) [
  | ok k ↦ k
  | err e ↦ record { cipher = record { k = [] }; sync = default_sync }
]

unfoldable pub encrypt : Keys → Direction → Bytes → Bytes
encrypt k client_to_server b = gamma k.cipher k.sync b
encrypt k server_to_client b = cfb_encrypt k.cipher k.sync b

unfoldable pub decrypt : Keys → Direction → Bytes → Bytes
decrypt k client_to_server b = gamma k.cipher k.sync b
decrypt k server_to_client b = cfb_decrypt k.cipher k.sync b

crc_round : ℕ → ℕ
crc_round crc =
    if crc / 2 ^ 15 % 2 == 1 then bit_xor (crc * 2 % 2 ^ 16) 0x1021 else crc * 2 % 2 ^ 16

crc_rounds : ℕ → ℕ → ℕ
crc_rounds zero crc = crc
crc_rounds (suc n) crc = crc_rounds n (crc_round crc)

crc_from : ℕ → Bytes → ℕ
crc_from crc [] = crc
crc_from crc (v ∷ b) = crc_from (crc_rounds 8 (bit_xor crc (v * 2 ^ 8 % 2 ^ 16))) b

unfoldable pub crc16 : Bytes → ℕ
unfolding crc_from crc_rounds crc_round
crc16 b = crc_from 0xffff b

-- The bit `FlagPlain` of the flags.
abbrev pub is_plain : ℕ → Bool
is_plain flags = flags / 128 % 2 == 1

-- The flags that are sent: a client's without the plain bit.
abbrev pub sent_flags : Direction → ℕ → ℕ
sent_flags client_to_server flags = flags % 128
sent_flags server_to_client flags = flags

-- The first six bytes of the header.
abbrev pub header_fields : ℕ → ℕ → Bytes → Bytes
header_fields flags type payload =
    flags ∷ type ∷ (big_endian16 (length payload) ++ big_endian16 (crc16 payload))

abbrev pub plain_header : ℕ → ℕ → Bytes → Bytes
plain_header flags type payload =
    header_fields flags type payload ++ big_endian16 (crc16 (header_fields flags type payload))

unfoldable pub encode : Keys → Direction → Frame → Result Bytes
encode k dir f =
    if ltb max_payload (length f.payload)
    then err too_large
    else let flags = sent_flags dir f.flags in
      let body =
        if ltb 0 (length f.payload) && not (is_plain flags)
        then encrypt k dir f.payload
        else f.payload in
      ok (encrypt k dir (plain_header flags f.type f.payload) ++ body)

-- `binary.BigEndian.Uint16(b[i:])`.
abbrev pub uint16_at : ℕ → Bytes → ℕ
uint16_at i b = get_or b i 0 * 256 + get_or b (i + 1) 0

-- What follows a good header `hdr`: the payload and its checksum.
unfoldable pub decode_payload : Keys → Direction → Bytes → Bytes → Result (Frame × Bytes)
decode_payload k dir hdr r =
    let n = uint16_at 2 hdr in
    let flags = get_or hdr 0 0 in
    let type = get_or hdr 1 0 in
    if ltb max_payload n
    then err too_large
    else if ltb (length r) n
    then err io_error
    else let read = take n r in
      let payload = if ltb 0 n && not (is_plain flags) then decrypt k dir read else read in
      if uint16_at 4 hdr == crc16 payload
      then ok (record { flags = flags; type = type; payload = payload }, drop n r)
      else err (payload_crc flags type)

unfoldable pub decode : Keys → Direction → Bytes → Result (Frame × Bytes)
decode k dir r =
    if ltb (length r) header_size
    then err io_error
    else let hdr = decrypt k dir (take header_size r) in
      if uint16_at 6 hdr == crc16 (take 6 hdr)
      then decode_payload k dir hdr (drop header_size r)
      else err header_crc
