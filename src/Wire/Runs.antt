-- ===== src/Wire/Runs.antt =====
-- Concrete runs of the wire layer. The packets are those of wire_test.go, captured from the DLL.
use txmlconnector.Common.{◌^◌, ◌≡◌, refl, [], ◌∷◌, ◌++◌, Bytes, length, take, drop, arith}
use txmlconnector.Common.{ok, err, header_crc, if◌then◌else◌, ◌==◌, ◌||◌}
use txmlconnector.Crypto.{new_cipher, encrypt as cipher_encrypt, gamma, cfb_decrypt}
use txmlconnector.Crypto.Tables.{default_key, default_sync}
use txmlconnector.Wire
use txmlconnector.Wire.Words.{min_int32_wide, min_int64}
use txmlconnector.Wire.Writer.{write_int32, write_int64, write_string, before_nul, append_packed}
use txmlconnector.Wire.Reader.{byte, uint16, raw, string, int32, int64, skip}
use txmlconnector.Wire.Packed.{int64-write_int64, int32-write_int32}
use txmlconnector.Wire.Packed.Sizes.{distance, packed_size, length-write_int64}
use txmlconnector.Wire.Fields.{string-write_string}
use txmlconnector.Wire.Cursor.{Reader, remaining}
use txmlconnector.Wire.Cursor.View.{view, view_skip}
use txmlconnector.Wire.Cursor.Refines.{reader_refines}
use txmlconnector.Wire.Frame.{
  Keys, Frame, client_to_server, server_to_client, encrypt, decrypt, crc16, encode, decode,
  decode_payload,
}
use txmlconnector.Wire.Frame.RoundTrip.{arrived, decode-encode}

abbrev default_keys : Keys
default_keys = record {
  cipher = elim (new_cipher default_key) [ ok c ↦ c | err e ↦ record { k = [] } ];
  sync = default_sync;
}

abbrev login_frame : Frame
login_frame = record {
  flags = 1;
  type = 1;
  payload = 0x78 ∷ 0x00 ∷ 0x4e ∷ 0x00 ∷ 0x01 ∷ 0x02 ∷ 0x1c ∷ 0x41 ∷ 0x00 ∷ 0xff ∷ 0xe8 ∷ [];
}

abbrev login_packet : Bytes
login_packet =
    0xe9 ∷ 0x20 ∷ 0xe5 ∷ 0x3e ∷ 0x10 ∷ 0x8c ∷ 0x5c ∷ 0x5b ∷ 0x90 ∷ 0x21 ∷ 0xab ∷ 0x35 ∷ 0x2b ∷ 0x92
    ∷ 0x68 ∷ 0xe9 ∷ 0xe6 ∷ 0xc1 ∷ 0x2a ∷ []

-- The login request that the DLL sent for the login "A".
login_encode : encode default_keys client_to_server login_frame ≡ ok login_packet
unfolding encode encrypt gamma cipher_encrypt crc16 new_cipher default_key default_sync
login_encode = refl

login_decode : decode default_keys client_to_server login_packet ≡ ok (login_frame, [])
unfolding decode decode_payload decrypt gamma cipher_encrypt crc16 new_cipher default_key
    default_sync
login_decode = refl

-- A damaged header is refused.
login_damaged : decode default_keys client_to_server (0 ∷ drop 1 login_packet) ≡ err header_crc
unfolding decode decrypt gamma cipher_encrypt crc16 new_cipher default_key default_sync
login_damaged = refl

-- The server's reply that the DLL accepted.
reply_decode :
    decode default_keys server_to_client (
      0xd7 ∷ 0xc6 ∷ 0xc6 ∷ 0x49 ∷ 0x85 ∷ 0xed ∷ 0x47 ∷ 0x16 ∷ 0xd5 ∷ 0xcf ∷ 0xc7 ∷ 0x41 ∷ 0x38
      ∷ 0x83 ∷ 0x5a ∷ 0x3e ∷ 0xe0 ∷ 0x34 ∷ [])
    ≡ ok (
      record {
        flags = 2;
        type = 1;
        payload = 0x00 ∷ 0x08 ∷ 0x01 ∷ 0x02 ∷ 0x03 ∷ 0x04 ∷ 0x05 ∷ 0x06 ∷ 0x07 ∷ 0x08 ∷ [];
      },
      [],
    )
unfolding decode decode_payload decrypt cfb_decrypt cipher_encrypt crc16 new_cipher default_key
    default_sync
reply_decode = refl

packed_300 : write_int64 [] 300 ≡ 0xc1 ∷ 18 ∷ []
unfolding write_int64 append_packed
packed_300 = refl

decode-encode_example :
    (w : Bytes) × (encode default_keys server_to_client login_frame ≡ ok w)
    × (decode default_keys server_to_client (w ++ (7 ∷ []))
        ≡ ok (arrived server_to_client login_frame, 7 ∷ []))
decode-encode_example =
    decode-encode default_keys server_to_client login_frame (7 ∷ []) (omega arith) (omega arith)
      (omega arith) (omega arith)

int64-write_int64_example :
    int64 (write_int64 [] 300 ++ (9 ∷ []))
    ≡ ok (if 300 == min_int32_wide then min_int64 else 300, 9 ∷ [])
int64-write_int64_example = int64-write_int64 300 (9 ∷ []) (omega arith)

int32-write_int32_example : int32 (write_int32 [] (2 ^ 31) ++ (9 ∷ [])) ≡ ok (2 ^ 31, 9 ∷ [])
int32-write_int32_example = int32-write_int32 (2 ^ 31) (9 ∷ []) (omega arith)

-- Seven extra bytes are sent as eight.
length-write_int64_example : length (write_int64 [] (2 ^ 52)) ≡ (
    if 2 ^ 52 == min_int32_wide || 2 ^ 52 == min_int64 then 1 else packed_size (distance (2 ^ 52)))
length-write_int64_example = length-write_int64 (2 ^ 52) (omega arith)

string-write_string_example :
    string 3 (write_string [] (65 ∷ 66 ∷ 67 ∷ 68 ∷ []) 3 ++ (9 ∷ []))
    ≡ ok (take 3 (before_nul (65 ∷ 66 ∷ 67 ∷ 68 ∷ [])), 9 ∷ [])
string-write_string_example = string-write_string (65 ∷ 66 ∷ 67 ∷ 68 ∷ []) 3 (9 ∷ [])

abbrev some_reader : Reader
some_reader = record { buf = 5 ∷ 0x21 ∷ 2 ∷ 3 ∷ []; off = 1 }

reader_refines_example :
    (view_skip (Wire.Cursor.skip 2 some_reader) ≡ skip 2 (remaining some_reader))
    × (view (Wire.Cursor.byte some_reader) ≡ byte (remaining some_reader))
    × (view (Wire.Cursor.uint16 some_reader) ≡ uint16 (remaining some_reader))
    × (view (Wire.Cursor.raw 2 some_reader) ≡ raw 2 (remaining some_reader))
    × (view (Wire.Cursor.string 2 some_reader) ≡ string 2 (remaining some_reader))
    × (view (Wire.Cursor.int32 some_reader) ≡ int32 (remaining some_reader))
    × (view (Wire.Cursor.int64 some_reader) ≡ int64 (remaining some_reader))
reader_refines_example = reader_refines some_reader 2
