-- ===== src/Wire/Frame/RoundTrip.antt =====
-- What `encode` writes, `decode` reads back.
use txmlconnector.Common.{
  ℕ, zero, suc, ◌+◌, ◌*◌, ◌/◌, ◌%◌, ◌^◌, ◌≤◌, ◌<◌, ◌≡◌, refl, sym, ap, ◌∙◌, arith,
}
use txmlconnector.Common.{
  not, ◌&&◌, [], ◌∷◌, ◌++◌, append_assoc, Bytes, IsByte, All, length, take, drop,
}
use txmlconnector.Common.{take-append, drop-append, length-append, ltb, ==_refl}
use txmlconnector.Common.{if◌then◌else◌, le→ltb, ok}
use txmlconnector.Common.{get_or}
use txmlconnector.Common.Xor.{bit_xor-lt}
use txmlconnector.Crypto.Counter.{gamma_involution, length-gamma}
use txmlconnector.Crypto.Feedback.{cfb_decrypt-cfb_encrypt, length-cfb_encrypt}
use txmlconnector.Wire.Words.{IsU16}
use txmlconnector.Wire.Frame.{
  Direction, client_to_server, server_to_client, Frame, Keys, encrypt, decrypt, crc16, crc_from,
  crc_rounds, crc_round, is_plain, sent_flags, header_size, header_fields, plain_header,
  max_payload, uint16_at, encode, decode_payload, decode,
}

pub decrypt-encrypt :
    (k : Keys) (dir : Direction) (b : Bytes) → All IsByte b → decrypt k dir (encrypt k dir b) ≡ b
unfolding encrypt decrypt
decrypt-encrypt k client_to_server b h = gamma_involution k.cipher k.sync b h
decrypt-encrypt k server_to_client b h = cfb_decrypt-cfb_encrypt k.cipher k.sync b h

pub length-encrypt : (k : Keys) (dir : Direction) (b : Bytes) → length (encrypt k dir b) ≡ length b
unfolding encrypt
length-encrypt k client_to_server b = length-gamma k.cipher k.sync b
length-encrypt k server_to_client b = length-cfb_encrypt k.cipher k.sync b

crc_round-lt : (crc : ℕ) → crc_round crc < 2 ^ 16
unfolding crc_round
crc_round-lt crc = ground (arith, bit_xor-lt 16 (crc * 2 % 2 ^ 16) 0x1021)

crc_rounds-lt : (n crc : ℕ) → crc < 2 ^ 16 → crc_rounds n crc < 2 ^ 16
unfolding crc_rounds
crc_rounds-lt zero crc h = h
crc_rounds-lt (suc n) crc h = crc_rounds-lt n (crc_round crc) (crc_round-lt crc)

crc_from-lt : (b : Bytes) (crc : ℕ) → crc < 2 ^ 16 → crc_from crc b < 2 ^ 16
unfolding crc_from
crc_from-lt [] crc h = h
crc_from-lt (v ∷ b) crc h =
    crc_from-lt b _ (crc_rounds-lt 8 _ (bit_xor-lt 16 crc _ h (omega arith)))

-- The checksum is a 16-bit word.
pub crc16-IsU16 : (b : Bytes) → IsU16 (crc16 b)
crc16-IsU16 b = unfold crc16 in crc_from-lt b 0xffff (omega arith)

plain_header-IsByte :
    (flags type : ℕ) (payload : Bytes)
    → IsByte flags
    → IsByte type
    → All IsByte (plain_header flags type payload)
plain_header-IsByte flags type payload hf ht = omega arith

-- The payload as it is sent and as it is received.
abbrev sent : Keys → Direction → ℕ → Bytes → Bytes
sent k dir flags payload =
    if ltb 0 (length payload) && not (is_plain flags) then encrypt k dir payload else payload

length-sent :
    (k : Keys) (dir : Direction) (flags : ℕ) (payload : Bytes)
    → length (sent k dir flags payload) ≡ length payload
length-sent k dir flags payload = ground (arith, length-encrypt k dir payload)

received_back :
    (k : Keys) (dir : Direction) (flags n : ℕ) (payload : Bytes)
    → All IsByte payload
    → n ≡ length payload
    → (if ltb 0 n && not (is_plain flags)
        then decrypt k dir (sent k dir flags payload)
        else sent k dir flags payload)
      ≡ payload
received_back k dir flags n payload h e = ground (arith, decrypt-encrypt k dir payload h)

decode_payload_good :
    (k : Keys) (dir : Direction) (hdr r : Bytes) {flags type n : ℕ} {body payload rest : Bytes}
    → get_or hdr 0 0 ≡ flags
    → get_or hdr 1 0 ≡ type
    → uint16_at 2 hdr ≡ n
    → n ≤ max_payload
    → n ≤ length r
    → take n r ≡ body
    → drop n r ≡ rest
    → (if ltb 0 n && not (is_plain flags) then decrypt k dir body else body) ≡ payload
    → uint16_at 4 hdr ≡ crc16 payload
    → decode_payload k dir hdr r
      ≡ ok (record { flags = flags; type = type; payload = payload }, rest)
unfolding decode_payload
decode_payload_good k dir hdr r ef et en fits enough eb er ep ec =
    rw (ef, et, en)
      (rw (le→ltb _ _ fits)
        (rw (le→ltb _ _ enough) (rw (eb, er) (rw ep (rw ec (rw (==_refl (crc16 _))))))))

u16_bytes : (v : ℕ) → IsU16 v → v / 256 % 256 * 256 + v % 256 ≡ v
u16_bytes v h = omega arith

decode_payload_back :
    (k : Keys) (dir : Direction) (flags type : ℕ) (payload rest : Bytes)
    → All IsByte payload
    → length payload ≤ max_payload
    → decode_payload k dir (plain_header flags type payload) (sent k dir flags payload ++ rest)
      ≡ ok (record { flags = flags; type = type; payload = payload }, rest)
decode_payload_back k dir flags type payload rest h fits =
    let body : Bytes = sent k dir flags payload in
    let size : length body ≡ length payload = length-sent k dir flags payload in
    decode_payload_good k dir (plain_header flags type payload) (body ++ rest) {n = length payload}
      refl refl (u16_bytes (length payload) (omega arith)) fits
      (omega (arith, length-append body rest))
      (ap (λ (m : ℕ). take m (body ++ rest)) (sym size) ∙ take-append body rest)
      (ap (λ (m : ℕ). drop m (body ++ rest)) (sym size) ∙ drop-append body rest)
      (received_back k dir flags (length payload) payload h refl)
      (u16_bytes (crc16 payload) (crc16-IsU16 payload))

-- The frame that arrives: the flags as they were sent.
abbrev pub arrived : Direction → Frame → Frame
arrived dir f = record f { flags = sent_flags dir f.flags }

sent_flags-IsByte : (dir : Direction) (flags : ℕ) → IsByte flags → IsByte (sent_flags dir flags)
sent_flags-IsByte client_to_server flags h = omega arith
sent_flags-IsByte server_to_client flags h = h

pub encode_fits :
    (k : Keys) (dir : Direction) (f : Frame)
    → length f.payload ≤ max_payload
    → encode k dir f
      ≡ ok (
          encrypt k dir (plain_header (sent_flags dir f.flags) f.type f.payload)
          ++ sent k dir (sent_flags dir f.flags) f.payload)
unfolding encode
encode_fits k dir f fits = rw (le→ltb _ _ fits)

decode_good :
    (k : Keys) (dir : Direction) (r : Bytes) {hdr rest : Bytes}
    → header_size ≤ length r
    → decrypt k dir (take 8 r) ≡ hdr
    → drop 8 r ≡ rest
    → uint16_at 6 hdr ≡ crc16 (take 6 hdr)
    → decode k dir r ≡ decode_payload k dir hdr rest
unfolding decode
decode_good k dir r enough eh er ec =
    rw (le→ltb _ _ enough) (rw (eh, er) (rw ec (rw (==_refl (crc16 _)))))

decode_header :
    (k : Keys) (dir : Direction) (flags type : ℕ) (payload rest : Bytes)
    → IsByte flags
    → IsByte type
    → decode k dir (encrypt k dir (plain_header flags type payload) ++ rest)
      ≡ decode_payload k dir (plain_header flags type payload) rest
decode_header k dir flags type payload rest hf ht =
    let hdr : Bytes = plain_header flags type payload in
    let size : length (encrypt k dir hdr) ≡ 8 = length-encrypt k dir hdr in
    let front : take 8 (encrypt k dir hdr ++ rest) ≡ encrypt k dir hdr =
      ap (λ (m : ℕ). take m (encrypt k dir hdr ++ rest)) (sym size)
      ∙ take-append (encrypt k dir hdr) rest in
    let tail : drop 8 (encrypt k dir hdr ++ rest) ≡ rest =
      ap (λ (m : ℕ). drop m (encrypt k dir hdr ++ rest)) (sym size)
      ∙ drop-append (encrypt k dir hdr) rest in
    decode_good k dir (encrypt k dir hdr ++ rest)
      (omega (arith, length-append (encrypt k dir hdr) rest, size))
      (ap (decrypt k dir) front
        ∙ decrypt-encrypt k dir hdr (plain_header-IsByte flags type payload hf ht))
      tail (u16_bytes (crc16 (header_fields flags type payload)) (crc16-IsU16 _))

-- A frame of bytes with at most 65520 of payload is encoded, and what is encoded decodes, with any
-- bytes behind it, to the frame that was sent and those bytes. The only change is that a client's
-- flags lose the plain bit.
pub decode-encode :
    (k : Keys) (dir : Direction) (f : Frame) (rest : Bytes)
    → IsByte f.flags
    → IsByte f.type
    → All IsByte f.payload
    → length f.payload ≤ max_payload
    → (w : Bytes) × (encode k dir f ≡ ok w) × (decode k dir (w ++ rest) ≡ ok (arrived dir f, rest))
decode-encode k dir f rest hf ht hp fits =
    let flags : ℕ = sent_flags dir f.flags in
    let hdr : Bytes = encrypt k dir (plain_header flags f.type f.payload) in
    let body : Bytes = sent k dir flags f.payload in
    (
      hdr ++ body,
      encode_fits k dir f fits,
      ap (decode k dir) (append_assoc hdr body rest)
          ∙ decode_header k dir flags f.type f.payload (body ++ rest)
              (sent_flags-IsByte dir f.flags hf) ht
          ∙ decode_payload_back k dir flags f.type f.payload rest hp fits,
    )
