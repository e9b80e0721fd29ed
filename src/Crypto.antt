-- ===== src/Crypto.antt =====
-- native/cryptoprofile/gost.go: GOST 28147-89 with the vendor's S-boxes, its counter mode for what
-- the client sends and its cipher feedback mode for what the server sends. A `uint32` is a number
-- below 2^32; a block is the list of its eight bytes.
pub mod Tables
pub mod Blocks
pub mod Counter
pub mod Feedback
pub mod Expand
pub mod Runs
use txmlconnector.Common.{ℕ, zero, suc, ◌+◌, ◌-◌, ◌*◌, ◌/◌, ◌%◌, ◌^◌, bit_xor}
use txmlconnector.Common.{List, [], ◌∷◌, ◌++◌, Bytes, length, take, drop, get_or, ltb, leb, ◌==◌}
use txmlconnector.Common.{if◌then◌else◌, Result, ok, err, bad_value}
use Tables.{sbox_table}

abbrev pub key_size : ℕ
key_size = 32

abbrev gamma_c1 : ℕ
gamma_c1 = 0x01010104

abbrev gamma_c2 : ℕ
gamma_c2 = 0x01010101

abbrev upward : List ℕ
upward = 0 ∷ 1 ∷ 2 ∷ 3 ∷ 4 ∷ 5 ∷ 6 ∷ 7 ∷ []

abbrev key_order : List ℕ
key_order = upward ++ upward ++ upward ++ (7 ∷ 6 ∷ 5 ∷ 4 ∷ 3 ∷ 2 ∷ 1 ∷ 0 ∷ [])

-- The eight words of a 256-bit key.
pub record Cipher : Type 0 where
  pub k : List ℕ

-- `binary.LittleEndian.Uint32` and `PutUint32`.
unfoldable pub le_uint32 : Bytes → ℕ
le_uint32 b = get_or b 0 0 + get_or b 1 0 * 2 ^ 8 + get_or b 2 0 * 2 ^ 16 + get_or b 3 0 * 2 ^ 24

abbrev pub put_le_uint32 : ℕ → Bytes → Bytes
put_le_uint32 v rest =
    (v % 256) ∷ (v / 2 ^ 8 % 256) ∷ (v / 2 ^ 16 % 256) ∷ (v / 2 ^ 24 % 256) ∷ rest

key_words : ℕ → Bytes → List ℕ
key_words zero key = []
key_words (suc n) key = le_uint32 key ∷ key_words n (drop 4 key)

unfoldable pub new_cipher : Bytes → Result Cipher
unfolding key_words le_uint32
new_cipher key =
    if length key == key_size then ok (record { k = key_words 8 key }) else err bad_value

-- The round function: the S-boxes, then `y<<11 | y>>21`.
unfoldable pub f : ℕ → ℕ
unfolding sbox_table
f x =
    let y =
      get_or sbox_table (0x300 + x / 2 ^ 24) 0 * 2 ^ 24
      + get_or sbox_table (0x200 + x / 2 ^ 16 % 256) 0 * 2 ^ 16
      + get_or sbox_table (0x100 + x / 2 ^ 8 % 256) 0 * 2 ^ 8
      + get_or sbox_table (x % 256) 0 in
    y * 2 ^ 11 % 2 ^ 32 + y / 2 ^ 21

rounds : Cipher → List ℕ → ℕ → ℕ → ℕ × ℕ
rounds c [] n1 n2 = (n2, n1)
rounds c (i ∷ order) n1 n2 = rounds c order (bit_xor n2 (f ((n1 + get_or c.k i 0) % 2 ^ 32))) n1

unfoldable pub encrypt : Cipher → ℕ → ℕ → ℕ × ℕ
unfolding rounds f
encrypt c = rounds c key_order

unfoldable pub encrypt_block : Cipher → ℕ → ℕ → Bytes
encrypt_block c n1 n2 = let (a, b) = encrypt c n1 n2 in put_le_uint32 a (put_le_uint32 b [])

-- Byte by byte, to the end of the shorter: `src` is what is left and `g` has eight bytes.
unfoldable pub xor_block : Bytes → Bytes → Bytes
xor_block [] g = []
xor_block (x ∷ src) [] = []
xor_block (x ∷ src) (y ∷ g) = bit_xor x y ∷ xor_block src g

abbrev pub next_n2 : ℕ → ℕ
next_n2 n2 = (n2 + gamma_c1 + (if ltb 0xfefefefb n2 then 1 else 0)) % 2 ^ 32

abbrev pub next_n1 : ℕ → ℕ
next_n1 n1 = (n1 + gamma_c2) % 2 ^ 32

-- The loop of `Gamma` over what is left of `src`, eight bytes a round. Each round takes a byte at
-- least, so the length of `src` is fuel enough.
unfoldable pub gamma_from : Cipher → ℕ → ℕ → ℕ → Bytes → Bytes
unfolding xor_block encrypt_block
gamma_from c zero n1 n2 src = []
gamma_from c (suc fuel) n1 n2 [] = []
gamma_from c (suc fuel) n1 n2 (b ∷ src) =
    xor_block (b ∷ src) (encrypt_block c (next_n1 n1) (next_n2 n2))
    ++ gamma_from c fuel (next_n1 n1) (next_n2 n2) (drop 8 (b ∷ src))

unfoldable pub gamma : Cipher → Bytes → Bytes → Bytes
unfolding gamma_from
gamma c sync src =
    let (n1, n2) = encrypt c (le_uint32 sync) (le_uint32 (drop 4 sync)) in
    gamma_from c (length src) n1 n2 src

-- The block that the feedback register `fb` encrypts to.
unfoldable pub feedback_block : Cipher → Bytes → Bytes
unfolding encrypt_block
feedback_block c fb = encrypt_block c (le_uint32 fb) (le_uint32 (drop 4 fb))

unfoldable pub cfb_encrypt_from : Cipher → ℕ → Bytes → Bytes → Bytes
unfolding xor_block feedback_block
cfb_encrypt_from c zero fb src = []
cfb_encrypt_from c (suc fuel) fb [] = []
cfb_encrypt_from c (suc fuel) fb (b ∷ src) =
    let g = feedback_block c fb in
    let out = xor_block (b ∷ src) g in
    out ++ cfb_encrypt_from c fuel (out ++ drop (length out) g) (drop 8 (b ∷ src))

unfoldable pub cfb_encrypt : Cipher → Bytes → Bytes → Bytes
unfolding cfb_encrypt_from
cfb_encrypt c sync src = cfb_encrypt_from c (length src) sync src

unfoldable pub cfb_decrypt_from : Cipher → ℕ → Bytes → Bytes → Bytes
unfolding xor_block feedback_block
cfb_decrypt_from c zero fb src = []
cfb_decrypt_from c (suc fuel) fb [] = []
cfb_decrypt_from c (suc fuel) fb (b ∷ src) =
    let g = feedback_block c fb in
    let taken = take 8 (b ∷ src) in
    xor_block taken g ++ cfb_decrypt_from c fuel (taken ++ drop (length taken) g) (drop 8 (b ∷ src))

unfoldable pub cfb_decrypt : Cipher → Bytes → Bytes → Bytes
unfolding cfb_decrypt_from
cfb_decrypt c sync src = cfb_decrypt_from c (length src) sync src

-- `b = out[i-n] - byte(i) + byte(size)`, then `(b>>5 | b<<3) ^ 0x97` at `i = len(out)`.
expand_byte : ℕ → ℕ → Bytes → ℕ
expand_byte n size out =
    let b = (get_or out (length out - n) 0 + 256 - length out % 256 + size % 256) % 256 in
    bit_xor (b / 2 ^ 5 + b * 2 ^ 3 % 256) 0x97

expand_from : ℕ → ℕ → ℕ → Bytes → Bytes
unfolding expand_byte
expand_from zero n size out = out
expand_from (suc left) n size out = expand_from left n size (out ++ (expand_byte n size out ∷ []))

unfoldable pub expand_key : Bytes → ℕ → Bytes
unfolding expand_from
expand_key src size =
    let copied = take size src in expand_from (size - length copied) (length copied) size copied

-- SHA-1 is the standard library's.
unfoldable pub password_key : (Bytes → Bytes) → Bytes → Bytes
unfolding expand_key
password_key sha1 password = expand_key (sha1 password) key_size
