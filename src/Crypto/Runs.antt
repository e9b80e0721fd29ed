-- ===== src/Crypto/Runs.antt =====
-- Concrete runs of the cipher. The expected bytes are those of gost_test.go, recorded from the DLL.
use txmlconnector.Common.{
  ◌≡◌, refl, [], ◌∷◌, Bytes, length, get_or, ◌-◌, ◌<◌, ◌≤◌, ◌⊎◌, arith, ok, err,
}
use txmlconnector.Crypto.{
  Cipher, new_cipher, encrypt, gamma, cfb_encrypt, cfb_decrypt, expand_key, password_key,
}
use txmlconnector.Crypto.Tables.{default_key, default_sync}
use txmlconnector.Crypto.Counter.{gamma_involution}
use txmlconnector.Crypto.Feedback.{cfb_decrypt-cfb_encrypt}
use txmlconnector.Crypto.Expand.{IsExpanded, expand_key_bytes}

abbrev challenge : Bytes
challenge = 1 ∷ 2 ∷ 3 ∷ 4 ∷ 5 ∷ 6 ∷ 7 ∷ 8 ∷ []

abbrev eleven_bytes : Bytes
eleven_bytes = 10 ∷ 20 ∷ 30 ∷ 40 ∷ 50 ∷ 60 ∷ 70 ∷ 80 ∷ 90 ∷ 100 ∷ 110 ∷ []

-- SHA-1 of "TESTPASS".
abbrev pub test_hash : Bytes
test_hash =
    179 ∷ 124 ∷ 90 ∷ 93 ∷ 33 ∷ 87 ∷ 245 ∷ 153 ∷ 152 ∷ 101 ∷ 50 ∷ 59 ∷ 63 ∷ 201 ∷ 6 ∷ 81 ∷ 62 ∷ 196
    ∷ 30 ∷ 43 ∷ []

-- The cipher of a key, and that of no words where the key has another size.
abbrev pub cipher_of : Bytes → Cipher
cipher_of key = elim (new_cipher key) [ ok c ↦ c | err e ↦ record { k = [] } ]

-- The answer to the challenge 0102030405060708 for the password TESTPASS.
password_proof :
    gamma (cipher_of (password_key (λ _. test_hash) [])) default_sync challenge
    ≡ 0x21 ∷ 0x1c ∷ 0xf3 ∷ 0xef ∷ 0x53 ∷ 0x6a ∷ 0x73 ∷ 0xbf ∷ []
unfolding gamma encrypt new_cipher password_key default_sync
password_proof = refl

gamma_involution_example :
    gamma
      (cipher_of default_key)
      default_sync
      (gamma (cipher_of default_key) default_sync eleven_bytes)
    ≡ eleven_bytes
gamma_involution_example =
    gamma_involution (cipher_of default_key) default_sync eleven_bytes (omega arith)

cfb_decrypt-cfb_encrypt_example :
    cfb_decrypt
      (cipher_of default_key)
      default_sync
      (cfb_encrypt (cipher_of default_key) default_sync eleven_bytes)
    ≡ eleven_bytes
cfb_decrypt-cfb_encrypt_example =
    cfb_decrypt-cfb_encrypt (cipher_of default_key) default_sync eleven_bytes (omega arith)

-- The first byte behind those of the hash.
expand_key_bytes_example :
    (length (expand_key test_hash 32) ≡ 32)
    × (((20 < length test_hash) × (get_or (expand_key test_hash 32) 20 0 ≡ get_or test_hash 20 0))
        ⊎ ((length test_hash ≤ 20)
            × IsExpanded 32 20
                (get_or (expand_key test_hash 32) (20 - length test_hash) 0)
                (get_or (expand_key test_hash 32) 20 0)))
expand_key_bytes_example = expand_key_bytes test_hash 32 20 (omega arith) (omega arith)
