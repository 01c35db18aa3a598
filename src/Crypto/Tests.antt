-- ===== src/Crypto/Tests.antt =====
-- The theorems about shared/crypto/crypto.c at concrete packets.
use protable_airplay.Base.{ℕ, ◌+◌, ◌≤◌, ◌≡◌, true, none, some, List, length, replicate, Returns}
use protable_airplay.Crypto.{Mbedtls, crypto_airplay2_decrypt_rtp}
use protable_airplay.Crypto.Bounds.{KeepsLength, crypto_airplay2_decrypt_rtp-Returns}

-- Ciphers that copy
abbrev copying : Mbedtls
copying = record {
  aes_cbc = λ key iv input. some input;
  chachapoly = λ key nonce additional tag input. some input;
  pk_decrypt = λ input. none;
  memory = true;
}

copying-KeepsLength : KeepsLength copying
copying-KeepsLength = record {
  cbc_length = λ key iv input out e. cc;
  chachapoly_length = λ key nonce additional tag input out e. cc;
}

abbrev packet : List ℕ
packet = replicate 48 1

crypto_airplay2_decrypt_rtp-Returns_example :
    Returns
      (λ out. (length out + 24 ≡ 36) × (length out ≤ 100))
      (crypto_airplay2_decrypt_rtp copying (replicate 32 0) packet 12 36 100)
crypto_airplay2_decrypt_rtp-Returns_example =
    crypto_airplay2_decrypt_rtp-Returns copying (replicate 32 0) packet 12 36 100
      copying-KeepsLength
