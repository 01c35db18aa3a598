-- ===== src/Crypto.antt =====
-- shared/crypto/crypto.c: the decryption of audio. mbedTLS and the pool of its memory are parameters.
pub mod Bounds
mod Tests
use protable_airplay.Base.{
  ℕ, ◌+◌, ◌-◌, ◌%◌, Bool, true, false, ◌||◌, not, Option, none, some, List, ◌++◌, ltb, ◌==◌,
  if◌then◌else◌, length, take, replicate, Result, ok, fail, fault, ◌>>=◌, ◌>>◌, guard,
}
use protable_airplay.Rtp.{slice}

-- What the adapter uses of mbedTLS; `none` is an error.
--   `aes_cbc`: `mbedtls_aes_setkey_dec` and `mbedtls_aes_crypt_cbc` of a key, an IV and the input;
--   `chachapoly`: `mbedtls_chachapoly_auth_decrypt` of a key, a nonce, the additional data, the tag and the
--   input;
--   `pk_decrypt`: everything up to `mbedtls_pk_decrypt` with the key of the receiver;
--   `memory`: whether `crypto_memory_init` succeeds.
pub record Mbedtls : Type 0 where
  pub aes_cbc : List ℕ → List ℕ → List ℕ → Option (List ℕ)
  pub chachapoly : List ℕ → List ℕ → List ℕ → List ℕ → List ℕ → Option (List ℕ)
  pub pk_decrypt : List ℕ → Option (List ℕ)
  pub memory : Bool

-- `crypto_aes_context_t`
pub record AesContext : Type 0 where
  pub key : List ℕ
  pub iv : List ℕ
  pub state : List ℕ

abbrev pub aes_zero : AesContext
aes_zero = record { key = replicate 16 0; iv = replicate 16 0; state = replicate 16 0 }

abbrev pub crypto_aes_init : List ℕ → List ℕ → AesContext
crypto_aes_init key iv = record { key = take 16 key; iv = take 16 iv; state = take 16 iv }

abbrev pub plain_text : Option (List ℕ) → Result (List ℕ)
plain_text none = fail
plain_text (some plain) = ok plain

-- The first test of `crypto_airplay2_decrypt_rtp`
abbrev pub is_malformed : List ℕ → ℕ → ℕ → Bool
is_malformed packet payload_offset payload_len =
    ltb (length packet) 12
    || (ltb (length packet) payload_offset
        || (ltb (length packet - payload_offset) payload_len || ltb payload_len 24))

-- Its second test
abbrev pub has_no_room : ℕ → ℕ → Bool
has_no_room encrypted_len output_capacity =
    ltb encrypted_len 16 || ltb output_capacity (encrypted_len - 16)

module _ (lib : Mbedtls) where
  -- Every call starts from the IV of the session, so the context stays as it is.
  unfoldable pub crypto_aes_decrypt : AesContext → List ℕ → Option (List ℕ)
  crypto_aes_decrypt c input = if length input % 16 == 0 then lib.aes_cbc c.key c.iv input else none

  -- The first 16 bytes of the plain text, if it has them
  abbrev pub aes_key_of : Option (List ℕ) → Option (List ℕ)
  aes_key_of none = none
  aes_key_of (some plain) = if ltb (length plain) 16 then none else some (take 16 plain)

  unfoldable pub crypto_rsa_decrypt_aes_key : List ℕ → Option (List ℕ)
  crypto_rsa_decrypt_aes_key encrypted =
      if not lib.memory || length encrypted == 0
      then none
      else aes_key_of (lib.pk_decrypt encrypted)

  -- `crypto_airplay2_decrypt_rtp`: the cipher text, a tag of 16 bytes, and the last 8 bytes of the nonce,
  -- with bytes 4 to 12 of the packet as additional data
  unfoldable pub crypto_airplay2_decrypt_rtp : List ℕ → List ℕ → ℕ → ℕ → ℕ → Result (List ℕ)
  crypto_airplay2_decrypt_rtp key packet payload_offset payload_len output_capacity = do
    guard (not (is_malformed packet payload_offset payload_len))
    let encrypted_len = payload_len - 8
    guard (not (has_no_room encrypted_len output_capacity))
    suffix ← slice packet (payload_offset + encrypted_len) 8
    tag ← slice packet (payload_offset + encrypted_len - 16) 16
    additional ← slice packet 4 8
    cipher ← slice packet payload_offset (encrypted_len - 16)
    plain_text (lib.chachapoly key (replicate 4 0 ++ suffix) additional tag cipher)
