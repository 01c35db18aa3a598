-- ===== src/Crypto/Bounds.antt =====
-- The lengths that shared/crypto/crypto.c reads and returns.
use protable_airplay.Base.{
  ℕ, ◌+◌, ◌-◌, ◌%◌, ◌≤◌, ◌≡◌, refl, not, Option, none, some, List, ◌==◌, length, drop, arith, inl,
  inr, Bool-cases, Yields, yields, Yields-Returns, Returns, of_ok, of_fail, Returns-bind,
  le→ltb_false, Returns-guard, Returns-mono, length-take, length-drop,
}
use protable_airplay.Rtp.{slice}
use protable_airplay.Crypto.{
  Mbedtls, AesContext, crypto_aes_decrypt, crypto_airplay2_decrypt_rtp, plain_text, is_malformed,
  has_no_room,
}

-- What mbedTLS documents of the two ciphers: the plain text has the length of the cipher text.
pub record KeepsLength (lib : Mbedtls) : Type 0 where
  pub cbc_length :
      (key iv input out : List ℕ) → lib.aes_cbc key iv input ≡ some out → length out ≡ length input
  pub chachapoly_length :
      (key nonce additional tag input out : List ℕ)
      → lib.chachapoly key nonce additional tag input ≡ some out
      → length out ≡ length input

pub length-crypto_aes_decrypt :
    (lib : Mbedtls) (c : AesContext) (input out : List ℕ)
    → KeepsLength lib
    → crypto_aes_decrypt lib c input ≡ some out
    → length out ≡ length input
unfolding crypto_aes_decrypt
length-crypto_aes_decrypt lib c input out k e = elim (Bool-cases (length input % 16 == 0)) [
  | inl b ↦ k.cbc_length c.key c.iv input out (ground (arith, b, e))
  | inr b ↦ absurd (ground (arith, b, e))
]

pub Yields-slice :
    (bs : List ℕ) (from n : ℕ) → from + n ≤ length bs → Yields (λ s. length s ≡ n) (slice bs from n)
unfolding slice
Yields-slice bs from n h =
    rw (le→ltb_false (length bs) (from + n) h)
      (yields _ (omega (arith, length-take n (drop from bs), length-drop from bs)))

Returns-slice :
    (bs : List ℕ) (from n : ℕ)
    → from + n ≤ length bs
    → Returns (λ s. length s ≡ n) (slice bs from n)
Returns-slice bs from n h = Yields-Returns _ _ _ (Yields-slice bs from n h) λ s e. e

plain_text-Returns :
    (n : ℕ) (o : Option (List ℕ))
    → ((out : List ℕ) → o ≡ some out → length out ≡ n)
    → Returns (λ out. length out ≡ n) (plain_text o)
plain_text-Returns n none h = of_fail
plain_text-Returns n (some out) h = of_ok out (h out refl)

-- On any packet, `crypto_airplay2_decrypt_rtp` reads inside it. The plain text it returns is 24 bytes shorter
-- than the payload and fits in the output, if mbedTLS keeps the length.
pub crypto_airplay2_decrypt_rtp-Returns :
    (lib : Mbedtls) (key packet : List ℕ) (offset len capacity : ℕ)
    → KeepsLength lib
    → Returns
        (λ out. (length out + 24 ≡ len) × (length out ≤ capacity))
        (crypto_airplay2_decrypt_rtp lib key packet offset len capacity)
unfolding crypto_airplay2_decrypt_rtp
crypto_airplay2_decrypt_rtp-Returns lib key packet offset len capacity k =
    Returns-guard _ (not (is_malformed packet offset len)) _ λ g.
      Returns-guard _ (not (has_no_room (len - 8) capacity)) _ λ h.
        Returns-bind _ _ _ _ (Returns-slice packet _ 8 (ground (arith, g))) λ suffix s.
          Returns-bind _ _ _ _ (Returns-slice packet _ 16 (ground (arith, g))) λ tag t.
            Returns-bind _ _ _ _ (Returns-slice packet 4 8 (ground (arith, g))) λ additional a.
              Returns-bind _ _ _ _ (Returns-slice packet offset (len - 8 - 16) (ground (arith, g)))
                λ cipher c.
                  Returns-mono _ _ _
                    (plain_text-Returns _ _
                      λ out e. k.chachapoly_length key _ additional tag cipher out e)
                    λ out e. (ground (arith, g, h, e, c), ground (arith, g, h, e, c))
