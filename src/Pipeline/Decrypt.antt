-- ===== src/Pipeline/Decrypt.antt =====
-- The decryption of a payload in shared/audio/audio_pipeline.c against AES-CBC on whole blocks.
use protable_airplay.Base.{
  ℕ, zero, suc, ◌+◌, ◌%◌, ◌≤◌, ◌<◌, ◌≡◌, refl, ap, ◌∙◌, true, ◌&&◌, not, Option, none, some, List,
  [], ◌∷◌, ◌++◌, ltb, leb, ◌==◌, if◌then◌else◌, length, take, drop, ok, ◌>>=◌, arith, inl, inr,
  Bool-cases, length-append, length-take, length-drop, take-append_left, drop-append_left,
  le→ltb_false, Returns, of_ok, of_fail, Returns-bind, Returns-guard,
}
use protable_airplay.Crypto.{AesContext, crypto_aes_decrypt}
use protable_airplay.Crypto.Bounds.{KeepsLength, length-crypto_aes_decrypt}
use protable_airplay.Buffered.{rtp_buffer_size}
use protable_airplay.Pipeline.{Pipeline, Externals}
use protable_airplay.Pipeline.Decode.{decode_input, decrypt_prefix, encrypted_len, or_fail, store}

pub take-nil : {A : Type 0} (n : ℕ) → take {A = A} n [] ≡ []
take-nil zero = refl
take-nil (suc n) = refl

store_lem :
    (out bs : List ℕ) → length out + length bs ≤ rtp_buffer_size → store out bs ≡ ok (out ++ bs)
unfolding store
store_lem out bs h = rw (le→ltb_false rtp_buffer_size (length out + length bs) h) refl

or_fail-Returns :
    (n : ℕ) (o : Option (List ℕ))
    → ((out : List ℕ) → o ≡ some out → length out ≡ n)
    → Returns (λ out. length out ≡ n) (or_fail o)
or_fail-Returns n none h = of_fail
or_fail-Returns n (some out) h = of_ok out (h out refl)

-- Decryption writes inside its buffer and keeps the length of the payload, if mbedTLS does.
pub decrypt_prefix-Returns :
    {L H V : Type 0} (x : Externals L H V) (c : AesContext) (payload : List ℕ)
    → KeepsLength x.crypto
    → Returns (λ input. length input ≡ length payload) (decrypt_prefix x c payload)
unfolding decrypt_prefix
decrypt_prefix-Returns x c payload k =
    Returns-guard _ (not (ltb rtp_buffer_size (length payload))) _ λ g.
      Returns-bind _ _ _ _
        (or_fail-Returns (length (take (encrypted_len payload) payload))
          (crypto_aes_decrypt x.crypto c (take (encrypted_len payload) payload))
          λ plain e.
            length-crypto_aes_decrypt x.crypto c (take (encrypted_len payload) payload) plain k e)
        λ plain l.
          let n = length-take (encrypted_len payload) payload in
          let m = length-drop (encrypted_len payload) payload in
          rw
            (
              store_lem [] plain (ground (arith, g, l, n, m)),
              store_lem plain (drop (encrypted_len payload) payload) (ground (arith, g, l, n, m)),
            )
            (of_ok _
              (omega (arith, l, n, m, length-append plain (drop (encrypted_len payload) payload))))

pub decode_input-Returns :
    {L H V : Type 0} (x : Externals L H V) (p : Pipeline L H V) (payload : List ℕ)
    → KeepsLength x.crypto
    → Returns (λ input. length input ≡ length payload) (decode_input x p payload)
decode_input-Returns x p payload k =
    elim (Bool-cases (p.session.has_encryption && leb 16 (length payload))) [
      | inl b ↦ rw b (decrypt_prefix-Returns x p.aes_context payload k)
      | inr b ↦ rw b (of_ok payload refl)
    ]

pub take_all : {A : Type 0} (n : ℕ) (xs : List A) → length xs ≤ n → take n xs ≡ xs
take_all n [] h = take-nil n
take_all zero (y ∷ ys) h = absurd (omega arith)
take_all (suc n) (y ∷ ys) h = ap (◌∷◌ y) (take_all n ys (omega arith))

drop_all : {A : Type 0} (xs : List A) → drop (length xs) xs ≡ []
drop_all [] = refl
drop_all (y ∷ ys) = drop_all ys

-- A text in front of the bytes behind it
abbrev pub in_front : List ℕ → Option (List ℕ) → Option (List ℕ)
in_front tail none = none
in_front tail (some plain) = some (plain ++ tail)

-- What whole blocks and a tail of less than a block stand for: AES-CBC from the IV of the session decrypts the
-- blocks, and the tail is not encrypted. A payload of more than 4096 bytes is not decrypted.
abbrev pub decrypted :
    {L H V : Type 0} → Externals L H V → AesContext → List ℕ → List ℕ → Option (List ℕ)
decrypted x c blocks tail =
    if ltb 4096 (length blocks + length tail)
    then none
    else in_front tail (x.crypto.aes_cbc c.key c.iv blocks)

abbrev pub clear_text :
    {L H V : Type 0} → Externals L H V → Pipeline L H V → List ℕ → List ℕ → Option (List ℕ)
clear_text x p blocks tail =
    if p.session.has_encryption && ltb 0 (length blocks)
    then decrypted x p.aes_context blocks tail
    else some (blocks ++ tail)

module _ (blocks tail : List ℕ) where
  whole : length blocks % 16 ≡ 0 → length tail < 16 → encrypted_len (blocks ++ tail) ≡ length blocks
  whole h k = omega (arith, h, k, length-append blocks tail)

  blocks_of :
      length blocks % 16 ≡ 0
      → length tail < 16
      → take (encrypted_len (blocks ++ tail)) (blocks ++ tail) ≡ blocks
  blocks_of h k =
      ap (λ n. take n (blocks ++ tail)) (whole h k)
      ∙ take-append_left (length blocks) blocks tail (omega arith)
      ∙ take_all (length blocks) blocks (omega arith)

  tail_of :
      length blocks % 16 ≡ 0
      → length tail < 16
      → drop (encrypted_len (blocks ++ tail)) (blocks ++ tail) ≡ tail
  tail_of h k =
      ap (λ n. drop n (blocks ++ tail)) (whole h k)
      ∙ drop-append_left (length blocks) blocks tail (omega arith)
      ∙ ap (λ bs. bs ++ tail) (drop_all blocks)

  stored :
      (o : Option (List ℕ))
      → ((out : List ℕ) → o ≡ some out → length out ≡ length blocks)
      → length blocks + length tail ≤ rtp_buffer_size
      → (or_fail o >>= λ plain. store [] plain >>= λ prefix. store prefix tail)
        ≡ or_fail (in_front tail o)
  stored none h b = refl
  stored (some plain) h b =
      rw
        (
          store_lem [] plain (omega (arith, h plain refl, b)),
          store_lem plain tail (omega (arith, h plain refl, b)),
        )
        refl

  decrypt_prefix_lem :
      {L H V : Type 0} (x : Externals L H V) (c : AesContext)
      → KeepsLength x.crypto
      → length blocks % 16 ≡ 0
      → length tail < 16
      → decrypt_prefix x c (blocks ++ tail) ≡ or_fail (decrypted x c blocks tail)
  unfolding decrypt_prefix crypto_aes_decrypt
  decrypt_prefix_lem x c l h k = elim (Bool-cases (ltb 4096 (length blocks + length tail))) [
    | inl e ↦ rw (length-append blocks tail, e) refl
    | inr e ↦
        rw
          (
            blocks_of h k,
            tail_of h k,
            length-append blocks tail,
            e,
            (let z : (length blocks % 16 == 0) ≡ true = ground (arith, h) in z),
          )
          (stored (x.crypto.aes_cbc c.key c.iv blocks)
            (λ out f. l.cbc_length c.key c.iv blocks out f) (ground (arith, e)))
  ]

  pub decode_input_lem :
      {L H V : Type 0} (x : Externals L H V) (p : Pipeline L H V)
      → KeepsLength x.crypto
      → length blocks % 16 ≡ 0
      → length tail < 16
      → decode_input x p (blocks ++ tail) ≡ or_fail (clear_text x p blocks tail)
  decode_input_lem x p l h k =
      elim (Bool-cases (p.session.has_encryption && ltb 0 (length blocks))) [
        | inl e ↦ rw (same, e) (decrypt_prefix_lem x p.aes_context l h k)
        | inr e ↦ rw (same, e) refl
      ]
    where
      same :
          (p.session.has_encryption && leb 16 (length (blocks ++ tail)))
          ≡ (p.session.has_encryption && ltb 0 (length blocks))
      same =
          ap (λ b. p.session.has_encryption && b)
            (let e : leb 16 (length (blocks ++ tail)) ≡ ltb 0 (length blocks) =
                ground (arith, h, k, length-append blocks tail) in
              e)
