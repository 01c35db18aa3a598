-- ===== src/Pipeline/Decode.antt =====
-- shared/audio/audio_pipeline.c: the three decoders.
use protable_airplay.Base.{
  ℕ, zero, suc, ◌+◌, ◌-◌, ◌*◌, ◌/◌, ◌%◌, ◌^◌, Bool, true, false, ◌&&◌, ◌||◌, not, Option, none,
  some, List, [], ◌∷◌, ◌++◌, ltb, leb, ◌==◌, if◌then◌else◌, length, take, drop, min, Result, ok,
  fail, fault, ◌>>=◌, ◌>>◌, guard, read, recover,
}
use protable_airplay.Base.Int.{ℤ, signed16}
use protable_airplay.Rtp.{slice}
use protable_airplay.Buffered.{rtp_buffer_size}
use protable_airplay.Crypto.{AesContext, crypto_aes_decrypt}
use protable_airplay.Codec.{AlacDecoder, AacDecoder, alac_decoder_decode_frame, aac_decoder_decode}
use protable_airplay.Pipeline.{Pipeline, Session, Externals, max_audio_buffer_samples}

-- The big-endian samples from byte `i`
unfoldable pub pcm_loop : List ℕ → ℕ → ℕ → Result (List ℤ)
pcm_loop input i zero = ok []
pcm_loop input i (suc n) = do
  high ← read input (i * 2)
  low ← read input (i * 2 + 1)
  rest ← pcm_loop input (i + 1) n
  ok (signed16 (high * 2 ^ 8 + low) ∷ rest)

-- The loop of `audio_pipeline_read_bits`, on a uint32_t
unfoldable pub bits_loop : List ℕ → ℕ → ℕ → ℕ → Result (ℕ × ℕ)
bits_loop bs offset zero result = ok (result, offset)
bits_loop bs offset (suc n) result = do
  byte ← read bs (offset / 8)
  bits_loop bs (offset + 1) n (result * 2 % 2 ^ 32 + byte / 2 ^ (7 - offset % 8) % 2)

-- `audio_pipeline_read_bits`: the value and the offset behind it
unfoldable pub read_bits : List ℕ → ℕ → ℕ → ℕ → Result (ℕ × ℕ)
read_bits bs bit_length offset count = do
  guard (not (ltb 24 count || (ltb bit_length offset || ltb (bit_length - offset) count)))
  bits_loop bs offset count 0

-- A write of these bytes behind `out` in `decrypted_buffer`, which must have room for them
unfoldable pub store : List ℕ → List ℕ → Result (List ℕ)
store out bs = if ltb rtp_buffer_size (length out + length bs) then fault else ok (out ++ bs)

abbrev pub or_fail : Option (List ℕ) → Result (List ℕ)
or_fail none = fail
or_fail (some input) = ok input

-- The length of the encrypted prefix
abbrev pub encrypted_len : List ℕ → ℕ
encrypted_len payload = length payload / 16 * 16

module _ {L H V : Type 0} (x : Externals L H V) where
  -- What is written to `decrypted_buffer`: the prefix of whole blocks decrypted, and the bytes behind it
  unfoldable pub decrypt_prefix : AesContext → List ℕ → Result (List ℕ)
  decrypt_prefix c payload = do
    guard (not (ltb rtp_buffer_size (length payload)))
    plain ← or_fail (crypto_aes_decrypt x.crypto c (take (encrypted_len payload) payload))
    prefix ← store [] plain
    store prefix (drop (encrypted_len payload) payload)

  -- `decode_input` of the ALAC and the PCM decoder
  abbrev pub decode_input : Pipeline L H V → List ℕ → Result (List ℕ)
  decode_input p payload =
      if p.session.has_encryption && leb 16 (length payload)
      then decrypt_prefix p.aes_context payload
      else ok payload

  abbrev pub alac_input : AlacDecoder L → List ℕ → AlacDecoder L × Option (List ℤ)
  alac_input d input =
      if ltb 0 d.frame_length
      then alac_decoder_decode_frame x.alac d input max_audio_buffer_samples
      else (d, none)

  unfoldable pub decode_alac : Pipeline L H V → List ℕ → Result (AlacDecoder L × Option (List ℤ))
  decode_alac p payload =
      recover (p.alac_decoder, none) (decode_input p payload)
        (λ input. ok (alac_input p.alac_decoder input))

  unfoldable pub decode_pcm : Pipeline L H V → List ℕ → Result (List ℤ)
  decode_pcm p payload = do
    guard (not (p.session.channels == 0) && length payload % (2 * p.session.channels) == 0)
    input ← decode_input p payload
    pcm_loop input 0 (min (length payload / 2) max_audio_buffer_samples)

  -- What is left to do after an access unit: the index of the next one, if there is one
  abbrev pub au_next :
      Session
      → List ℕ
      → ℕ
      → ℕ
      → (AacDecoder H → ℕ → Result (AacDecoder H × Option (List ℤ)))
      → AacDecoder H
      → Result (AacDecoder H × Option (List ℤ))
  au_next s headers bits offset next d =
      if ltb offset bits
      then recover (d, none) (read_bits headers bits offset s.aac_index_delta_length)
          (λ r. next d r.1)
      else next d offset

  abbrev pub au_decoded :
      AacDecoder H × Option (List ℤ)
      → (AacDecoder H → List ℤ → Result (AacDecoder H × Option (List ℤ)))
      → Result (AacDecoder H × Option (List ℤ))
  au_decoded (d, none) next = ok (d, none)
  au_decoded (d, some decoded) next = next d decoded

  -- An access unit of `frame_size` bytes
  abbrev pub au_frame :
      List ℕ
      → AacDecoder H
      → ℕ
      → ℕ
      → List ℤ
      → (AacDecoder H → List ℤ → Result (AacDecoder H × Option (List ℤ)))
      → Result (AacDecoder H × Option (List ℤ))
  au_frame frames d frame_offset frame_size output next =
      if ltb (length frames - frame_offset) frame_size
        || leb max_audio_buffer_samples (length output)
      then ok (d, none)
      else slice frames frame_offset frame_size >>= λ frame.
          au_decoded (aac_decoder_decode x.aac d frame (max_audio_buffer_samples - length output))
            next

  -- The end of the loop
  abbrev pub au_end : List ℕ → ℕ → List ℤ → Option (List ℤ)
  au_end frames frame_offset output =
      if not (frame_offset == length frames) || length output == 0 then none else some output

  -- The loop over the access units of `frames`, whose headers have `bits` bits: `offset` is `bit_offset`, and
  -- `output` is what is decoded so far. Without fuel it faults.
  unfoldable pub au_loop :
      ℕ
      → Session
      → List ℕ
      → ℕ
      → List ℕ
      → AacDecoder H
      → ℕ
      → ℕ
      → List ℤ
      → Result (AacDecoder H × Option (List ℤ))
  au_loop zero s headers bits frames d offset frame_offset output = fault
  au_loop (suc fuel) s headers bits frames d offset frame_offset output =
      if ltb offset bits
      then recover (d, none) (read_bits headers bits offset s.aac_size_length)
          (λ size.
            recover (d, none) (read_bits headers bits size.1 s.aac_index_length)
              (λ index. au_frame frames d frame_offset size.0 output (λ d' decoded.
                au_next s headers bits index.1
                  (λ d'' offset'.
                    au_loop fuel s headers bits frames d'' offset' (frame_offset + size.0)
                      (output ++ decoded))
                  d')))
      else ok (d, au_end frames frame_offset output)

  -- RFC 3640: the length of the headers in bits, the headers, and the frames
  unfoldable pub decode_units :
      Session → AacDecoder H → List ℕ → Result (AacDecoder H × Option (List ℤ))
  decode_units s d input = do
    high ← read input 0
    low ← read input 1
    let bits = high * 2 ^ 8 + low
    let bytes = (bits + 7) / 8
    (if bits == 0 || ltb (length input - 2) bytes then ok (d, none) else (do
      headers ← slice input 2 bytes
      frames ← slice input (2 + bytes) (length input - 2 - bytes)
      au_loop (bits + 1) s headers bits frames d 0 0 []))

  abbrev pub has_impl : Option H → Bool
  has_impl none = false
  has_impl (some h) = true

  unfoldable pub decode_aac : Pipeline L H V → List ℕ → Result (AacDecoder H × Option (List ℤ))
  decode_aac p payload =
      let d = p.aac_decoder in
      if ltb (length payload) 2 || not (has_impl d.handle)
      then ok (d, none)
      else if not (p.session.stream_type == 0)
      then ok (aac_decoder_decode x.aac d payload max_audio_buffer_samples)
      else recover (d, none)
          (if p.session.has_encryption then decrypt_prefix p.aes_context payload else ok payload)
          (λ input. decode_units p.session d input)
