-- ===== src/Pipeline/Units.antt =====
-- The AAC decoder of shared/audio/audio_pipeline.c on any payload: the access units of RFC 3640.
use protable_airplay.Base.{
  ℕ, zero, suc, ◌+◌, ◌-◌, ◌*◌, ◌/◌, ◌^◌, ◌≤◌, ◌<◌, ◌≡◌, refl, ap, sym, subst, ◌∙◌, ◌||◌, not,
  Option, none, some, List, [], ◌++◌, ltb, leb, ◌==◌, if◌then◌else◌, length, get_or, Result, ok,
  ◌>>=◌, read_lem, arith, inl, inr, Bool-cases, length-append, Returns, of_ok, Yields-Returns,
  Returns-guard, Yields, yields, Yields-bind, Yields-mono, Yields-recover,
}
use protable_airplay.Base.Int.{ℤ}
use protable_airplay.Rtp.{slice}
use protable_airplay.Codec.{AacDecoder, aac_decoder_decode}
use protable_airplay.Codec.Sizes.{Fits, aac_decoder_decode-Fits, aac_decoder_decode-empty}
use protable_airplay.Crypto.Bounds.{KeepsLength, Yields-slice}
use protable_airplay.Pipeline.{Pipeline, Session, Externals, max_audio_buffer_samples}
use protable_airplay.Pipeline.Decode.{
  bits_loop, read_bits, au_loop, au_next, au_decoded, au_frame, au_end, decode_units, decode_aac,
  has_impl, decrypt_prefix,
}
use protable_airplay.Pipeline.Decrypt.{decrypt_prefix-Returns}

-- The offset behind `n` bits, and 0 for no bits
abbrev pub HasRead : ℕ → ℕ → ℕ → ℕ × ℕ → Type 0
HasRead offset n result r = (r.1 ≡ offset + n) × (n ≡ 0 → r.0 ≡ result)

bits_loop-Yields :
    (bs : List ℕ) (offset n result : ℕ)
    → offset + n ≤ length bs * 8
    → Yields (HasRead offset n result) (bits_loop bs offset n result)
unfolding bits_loop
bits_loop-Yields bs offset zero result h = yields _ (omega arith, λ _. refl)
bits_loop-Yields bs offset (suc n) result h = rw (read_lem bs (offset / 8) (omega (arith, h))) (
    Yields-mono _ _ _ (bits_loop-Yields bs (offset + 1) n _ (omega (arith, h)))
      λ r (e, f). (omega (arith, e), λ z. absurd (omega (arith, z))))

-- `audio_pipeline_read_bits` reads inside the headers, and goes on by the bits it reads.
read_bits-Returns :
    (bs : List ℕ) (bits offset n : ℕ)
    → bits ≤ length bs * 8
    → Returns (λ r. HasRead offset n 0 r × (r.1 ≤ bits)) (read_bits bs bits offset n)
unfolding read_bits
read_bits-Returns bs bits offset n h =
    Returns-guard _ (not (ltb 24 n || (ltb bits offset || ltb (bits - offset) n))) _ λ g.
      Yields-Returns _ _ _ (bits_loop-Yields bs offset n 0 (ground (arith, g, h)))
        λ r (e, f). ((e, f), ground (arith, g, e))

-- A value that is not 0 has bits.
advance : (offset n : ℕ) (r : ℕ × ℕ) → HasRead offset n 0 r → 0 < r.0 → offset < r.1
advance offset zero r (e, f) h = absurd (omega (arith, f refl, h))
advance offset (suc n) r (e, f) h = omega (arith, e)

none-ne-some : {A : Type 0} {B : Type 0} {a : A} → none ≡ some a → B
none-ne-some e = cc

module _ {L H V : Type 0} (x : Externals L H V) where
  -- The loop ends, in range, from every state that `Ready` describes.
  abbrev pub Ends : Result (AacDecoder H × Option (List ℤ)) → Type 0
  Ends = Yields (λ r. Fits max_audio_buffer_samples r.1)

  au_next-Ends :
      (s : Session) (headers : List ℕ) (bits offset : ℕ)
      (next : AacDecoder H → ℕ → Result (AacDecoder H × Option (List ℤ))) (d : AacDecoder H)
      → bits ≤ length headers * 8
      → offset ≤ bits
      → ((d' : AacDecoder H) (offset' : ℕ)
          → offset ≤ offset'
          → offset' ≤ bits
          → Ends (next d' offset'))
      → Ends (au_next x s headers bits offset next d)
  au_next-Ends s headers bits offset next d h k f = elim (Bool-cases (ltb offset bits)) [
    | inl e ↦ rw e (
        Yields-recover _ _ (d, none) _ _
          (read_bits-Returns headers bits offset s.aac_index_delta_length h) tt
          λ r g. f d r.1 (omega (arith, g.0.0)) g.1)
    | inr e ↦ rw e (f d offset (omega arith) k)
  ]

  au_decoded-Ends :
      (r : AacDecoder H × Option (List ℤ))
      (next : AacDecoder H → List ℤ → Result (AacDecoder H × Option (List ℤ)))
      → ((d : AacDecoder H) (decoded : List ℤ) → r ≡ (d, some decoded) → Ends (next d decoded))
      → Ends (au_decoded x r next)
  au_decoded-Ends (d, none) next h = yields _ tt
  au_decoded-Ends (d, some decoded) next h = h d decoded refl

  -- What an access unit that was decoded guarantees
  abbrev UnitOk : List ℕ → ℕ → ℕ → List ℤ → List ℤ → Type 0
  UnitOk frames frame_offset frame_size output decoded =
      (0 < frame_size)
      × (frame_offset + frame_size ≤ length frames)
      × (length output + length decoded ≤ max_audio_buffer_samples)

  -- A frame that is decoded is not empty.
  decoded_bounds :
      (d d' : AacDecoder H) (frame : List ℕ) (capacity : ℕ) (decoded : List ℤ)
      → aac_decoder_decode x.aac d frame capacity ≡ (d', some decoded)
      → (0 < length frame) × (length decoded ≤ capacity)
  decoded_bounds d d' frame capacity decoded e = (
    elim (Bool-cases (ltb 0 (length frame))) [
      | inl b ↦ ground arith
      | inr b ↦ absurd (
          none-ne-some (
            ap (λ r. r.1)
              (sym (aac_decoder_decode-empty x.aac d frame capacity (ground arith)) ∙ e)))
    ],
    (subst (λ r. Fits capacity r.1) e (aac_decoder_decode-Fits x.aac d frame capacity)).1,
  )

  au_frame-Ends :
      (frames : List ℕ) (d : AacDecoder H) (frame_offset frame_size : ℕ) (output : List ℤ)
      (next : AacDecoder H → List ℤ → Result (AacDecoder H × Option (List ℤ)))
      → frame_offset ≤ length frames
      → ((d' : AacDecoder H) (decoded : List ℤ)
          → UnitOk frames frame_offset frame_size output decoded
          → Ends (next d' decoded))
      → Ends (au_frame x frames d frame_offset frame_size output next)
  au_frame-Ends frames d frame_offset frame_size output next h f =
      elim (Bool-cases (
        ltb (length frames - frame_offset) frame_size
        || leb max_audio_buffer_samples (length output))) [
          | inl e ↦ rw e (yields _ tt)
          | inr e ↦ rw e (
              Yields-bind _ _ _ _
                (Yields-slice frames frame_offset frame_size (ground (arith, e, h)))
                λ frame l.
                  au_decoded-Ends
                    (aac_decoder_decode x.aac d frame (max_audio_buffer_samples - length output))
                    next
                    λ d' decoded g.
                      let b = decoded_bounds d d' frame _ decoded g in
                      f d' decoded
                        (ground (arith, e, h, l, b), ground (arith, e, h), ground (arith, e, b)))
        ]

  au_end-Fits :
      (frames : List ℕ) (frame_offset : ℕ) (output : List ℤ)
      → length output ≤ max_audio_buffer_samples
      → Fits max_audio_buffer_samples (au_end x frames frame_offset output)
  au_end-Fits frames frame_offset output h =
      elim (Bool-cases (not (frame_offset == length frames) || length output == 0)) [
        | inl e ↦ rw e tt
        | inr e ↦ rw e (ground arith, h)
      ]

  -- Every access unit takes a bit of the headers at least, so that one turn more than bits is enough.
  au_loop-Ends :
      (fuel : ℕ) (s : Session) (headers : List ℕ) (bits : ℕ) (frames : List ℕ) (d : AacDecoder H)
      (offset frame_offset : ℕ) (output : List ℤ)
      → bits ≤ length headers * 8
      → offset ≤ bits
      → bits < offset + fuel
      → frame_offset ≤ length frames
      → length output ≤ max_audio_buffer_samples
      → Ends (au_loop x fuel s headers bits frames d offset frame_offset output)
  unfolding au_loop
  au_loop-Ends zero s headers bits frames d offset frame_offset output h k b o l =
      absurd (omega arith)
  au_loop-Ends (suc fuel) s headers bits frames d offset frame_offset output h k b o l =
      elim (Bool-cases (ltb offset bits)) [
        | inr e ↦ rw e (yields _ (au_end-Fits frames frame_offset output l))
        | inl e ↦ rw e (
            Yields-recover _ _ (d, none) _ _
              (read_bits-Returns headers bits offset s.aac_size_length h) tt
              λ size z.
                Yields-recover _ _ (d, none) _ _
                  (read_bits-Returns headers bits size.1 s.aac_index_length h) tt
                  λ index i. au_frame-Ends frames d frame_offset size.0 output _ o λ d' decoded u.
                    au_next-Ends s headers bits index.1 _ d' h i.1 λ d'' offset' m n.
                      au_loop-Ends fuel s headers bits frames d'' offset' (frame_offset + size.0)
                        (output ++ decoded) h n
                        (omega (arith, advance offset s.aac_size_length size z.0 u.0, i.0.0, m, b))
                        u.1 (omega (arith, length-append output decoded, u.2)))
      ]

  header_bytes_bound : (bits bytes : ℕ) → bytes ≡ (bits + 7) / 8 → bits ≤ bytes * 8
  header_bytes_bound bits bytes e = omega (arith, e)

  decode_units-Ends :
      (s : Session) (d : AacDecoder H) (input : List ℕ)
      → 2 ≤ length input
      → Ends (decode_units x s d input)
  unfolding decode_units
  decode_units-Ends s d input h =
      rw (read_lem input 0 (omega (arith, h)), read_lem input 1 (omega (arith, h)))
        (units (get_or input 0 0 * 2 ^ 8 + get_or input 1 0))
    where
      units :
          (bits : ℕ)
          → Ends (
              if bits == 0 || ltb (length input - 2) ((bits + 7) / 8) then ok (d, none) else (do
                headers ← slice input 2 ((bits + 7) / 8)
                frames ← slice input (2 + (bits + 7) / 8) (length input - 2 - (bits + 7) / 8)
                au_loop x (bits + 1) s headers bits frames d 0 0 []))
      units bits = elim (Bool-cases (bits == 0 || ltb (length input - 2) ((bits + 7) / 8))) [
        | inl e ↦ rw e (yields _ tt)
        | inr e ↦ rw e (
            Yields-bind _ _ _ _ (Yields-slice input 2 ((bits + 7) / 8) (ground (arith, e, h)))
              λ headers l.
                Yields-bind _ _ _ _
                  (Yields-slice input (2 + (bits + 7) / 8) (length input - 2 - (bits + 7) / 8)
                    (ground (arith, e, h)))
                  λ frames m.
                    au_loop-Ends (bits + 1) s headers bits frames d 0 0 []
                      (header_bytes_bound bits (length headers) l) (omega arith) (omega arith)
                      (omega arith) (omega arith))
      ]

  plain_or_decrypted :
      (p : Pipeline L H V) (payload : List ℕ)
      → KeepsLength x.crypto
      → Returns
          (λ input. length input ≡ length payload)
          (if p.session.has_encryption then decrypt_prefix x p.aes_context payload else ok payload)
  plain_or_decrypted p payload k = elim (Bool-cases p.session.has_encryption) [
    | inl b ↦ rw b (decrypt_prefix-Returns x p.aes_context payload k)
    | inr b ↦ rw b (of_ok payload refl)
  ]

  -- Whatever the payload holds, whatever sizes the session gives the fields of the headers, and with any decoder,
  -- `audio_pipeline_decode_aac` ends and reads inside its buffers. If it succeeds, it returns at least one
  -- sample and at most 2048. mbedTLS is taken to keep lengths.
  pub decode_aac-Ends :
      (p : Pipeline L H V) (payload : List ℕ) → KeepsLength x.crypto → Ends (decode_aac x p payload)
  unfolding decode_aac
  decode_aac-Ends p payload k =
      elim (Bool-cases (ltb (length payload) 2 || not (has_impl x p.aac_decoder.handle))) [
        | inl e ↦ rw e (yields _ tt)
        | inr e ↦ elim (Bool-cases (p.session.stream_type == 0)) [
          | inl z ↦
              rw (e, z)
                (Yields-recover _ _ (p.aac_decoder, none) _ _ (plain_or_decrypted p payload k) tt
                  λ input f. decode_units-Ends p.session p.aac_decoder input (ground (arith, e, f)))
          | inr z ↦
              rw (e, z)
                (yields _
                  (aac_decoder_decode-Fits x.aac p.aac_decoder payload max_audio_buffer_samples))
        ]
      ]
