-- ===== src/Codec/Sizes.antt =====
-- The number of samples that the adapters of shared/codec return.
use protable_airplay.Base.{
  ℕ, zero, suc, ◌+◌, ◌*◌, ◌/◌, ◌%◌, ◌≤◌, ◌<◌, ◌≡◌, refl, ap, ◌∙◌, inl, inr, false, ◌&&◌, ◌||◌, not,
  Option, none, some, List, ltb, ◌==◌, length, arith, Bool-cases,
}
use protable_airplay.Base.Int.{ℤ, pos, pos_part, ltb_ℤ}
use protable_airplay.Codec.{
  samples_from, samples, AlacLibrary, AlacDecoder, int_max, alac_output, alac_try,
  alac_decoder_decode_frame, AacLibrary, AacDecoder, aac_count, aac_output, aac_run, aac_try,
  aac_decoder_decode,
}

length-samples_from : (i : ℕ) (f : ℕ → ℤ) (n : ℕ) → length (samples_from i f n) ≡ n
unfolding samples_from
length-samples_from i f zero = refl
length-samples_from i f (suc n) = ap suc (length-samples_from (i + 1) f n)

-- At least one sample, and no more than there is room for
abbrev pub Fits : ℕ → Option (List ℤ) → Type 0
Fits capacity none = Unit {0}
Fits capacity (some out) = (0 < length out) × (length out ≤ capacity)

abbrev Counted : ℕ → Option ℕ → Type 0
Counted capacity none = Unit {0}
Counted capacity (some n) = (0 < n) × (n ≤ capacity)

positive : (a b : ℕ) → 0 < a → 0 < b → 0 < b * a
positive zero b h k = absurd (omega arith)
positive (suc a) zero h k = absurd (omega arith)
positive (suc a) (suc b) h k = ground arith

aac_count-Counted :
    (channels capacity : ℕ) (info : Option (ℤ × ℤ))
    → Counted capacity (aac_count channels capacity info)
aac_count-Counted channels capacity none = tt
aac_count-Counted channels capacity (some (n, size)) =
    elim (Bool-cases (
      ltb_ℤ (pos 0) n
      && (not (ltb 2 (pos_part n))
          && (pos_part n == channels
              && (ltb_ℤ (pos 0) size && not (ltb capacity (pos_part size * pos_part n))))))) [
                | inl e ↦ rw e (
                  positive (pos_part n) (pos_part size) (ground arith) (ground arith),
                  ground arith,
                )
                | inr e ↦ rw e tt
              ]

counted_samples :
    (capacity : ℕ) (f : ℕ → ℤ) (o : Option ℕ)
    → Counted capacity o
    → Fits capacity (elim o [ none ↦ none | some n ↦ some (samples f n) ])
counted_samples capacity f none h = tt
counted_samples capacity f (some n) h =
    (omega (arith, length-samples_from 0 f n, h), omega (arith, length-samples_from 0 f n, h))

aac_output-Fits :
    {H : Type 0} (lib : AacLibrary H) (channels capacity : ℕ) (h : H) (o : Option (ℕ → ℤ))
    → Fits capacity (aac_output lib channels capacity h o)
aac_output-Fits lib channels capacity h none = tt
aac_output-Fits lib channels capacity h (some f) =
    counted_samples capacity f _ (aac_count-Counted channels capacity (lib.aac_info h))

aac_run-Fits :
    {H : Type 0} (lib : AacLibrary H) (d : AacDecoder H) (h : H) (input : List ℕ) (capacity : ℕ)
    → Fits capacity (aac_run lib d h input capacity).1
aac_run-Fits lib d h input capacity = elim (Bool-cases (lib.aac_fill h input).1) [
  | inl e ↦ rw e (aac_output-Fits lib d.aac_channels capacity _ _)
  | inr e ↦ rw e tt
]

aac_try-Fits :
    {H : Type 0} (lib : AacLibrary H) (d : AacDecoder H) (o : Option H) (input : List ℕ)
    (capacity : ℕ)
    → Fits capacity (aac_try lib d o input capacity).1
aac_try-Fits lib d none input capacity = tt
aac_try-Fits lib d (some h) input capacity =
    elim (Bool-cases (length input == 0 || ltb int_max capacity)) [
      | inl e ↦ rw e tt
      | inr e ↦ rw e (aac_run-Fits lib d h input capacity)
    ]

-- `aac_decoder_decode` on any input, with any decoder library: if it succeeds, there is at least one sample,
-- and there are no more than the output has room for.
pub aac_decoder_decode-Fits :
    {H : Type 0} (lib : AacLibrary H) (d : AacDecoder H) (input : List ℕ) (capacity : ℕ)
    → Fits capacity (aac_decoder_decode lib d input capacity).1
unfolding aac_decoder_decode
aac_decoder_decode-Fits lib d input capacity = aac_try-Fits lib d d.handle input capacity

-- No more samples than there is room for, in whole frames of the channels
abbrev pub Framed : ℕ → ℕ → Option (List ℤ) → Type 0
Framed channels capacity none = Unit {0}
Framed channels capacity (some out) = (length out ≤ capacity) × (length out % channels ≡ 0)

alac_output-Framed :
    (channels capacity : ℕ) (bytes : ℤ) (f : ℕ → ℤ)
    → Framed channels capacity (alac_output channels capacity bytes f)
alac_output-Framed channels capacity bytes f =
    elim (Bool-cases (not (ltb_ℤ (pos 0) bytes) || (ltb capacity n || not (n % channels == 0)))) [
      | inl e ↦ rw e tt
      | inr e ↦ rw e (
        ground (arith, length-samples_from 0 f n),
        ap (λ m. m % channels) (length-samples_from 0 f n) ∙ whole e,
      )
    ]
  where
    n : ℕ
    n = pos_part bytes / 2

    whole :
        (not (ltb_ℤ (pos 0) bytes) || (ltb capacity n || not (n % channels == 0))) ≡ false
        → n % channels ≡ 0
    whole e = ground arith

alac_try-Framed :
    {L : Type 0} (lib : AlacLibrary L) (d : AlacDecoder L) (o : Option L) (input : List ℕ)
    (capacity : ℕ)
    → Framed d.channels capacity (alac_try lib d o input capacity).1
alac_try-Framed lib d none input capacity = tt
alac_try-Framed lib d (some alac) input capacity =
    elim (Bool-cases (length input == 0 || capacity == 0)) [
      | inl e ↦ rw e tt
      | inr e ↦ rw e (alac_output-Framed d.channels capacity _ _)
    ]

-- `alac_decoder_decode_frame` on any input, with any decoder: if it succeeds, the samples are whole frames of
-- the channels, and there are no more than the output has room for.
pub alac_decoder_decode_frame-Framed :
    {L : Type 0} (lib : AlacLibrary L) (d : AlacDecoder L) (input : List ℕ) (capacity : ℕ)
    → Framed d.channels capacity (alac_decoder_decode_frame lib d input capacity).1
unfolding alac_decoder_decode_frame
alac_decoder_decode_frame-Framed lib d input capacity = alac_try-Framed lib d d.impl input capacity

aac_try_empty :
    {H : Type 0} (lib : AacLibrary H) (d : AacDecoder H) (o : Option H) (input : List ℕ)
    (capacity : ℕ)
    → length input ≡ 0
    → aac_try lib d o input capacity ≡ (d, none)
aac_try_empty lib d none input capacity h = refl
aac_try_empty lib d (some k) input capacity h = rw h refl

-- An empty frame is refused.
pub aac_decoder_decode-empty :
    {H : Type 0} (lib : AacLibrary H) (d : AacDecoder H) (input : List ℕ) (capacity : ℕ)
    → length input ≡ 0
    → aac_decoder_decode lib d input capacity ≡ (d, none)
unfolding aac_decoder_decode
aac_decoder_decode-empty lib d input capacity h = aac_try_empty lib d d.handle input capacity h
