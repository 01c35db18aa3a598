-- ===== src/Codec.antt =====
-- shared/codec/alac_decoder.c and shared/codec/aac_decoder.c: what the pipeline calls to decode a frame.
-- The decoders themselves, shared/codec/alac.c and FDK-AAC, are parameters. A decoder writes into an output
-- buffer, whose samples are a function of their index.
pub mod Sizes
use protable_airplay.Base.{
  ℕ, zero, suc, ◌+◌, ◌-◌, ◌*◌, ◌/◌, ◌%◌, ◌^◌, Bool, true, false, ◌&&◌, ◌||◌, not, Option, none,
  some, List, [], ◌∷◌, ltb, leb, ◌==◌, if◌then◌else◌, length, take, get_or, min,
}
use protable_airplay.Base.Int.{ℤ, pos, negsuc, pos_part, ltb_ℤ}
use protable_airplay.Playout.{alac_max_samples_per_frame}

-- The samples `f 0`, ..., `f (n - 1)` behind the first `i`
unfoldable pub samples_from : ℕ → (ℕ → ℤ) → ℕ → List ℤ
samples_from i f zero = []
samples_from i f (suc n) = f i ∷ samples_from (i + 1) f n

abbrev pub samples : (ℕ → ℤ) → ℕ → List ℤ
samples f n = samples_from 0 f n

-- The fields of an `alac_file` that the adapter sets
pub record AlacInfo : Type 0 where
  pub max_samples_per_frame : ℕ
  pub compatible_version : ℕ
  pub sample_size : ℕ
  pub rice_historymult : ℕ
  pub rice_initialhistory : ℕ
  pub rice_kmodifier : ℕ
  pub info_channels : ℕ
  pub max_run : ℕ
  pub max_frame_bytes : ℕ
  pub average_rate : ℕ
  pub rate : ℕ

-- alac.c: `alac_create`, the fields with `alac_allocate_buffers`, and `alac_decode_frame`, with the number of
-- bytes it returns and what is in the output buffer
pub record AlacLibrary (L : Type 0) : Type 0 where
  pub alac_create : ℕ → ℕ → Option L
  pub alac_set : L → AlacInfo → L
  pub alac_decode_frame : L → List ℕ → ℕ → L × ℤ × (ℕ → ℤ)

-- `alac_decoder_t`; `fmtp` has `fmtp_count` numbers.
pub record AlacDecoder (L : Type 0) : Type 0 where
  pub frame_length : ℕ
  pub bit_depth : ℕ
  pub channels : ℕ
  pub sample_rate : ℕ
  pub fmtp : List ℕ
  pub impl : Option L

abbrev pub int_max : ℕ
int_max = 2 ^ 31 - 1

-- `a ? a : b`
abbrev pub or_default : ℕ → ℕ → ℕ
or_default a b = if a == 0 then b else a

-- The number of the SDP, cut to its field, or the default where it is missing
abbrev pub setting : List ℕ → ℕ → ℕ → ℕ → ℕ
setting fmtp i width other = if ltb i (length fmtp) then get_or fmtp i 0 % 2 ^ width else other

-- The end of `alac_decoder_decode_frame`: the samples, if their number is in range
abbrev pub alac_output : ℕ → ℕ → ℤ → (ℕ → ℤ) → Option (List ℤ)
alac_output channels capacity bytes output =
    let n = pos_part bytes / 2 in
    if not (ltb_ℤ (pos 0) bytes) || (ltb capacity n || not (n % channels == 0))
    then none
    else some (samples output n)

module _ {L : Type 0} (lib : AlacLibrary L) where
  -- `memset(decoder, 0, sizeof(*decoder))`
  abbrev pub alac_zero : AlacDecoder L
  alac_zero = record {
    frame_length = 0;
    bit_depth = 0;
    channels = 0;
    sample_rate = 0;
    fmtp = [];
    impl = none;
  }

  -- The decoder before `alac_create`
  abbrev pub alac_settings : List ℕ → ℕ → ℕ → ℕ → ℕ → AlacDecoder L
  alac_settings fmtp frames depth channels rate = record {
    frame_length = or_default frames 352;
    bit_depth = (let d = or_default depth 16 in if d == 16 || d == 24 then d else 16);
    channels = (let n = or_default channels 2 in if n == 0 || ltb 2 n then 2 else n);
    sample_rate = or_default rate 44100;
    fmtp = take 12 fmtp;
    impl = none;
  }

  abbrev pub alac_info : AlacDecoder L → AlacInfo
  alac_info d = record {
    max_samples_per_frame = d.frame_length;
    compatible_version = setting d.fmtp 1 8 0;
    sample_size = d.bit_depth;
    rice_historymult = setting d.fmtp 3 8 40;
    rice_initialhistory = setting d.fmtp 4 8 10;
    rice_kmodifier = setting d.fmtp 5 8 14;
    info_channels = setting d.fmtp 6 8 d.channels;
    max_run = setting d.fmtp 7 16 255;
    max_frame_bytes = setting d.fmtp 8 32 0;
    average_rate = setting d.fmtp 9 32 0;
    rate = d.sample_rate;
  }

  -- `alac_decoder_init`: whether it succeeds, and the decoder, which is written in any case
  unfoldable pub alac_decoder_init : List ℕ → ℕ → ℕ → ℕ → ℕ → Bool × AlacDecoder L
  alac_decoder_init fmtp frames depth channels rate =
      let d = alac_settings fmtp frames depth channels rate in
      if ltb alac_max_samples_per_frame d.frame_length
      then (false, record alac_zero { frame_length = d.frame_length })
      else elim (lib.alac_create d.bit_depth d.channels) [
        | none ↦ (false, d)
        | some alac ↦ (true, record d { impl = some (lib.alac_set alac (alac_info d)) })
      ]

  -- `alac_decoder_decode_frame` of a decoder with `impl`, for room for `capacity` samples
  abbrev pub alac_run : AlacDecoder L → L → List ℕ → ℕ → AlacDecoder L × Option (List ℤ)
  alac_run d alac input capacity =
      let (alac', bytes, output) = lib.alac_decode_frame alac input (min (capacity * 2) int_max) in
      (record d { impl = some alac' }, alac_output d.channels capacity bytes output)

  abbrev pub alac_try : AlacDecoder L → Option L → List ℕ → ℕ → AlacDecoder L × Option (List ℤ)
  alac_try d none input capacity = (d, none)
  alac_try d (some alac) input capacity =
      if length input == 0 || capacity == 0 then (d, none) else alac_run d alac input capacity

  unfoldable pub alac_decoder_decode_frame :
      AlacDecoder L → List ℕ → ℕ → AlacDecoder L × Option (List ℤ)
  alac_decoder_decode_frame d input capacity = alac_try d d.impl input capacity

  abbrev pub alac_decoder_close : AlacDecoder L → AlacDecoder L
  alac_decoder_close d = record d { impl = none }

-- FDK-AAC: `aacDecoder_Open`, `aacDecoder_ConfigRaw`, `aacDecoder_Fill`, `aacDecoder_DecodeFrame` with what is
-- then in the output buffer, and `numChannels` and `frameSize` of `aacDecoder_GetStreamInfo`
pub record AacLibrary (H : Type 0) : Type 0 where
  pub aac_open : Option H
  pub aac_config : H → List ℕ → Option H
  pub aac_fill : H → List ℕ → H × Bool
  pub aac_frame : H → ℕ → H × Option (ℕ → ℤ)
  pub aac_info : H → Option (ℤ × ℤ)

-- `aac_decoder_t`
pub record AacDecoder (H : Type 0) : Type 0 where
  pub aac_channels : ℕ
  pub aac_rate : ℕ
  pub handle : Option H

-- The number of samples of the frame, if the stream has the channels of the session and they fit
abbrev pub aac_count : ℕ → ℕ → Option (ℤ × ℤ) → Option ℕ
aac_count channels capacity none = none
aac_count channels capacity (some (n, size)) =
    if ltb_ℤ (pos 0) n
      && (not (ltb 2 (pos_part n))
          && (pos_part n == channels
              && (ltb_ℤ (pos 0) size && not (ltb capacity (pos_part size * pos_part n)))))
    then some (pos_part size * pos_part n)
    else none

module _ {H : Type 0} (lib : AacLibrary H) where
  abbrev pub aac_zero : AacDecoder H
  aac_zero = record { aac_channels = 0; aac_rate = 0; handle = none }

  -- A handle with its configuration, if there is one
  abbrev pub aac_configured : List ℕ → Option H
  aac_configured config = elim lib.aac_open [
    | none ↦ none
    | some h ↦ if length config == 0 then some h else lib.aac_config h config
  ]

  -- `aac_decoder_init`: whether it succeeds, and the decoder
  unfoldable pub aac_decoder_init : AacDecoder H → List ℕ → ℕ → ℕ → Bool × AacDecoder H
  aac_decoder_init d config channels rate =
      let fresh = record aac_zero { aac_channels = channels; aac_rate = rate } in
      if channels == 0 || (ltb 2 channels || rate == 0)
      then (false, d)
      else elim (aac_configured config) [
        | none ↦ (false, fresh)
        | some h ↦ (true, record fresh { handle = some h })
      ]

  abbrev pub aac_output : ℕ → ℕ → H → Option (ℕ → ℤ) → Option (List ℤ)
  aac_output channels capacity h none = none
  aac_output channels capacity h (some output) =
      elim (aac_count channels capacity (lib.aac_info h)) [
        | none ↦ none
        | some n ↦ some (samples output n)
      ]

  -- `aac_decoder_decode` of a decoder with a handle
  abbrev pub aac_run : AacDecoder H → H → List ℕ → ℕ → AacDecoder H × Option (List ℤ)
  aac_run d h input capacity =
      let (h', filled) = lib.aac_fill h input in
      let (h'', output) = lib.aac_frame h' capacity in
      if filled
      then (record d { handle = some h'' }, aac_output d.aac_channels capacity h'' output)
      else (record d { handle = some h' }, none)

  abbrev pub aac_try : AacDecoder H → Option H → List ℕ → ℕ → AacDecoder H × Option (List ℤ)
  aac_try d none input capacity = (d, none)
  aac_try d (some h) input capacity =
      if length input == 0 || ltb int_max capacity then (d, none) else aac_run d h input capacity

  unfoldable pub aac_decoder_decode : AacDecoder H → List ℕ → ℕ → AacDecoder H × Option (List ℤ)
  aac_decoder_decode d input capacity = aac_try d d.handle input capacity

  abbrev pub aac_decoder_close : AacDecoder H → AacDecoder H
  aac_decoder_close d = aac_zero
