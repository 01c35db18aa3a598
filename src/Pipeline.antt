-- ===== src/Pipeline.antt =====
-- shared/audio/audio_pipeline.h and sdp_session_t of shared/protocol/sdp.h: the state of the audio pipeline.
pub mod Decode
pub mod Packet
pub mod Input
pub mod Create
pub mod Control
pub mod Play
pub mod Poll
pub mod Decrypt
pub mod Pcm
pub mod Units
pub mod Kept
pub mod Playing
pub mod Progress
pub mod Rounds
pub mod Deadlines
pub mod Invariant
pub mod Configured
pub mod Loss
pub mod Steps
pub mod Reachable
mod Tests
use protable_airplay.Base.{ℕ, ◌*◌, ◌/◌, Bool, Option, List, Endpoint}
use protable_airplay.Base.Int.{ℤ}
use protable_airplay.Rtp.Receiver.{Receiver, Sockets}
use protable_airplay.Playout.{Playout}
use protable_airplay.Ntp.{NtpSync}
use protable_airplay.Ptp.{Ptp, Anchor}
use protable_airplay.Buffered.{Buffered, rtp_buffer_size}
use protable_airplay.Codec.{AlacLibrary, AlacDecoder, AacLibrary, AacDecoder}
use protable_airplay.Crypto.{Mbedtls, AesContext}

-- MAX_AUDIO_BUFFER_SAMPLES
abbrev pub max_audio_buffer_samples : ℕ
max_audio_buffer_samples = rtp_buffer_size / 2

-- AIRPLAY_DEFAULT_SAMPLE_RATE
abbrev pub airplay_default_sample_rate : ℕ
airplay_default_sample_rate = 44100

-- `sdp_codec_t`
pub data SdpCodec : Type 0 where
  codec_unknown codec_alac codec_aac codec_pcm : SdpCodec

-- `sdp_session_t`; an array with a count is the list of its valid part.
pub record Session : Type 0 where
  pub codec : SdpCodec
  pub sample_rate : ℕ
  pub channels : ℕ
  pub bits_per_sample : ℕ
  pub frames_per_packet : ℕ
  pub alac_fmtp : List ℕ
  pub aac_config : List ℕ
  pub aac_size_length : ℕ
  pub aac_index_length : ℕ
  pub aac_index_delta_length : ℕ
  pub aes_key_encrypted : List ℕ
  pub aes_iv : List ℕ
  pub has_encryption : Bool
  pub payload_type : ℕ
  pub stream_type : ℕ
  pub audio_key : List ℕ
  pub latency_frames : ℕ

-- `audio_pipeline_state_t`
pub data PipelineState : Type 0 where
  stopped ready playing : PipelineState

-- `audio_pipeline_t`, for decoders `L` and `H` and floats `V`. `on_audio_data` says whether there is such a
-- callback; what it is called with is returned. `audio_buffer` holds nothing from one call to the next.
pub record Pipeline (L H V : Type 0) : Type 0 where
  pub rtp : Receiver
  pub sockets : Sockets
  pub on_audio_data : Bool
  pub session : Session
  pub state : PipelineState
  pub volume_db : V
  pub volume_linear : V
  pub alac_decoder : AlacDecoder L
  pub aac_decoder : AacDecoder H
  pub aes_context : AesContext
  pub ntp_sync : NtpSync
  pub ntp_sync_initialized : Bool
  pub playout : Playout
  pub timing_peer : Endpoint
  pub first_arrival_us : ℕ
  pub first_timestamp : ℕ
  pub queue_overflows : ℕ
  pub late_packets : ℕ
  pub nonzero_packets : ℕ
  pub fallback_logged : Bool
  pub ptp : Ptp
  pub anchor : Anchor
  pub buffered : Buffered
  pub local_ip : List ℕ
  pub last_sequence : ℕ
  pub packets_received : ℕ
  pub packets_lost : ℕ
  pub decode_errors : ℕ
  pub decoded_packets : ℕ
  pub configured : Bool

-- The arithmetic of `float` that the pipeline uses: `powf(10.0f, db / 20.0f)` is `gain db`, and
-- `(int16_t)(sample * volume)` is `scale volume sample`.
pub record Floats (V : Type 0) : Type 0 where
  pub nought : V
  pub floor_db : V
  pub full : V
  pub is_finite : V → Bool
  pub is_above_zero : V → Bool
  pub is_below_floor : V → Bool
  pub is_inaudible : V → Bool
  pub gain : V → V
  pub scale : V → ℤ → ℤ

-- The libraries
pub record Externals (L H V : Type 0) : Type 0 where
  pub alac : AlacLibrary L
  pub aac : AacLibrary H
  pub crypto : Mbedtls
  pub floats : Floats V
