-- ===== src/Pipeline/Create.antt =====
-- shared/audio/audio_pipeline.c: the creation of a pipeline.
use protable_airplay.Base.{
  ℕ, Bool, true, false, Option, none, some, List, [], leb, if◌then◌else◌, length, replicate, Result,
  ok, fail, fault,
}
use protable_airplay.Rtp.Receiver as Receiver
use protable_airplay.Rtp.Receiver.{Receiver, Sockets}
use protable_airplay.Playout.{Playout, Slot, playout_packets}
use protable_airplay.Ptp.{Anchor, Network, open_sockets, set_clock}
use protable_airplay.Ptp as Ptp
use protable_airplay.Ntp as Ntp
use protable_airplay.Buffered as Buffered
use protable_airplay.Codec.{alac_zero, aac_zero}
use protable_airplay.Crypto.{aes_zero}
use protable_airplay.Pipeline.{Pipeline, Session, Externals, stopped, codec_unknown}

-- `audio_pipeline_config_t`
pub record PipelineConfig : Type 0 where
  pub audio_port : ℕ
  pub control_port : ℕ
  pub timing_port : ℕ
  pub wants_audio : Bool
  pub own_ip : Option (List ℕ)

-- Which sockets the platform binds, and the handle of the listener for buffered audio
pub record Bindings : Type 0 where
  pub binds_audio : Bool
  pub binds_control : Bool
  pub binds_timing : Bool
  pub listener : Option ℕ

abbrev slot_zero : Slot
slot_zero = record {
  header = record {
    version = 0;
    padding = 0;
    extension = 0;
    csrc_count = 0;
    marker = 0;
    payload_type = 0;
    sequence = 0;
    timestamp = 0;
    ssrc = 0;
  };
  length = 0;
  payload = [];
  valid = false;
}

abbrev pub playout_zero : Playout
playout_zero = record {
  packets = replicate playout_packets slot_zero;
  next_sequence = 0;
  count = 0;
  started = false;
  have_sequence = false;
  have_floor = false;
  floor_exclusive = false;
  timestamp_floor = 0;
}

abbrev pub session_zero : Session
session_zero = record {
  codec = codec_unknown;
  sample_rate = 0;
  channels = 0;
  bits_per_sample = 0;
  frames_per_packet = 0;
  alac_fmtp = [];
  aac_config = [];
  aac_size_length = 0;
  aac_index_length = 0;
  aac_index_delta_length = 0;
  aes_key_encrypted = [];
  aes_iv = replicate 16 0;
  has_encryption = false;
  payload_type = 0;
  stream_type = 0;
  audio_key = replicate 32 0;
  latency_frames = 0;
}

abbrev pub anchor_zero : Anchor
anchor_zero = record { clock_id = 0; network_us = 0; rtp_time = 0; valid = false; playing = false }

module _ {L H V : Type 0} (x : Externals L H V) where
  -- `memset(pipeline, 0, sizeof(*pipeline))`, `ptp_sync_init` and `buffered_audio_init`
  abbrev pub pipeline_zero : Pipeline L H V
  pipeline_zero = record {
    rtp = record { audio_packet_count = 0; peer_ip = [] };
    sockets = record { audio_open = false; control_open = false; timing_open = false };
    on_audio_data = false;
    session = session_zero;
    state = stopped;
    volume_db = x.floats.nought;
    volume_linear = x.floats.nought;
    alac_decoder = alac_zero x.alac;
    aac_decoder = aac_zero x.aac;
    aes_context = aes_zero;
    ntp_sync = Ntp.init;
    ntp_sync_initialized = false;
    playout = playout_zero;
    timing_peer = record { ip = []; port = 0 };
    first_arrival_us = 0;
    first_timestamp = 0;
    queue_overflows = 0;
    late_packets = 0;
    nonzero_packets = 0;
    fallback_logged = false;
    ptp = Ptp.init;
    anchor = anchor_zero;
    buffered = Buffered.init;
    local_ip = [];
    last_sequence = 0;
    packets_received = 0;
    packets_lost = 0;
    decode_errors = 0;
    decoded_packets = 0;
    configured = false;
  }

  abbrev pub ip_of : Option (List ℕ) → List ℕ
  ip_of none = []
  ip_of (some ip) = ip

  -- The pipeline in front of the calls that open sockets
  abbrev pub prepared : PipelineConfig → Pipeline L H V
  prepared c = record pipeline_zero {
    local_ip = ip_of c.own_ip;
    on_audio_data = c.wants_audio;
    volume_linear = x.floats.full;
    ntp_sync_initialized = true;
  }

  abbrev pub without_clock : Pipeline L H V → Pipeline L H V
  without_clock p = record p { ntp_sync = Ntp.init; ntp_sync_initialized = false }

  abbrev pub with_listener : Pipeline L H V → Result Buffered.Buffered → Bool × Pipeline L H V
  with_listener p (ok b) = (true, record p { buffered = b })
  with_listener p fail = (false, without_clock (record p { sockets = Receiver.close p.sockets }))
  with_listener p fault = (false, without_clock (record p { sockets = Receiver.close p.sockets }))

  abbrev pub with_receiver :
      Pipeline L H V → Option ℕ → Result (Sockets × Receiver) → Bool × Pipeline L H V
  with_receiver p listener (ok (s, r)) =
      with_listener (record p { sockets = s; rtp = r }) (Buffered.open_listener p.buffered listener)
  with_receiver p listener fail = (false, without_clock p)
  with_receiver p listener fault = (false, without_clock p)

  -- `audio_pipeline_create`: whether it returns 0, and the pipeline. A text of 16 bytes does not fit in
  -- `local_ip` with its zero byte.
  unfoldable pub create_pipeline : PipelineConfig → Bindings → Bool × Pipeline L H V
  create_pipeline c b =
      if leb 16 (length (ip_of c.own_ip))
      then (false, pipeline_zero)
      else with_receiver (prepared c) b.listener (
          Receiver.create c.audio_port c.control_port c.timing_port b.binds_audio b.binds_control
            b.binds_timing)
