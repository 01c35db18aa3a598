-- ===== src/Pipeline/Control.antt =====
-- shared/audio/audio_pipeline.c: configuration, the states, volume and closing.
use protable_airplay.Base.{
  ℕ, ◌*◌, ◌%◌, Bool, true, false, ◌&&◌, ◌||◌, not, Option, none, some, List, ltb, ◌==◌,
  if◌then◌else◌, length, Endpoint,
}
use protable_airplay.Rtp.Receiver as Receiver
use protable_airplay.Rtp.Receiver.{Receiver, Sockets}
use protable_airplay.Playout.{Playout, Slot, playout_packets, alac_max_samples_per_frame, set_floor}
use protable_airplay.Playout as Playout
use protable_airplay.Ptp.{Anchor, Network, open_sockets, set_clock}
use protable_airplay.Ptp as Ptp
use protable_airplay.Ntp as Ntp
use protable_airplay.Buffered as Buffered
use protable_airplay.Codec.{
  alac_zero, alac_decoder_init, alac_decoder_close, aac_decoder_init, aac_decoder_close,
}
use protable_airplay.Crypto.{aes_zero, crypto_aes_init, crypto_rsa_decrypt_aes_key}
use protable_airplay.Pipeline.{
  Pipeline, Session, Externals, SdpCodec, stopped, ready, playing, codec_unknown, codec_alac,
  codec_aac, codec_pcm, max_audio_buffer_samples,
}
use protable_airplay.Pipeline.Create.{anchor_zero, without_clock}

-- The first test of `audio_pipeline_configure`
unfoldable pub is_unusable : Session → Bool
is_unusable s =
    s.sample_rate == 0
    || (s.channels == 0
        || (ltb 2 s.channels
            || (not (s.bits_per_sample == 16)
                || (s.frames_per_packet == 0
                    || ((not_aac s.codec && ltb alac_max_samples_per_frame s.frames_per_packet)
                        || ltb max_audio_buffer_samples (s.frames_per_packet * s.channels))))))
  where
    not_aac : SdpCodec → Bool
    not_aac codec_aac = false
    not_aac codec_alac = true
    not_aac codec_pcm = true
    not_aac codec_unknown = true

-- The fallback for an unknown codec
abbrev pub or_alac : SdpCodec → SdpCodec
or_alac codec_unknown = codec_alac
or_alac codec_alac = codec_alac
or_alac codec_aac = codec_aac
or_alac codec_pcm = codec_pcm

module _ {L H V : Type 0} (x : Externals L H V) where
  -- `audio_pipeline_set_transport`
  abbrev pub set_transport : Pipeline L H V → Endpoint → Pipeline L H V
  set_transport p peer = record p {
    buffered = Buffered.disconnect p.buffered;
    timing_peer = peer;
    rtp = record p.rtp { peer_ip = peer.ip };
    ntp_sync = Ntp.init;
  }

  -- `audio_pipeline_set_start`
  abbrev pub set_start : Pipeline L H V → ℕ → Bool → Pipeline L H V
  set_start p timestamp exclusive = record p {
    playout = set_floor p.playout timestamp exclusive;
    first_arrival_us = 0;
  }

  -- The pipeline with its new session and without what belonged to the old one
  abbrev pub renewed : Pipeline L H V → Session → Ptp.Ptp → Pipeline L H V
  renewed p s clock = record p {
    ptp = set_clock clock 0;
    alac_decoder = alac_zero x.alac;
    aac_decoder = aac_decoder_close x.aac p.aac_decoder;
    aes_context = aes_zero;
    session = record s { codec = or_alac s.codec };
    anchor = anchor_zero;
    configured = false;
    state = stopped;
  }

  unfoldable pub init_decoder : SdpCodec → Pipeline L H V → Session → Bool × Pipeline L H V
  init_decoder codec_aac p s =
      let r = aac_decoder_init x.aac p.aac_decoder s.aac_config (s.channels % 256) s.sample_rate in
      (r.0, record p { aac_decoder = r.1 })
  init_decoder codec_alac p s =
      let r =
        alac_decoder_init x.alac s.alac_fmtp s.frames_per_packet (s.bits_per_sample % 256)
          (s.channels % 256) s.sample_rate in
      (r.0, record p { alac_decoder = r.1 })
  init_decoder codec_pcm p s = (true, p)
  init_decoder codec_unknown p s = (true, p)

  abbrev pub with_key : Pipeline L H V → List ℕ → Option (List ℕ) → Bool × Pipeline L H V
  with_key p iv none = (false, p)
  with_key p iv (some key) = (true, record p { aes_context = crypto_aes_init key iv })

  unfoldable pub init_cipher : Pipeline L H V → Session → Bool × Pipeline L H V
  init_cipher p s =
      if not s.has_encryption
      then (true, p)
      else if length s.aes_key_encrypted == 0
      then (false, p)
      else with_key p s.aes_iv (crypto_rsa_decrypt_aes_key x.crypto s.aes_key_encrypted)

  -- A step that goes on only if the one before has succeeded
  abbrev pub and_next :
      Bool × Pipeline L H V → (Pipeline L H V → Bool × Pipeline L H V) → Bool × Pipeline L H V
  and_next (true, p) next = next p
  and_next (false, p) next = (false, p)

  -- `ptp_sync_open`, for an AirPlay 2 session
  abbrev pub open_clock : Pipeline L H V → Session → Network → Bool × Pipeline L H V
  open_clock p s network =
      if s.stream_type == 0
      then (true, p)
      else (let r = open_sockets p.ptp network in (r.0, record p { ptp = r.1 }))

  abbrev pub made_ready : Pipeline L H V → Bool × Pipeline L H V
  made_ready p = (true, record p { configured = true; state = ready })

  abbrev pub then_cipher : Session → Pipeline L H V → Bool × Pipeline L H V
  then_cipher s p = and_next (init_cipher p s) made_ready

  abbrev pub then_decoder : Session → Pipeline L H V → Bool × Pipeline L H V
  then_decoder s p = and_next (init_decoder (or_alac s.codec) (renewed p s p.ptp) s) (then_cipher s)

  -- `audio_pipeline_configure`: whether it returns 0, and the pipeline
  unfoldable pub configure : Pipeline L H V → Session → Network → Bool × Pipeline L H V
  configure p s network =
      if is_unusable s then (false, p) else and_next (open_clock p s network) (then_decoder s)

  -- `audio_pipeline_start`
  unfoldable pub start_pipeline : Pipeline L H V → Bool × Pipeline L H V
  start_pipeline p = if not p.configured then (false, p) else (
    true,
    record p {
      state = playing;
      packets_received = 0;
      packets_lost = 0;
      decode_errors = 0;
      decoded_packets = 0;
      nonzero_packets = 0;
      queue_overflows = 0;
      late_packets = 0;
    },
  )

  -- `audio_pipeline_flush`
  abbrev pub flush_pipeline : Pipeline L H V → Pipeline L H V
  flush_pipeline p = record p {
    playout = Playout.reset p.playout;
    first_arrival_us = 0;
    fallback_logged = false;
    ntp_sync = record p.ntp_sync { anchor_valid = false };
    packets_received = 0;
    packets_lost = 0;
  }

  -- `audio_pipeline_stop`
  abbrev pub stop_pipeline : Pipeline L H V → Pipeline L H V
  stop_pipeline p = flush_pipeline (record p { state = stopped })

  -- The volume between the floor and 0 dB
  unfoldable pub clamped : V → V
  clamped db =
      let db' = if x.floats.is_above_zero db then x.floats.nought else db in
      if x.floats.is_below_floor db' then x.floats.floor_db else db'

  -- `audio_pipeline_set_volume`
  unfoldable pub set_volume : Pipeline L H V → V → Bool × Pipeline L H V
  set_volume p db = if not (x.floats.is_finite db) then (false, p) else (
    true,
    record p {
      volume_db = clamped db;
      volume_linear =
          if x.floats.is_inaudible (clamped db)
          then x.floats.nought
          else x.floats.gain (clamped db);
    },
  )

  -- The parts of the pipeline closed after `audio_pipeline_stop`
  abbrev pub close_parts : Pipeline L H V → Pipeline L H V
  close_parts p = record p {
    sockets = Receiver.close p.sockets;
    buffered = Buffered.close p.buffered;
    ptp = Ptp.close p.ptp;
    alac_decoder = alac_decoder_close x.alac p.alac_decoder;
    aac_decoder = aac_decoder_close x.aac p.aac_decoder;
  }

  -- `audio_pipeline_close`
  abbrev pub close_pipeline : Pipeline L H V → Pipeline L H V
  close_pipeline p =
      let p' = close_parts (stop_pipeline p) in
      if p'.ntp_sync_initialized then without_clock x p' else p'
