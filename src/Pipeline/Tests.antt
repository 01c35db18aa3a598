-- ===== src/Pipeline/Tests.antt =====
-- Runs of the audio pipeline with libraries that copy what they are given.
use protable_airplay.Base.{
  ℕ, ◌+◌, ◌≡◌, refl, true, false, none, some, map, List, [], ◌∷◌, ◌++◌, replicate, if◌then◌else◌,
  length, ok, fail, read, recover, arith, Yields,
}
use protable_airplay.Base.Int.{pos, negsuc, signed16}
use protable_airplay.Rtp.{RtpHeader, RtpPacket, slice}
use protable_airplay.Playout.{push}
use protable_airplay.Playout.Push.{push-Pushed}
use protable_airplay.Playout.Invariant.{IsValid}
use protable_airplay.Codec.{aac_decoder_decode, samples_from}
use protable_airplay.Crypto.{Mbedtls}
use protable_airplay.Crypto.Bounds.{KeepsLength}
use protable_airplay.Ptp.{Network}
use protable_airplay.Ntp as Ntp
use protable_airplay.Pipeline.{Pipeline, Session, Externals, playing, codec_pcm, codec_aac}
use protable_airplay.Pipeline.Decode.{
  decode_pcm, decode_aac, pcm_loop, decode_units, au_loop, read_bits, bits_loop,
}
use protable_airplay.Pipeline.Packet.{decode_packet}
use protable_airplay.Pipeline.Control.{
  configure, start_pipeline, is_unusable, init_decoder, init_cipher,
}
use protable_airplay.Pipeline.Create.{
  PipelineConfig, Bindings, playout_zero, session_zero, pipeline_zero, create_pipeline,
}
use protable_airplay.Pipeline.Play.{Reading, play_ready_packets, ntp_deadline}
use protable_airplay.Pipeline.Decrypt.{clear_text}
use protable_airplay.Pipeline.Pcm.{
  first_words, has_frames, decode_pcm_lem, pcm_bytes, decode_pcm-pcm_bytes,
}
use protable_airplay.Pipeline.Units.{Ends, decode_aac-Ends}
use protable_airplay.Pipeline.Kept.{Emits, decode_packet-Emits}
use protable_airplay.Pipeline.Progress.{Progress, clocks}
use protable_airplay.Pipeline.Deadlines.{IsNtpClock, play_ready_packets-Progress}
use protable_airplay.Pipeline.Invariant.{playout_zero-IsValid}
use protable_airplay.Pipeline.Reachable.{Reachable}
use protable_airplay.Pipeline.Loss.{count_all, count_all_lem}

-- Decryption that returns its input
abbrev copying : Mbedtls
copying = record {
  aes_cbc = λ key iv input. some input;
  chachapoly = λ key nonce additional tag input. some input;
  pk_decrypt = λ input. some input;
  memory = true;
}

copying-KeepsLength : KeepsLength copying
copying-KeepsLength = record {
  cbc_length = λ key iv input out e. copied input out e;
  chachapoly_length = λ key nonce additional tag input out e. copied input out e;
}
  where
    copied : (input out : List ℕ) → some input ≡ some out → length out ≡ length input
    copied input out e = ground arith

-- Decoders of which each frame is two samples of silence
abbrev toy : Externals ℕ ℕ ℕ
toy = record {
  alac = record {
    alac_create = λ depth channels. some 0;
    alac_set = λ l info. l;
    alac_decode_frame = λ l input size. (l, pos 4, λ i. pos 0);
  };
  aac = record {
    aac_open = some 0;
    aac_config = λ h config. some h;
    aac_fill = λ h input. (h, true);
    aac_frame = λ h capacity. (h, some (λ i. pos 0));
    aac_info = λ h. some (pos 2, pos 1);
  };
  crypto = copying;
  floats = record {
    nought = 0;
    floor_db = 0;
    full = 1;
    is_finite = λ v. true;
    is_above_zero = λ v. false;
    is_below_floor = λ v. false;
    is_inaudible = λ v. false;
    gain = λ v. v;
    scale = λ v sample. sample;
  };
}

abbrev radio : Session
radio = record session_zero {
  codec = codec_pcm;
  sample_rate = 44100;
  channels = 2;
  bits_per_sample = 16;
  frames_per_packet = 2;
  payload_type = 96;
}

abbrev sample_header : RtpHeader
sample_header = record {
  version = 2;
  padding = 0;
  extension = 0;
  csrc_count = 0;
  marker = 0;
  payload_type = 96;
  sequence = 7;
  timestamp = 352;
  ssrc = 1;
}

abbrev sample_packet : RtpPacket
sample_packet = record {
  header = sample_header;
  payload = 0 ∷ 1 ∷ 255 ∷ 255 ∷ 1 ∷ 0 ∷ 128 ∷ 0 ∷ [];
}

-- A pipeline that plays, with one packet queued
abbrev on_air : Pipeline ℕ ℕ ℕ
on_air = record (pipeline_zero toy) {
  on_audio_data = true;
  session = radio;
  state = playing;
  configured = true;
  packets_received = 1;
  playout = (push playout_zero sample_packet).1;
}

-- The same in a session with encryption, and a block with four bytes behind it
abbrev sealed_radio : Pipeline ℕ ℕ ℕ
sealed_radio = record on_air { session = record radio { has_encryption = true } }

abbrev one_block : List ℕ
one_block = replicate 16 7

abbrev four_bytes : List ℕ
four_bytes = 1 ∷ 2 ∷ 3 ∷ 4 ∷ []

decode_pcm_lem_example : decode_pcm toy sealed_radio (one_block ++ four_bytes) ≡ (
    if has_frames sealed_radio.session.channels (length (one_block ++ four_bytes))
    then first_words (clear_text toy sealed_radio one_block four_bytes)
    else fail)
decode_pcm_lem_example =
    decode_pcm_lem toy sealed_radio one_block four_bytes copying-KeepsLength (omega arith)
      (omega arith)

decode_pcm-pcm_bytes_example :
    decode_pcm toy on_air (pcm_bytes (1 ∷ 65535 ∷ 256 ∷ 32768 ∷ []))
    ≡ ok (map signed16 (1 ∷ 65535 ∷ 256 ∷ 32768 ∷ []))
decode_pcm-pcm_bytes_example =
    decode_pcm-pcm_bytes toy on_air (1 ∷ 65535 ∷ 256 ∷ 32768 ∷ []) copying-KeepsLength refl refl
      (omega arith)

on_air_samples :
    decode_pcm toy on_air sample_packet.payload
    ≡ ok (pos 1 ∷ negsuc 0 ∷ pos 256 ∷ negsuc 32767 ∷ [])
unfolding decode_pcm pcm_loop read
on_air_samples = refl

-- A session of AAC with an access unit of one byte
abbrev aac_radio : Pipeline ℕ ℕ ℕ
aac_radio = record on_air {
  session = record radio {
    codec = codec_aac;
    aac_size_length = 13;
    aac_index_length = 3;
    aac_index_delta_length = 3;
  };
  aac_decoder = record { aac_channels = 2; aac_rate = 44100; handle = some 0 };
}

abbrev access_unit : List ℕ
access_unit = 0 ∷ 16 ∷ 0 ∷ 8 ∷ 9 ∷ []

decode_aac-Ends_example : Ends toy (decode_aac toy aac_radio access_unit)
decode_aac-Ends_example = decode_aac-Ends toy aac_radio access_unit copying-KeepsLength

access_unit_samples :
    decode_aac toy aac_radio access_unit ≡ ok (aac_radio.aac_decoder, some (pos 0 ∷ pos 0 ∷ []))
unfolding decode_aac decode_units read slice au_loop recover read_bits bits_loop aac_decoder_decode
    samples_from
access_unit_samples = refl

decode_packet-Emits_example : Yields (Emits toy on_air) (decode_packet toy on_air sample_packet)
decode_packet-Emits_example = decode_packet-Emits toy on_air sample_packet copying-KeepsLength

on_air-IsValid : IsValid on_air.playout
on_air-IsValid = (push-Pushed playout_zero sample_packet playout_zero-IsValid (omega arith)).valid

-- The clock a second after the first arrival
abbrev reading : Reading
reading = record { now = 3000000; later = 3000000; delay = pos 0 }

on_air-IsNtpClock : IsNtpClock (clocks on_air)
unfolding Ntp.init
on_air-IsNtpClock = record {
  rate = refl;
  offset = (omega arith, omega arith);
  arrival = omega arith;
}

play_ready_packets-Progress_example :
    Yields
      (λ r. Progress toy 16 on_air r.1 r.2)
      (play_ready_packets toy (ntp_deadline toy) on_air (λ m. reading))
play_ready_packets-Progress_example =
    play_ready_packets-Progress toy on_air (λ m. reading) copying-KeepsLength
      (λ m. record {
        now_bound = omega arith;
        later_bound = omega arith;
        delay_bound = (omega arith, omega arith);
      })
      on_air-IsNtpClock on_air-IsValid

abbrev ports : PipelineConfig
ports = record {
  audio_port = 6000;
  control_port = 6001;
  timing_port = 6002;
  wants_audio = true;
  own_ip = none;
}

abbrev bound_ports : Bindings
bound_ports = record {
  binds_audio = true;
  binds_control = true;
  binds_timing = true;
  listener = some 3;
}

abbrev no_network : Network
no_network = record { event = none; general = none; event_joins = false; general_joins = false }

-- That pipeline plays.
starts_playing :
    (start_pipeline toy
      (configure toy (create_pipeline toy ports bound_ports).1 radio no_network).1).1.state
    ≡ playing
unfolding create_pipeline configure start_pipeline is_unusable init_decoder init_cipher
starts_playing = refl

count_all_lem_example :
    (count_all toy on_air (2 ∷ 0 ∷ 5 ∷ [])).packets_lost
      + (count_all toy on_air (2 ∷ 0 ∷ 5 ∷ [])).packets_received
    ≡ 11
count_all_lem_example =
    count_all_lem toy on_air (2 ∷ 0 ∷ 5 ∷ []) (omega arith) (omega arith)
      (omega arith, (omega arith, (omega arith, tt))) (omega arith)
