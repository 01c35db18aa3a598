-- ===== src/Pipeline/Packet.antt =====
-- shared/audio/audio_pipeline.c: a packet on its way to the output.
use protable_airplay.Base.{
  ℕ, ◌+◌, ◌%◌, ◌^◌, Bool, true, false, ◌&&◌, ◌||◌, not, Option, none, some, List, [], ◌∷◌, map, ltb,
  ◌==◌, if◌then◌else◌, length, Result, ok, ◌>>=◌, recover,
}
use protable_airplay.Base.Int.{ℤ, pos_part, neg_part, signed16, sub16}
use protable_airplay.Rtp.{RtpPacket}
use protable_airplay.Pipeline.{
  Pipeline, Externals, PipelineState, SdpCodec, stopped, ready, playing, codec_unknown, codec_alac,
  codec_aac, codec_pcm,
}
use protable_airplay.Pipeline.Decode.{decode_alac, decode_pcm, decode_aac}

abbrev pub is_playing : PipelineState → Bool
is_playing stopped = false
is_playing ready = false
is_playing playing = true

-- The number of packets between the expected sequence number and this one, if it is ahead
unfoldable pub gap : ℕ → ℕ → ℕ
gap last sequence = pos_part (signed16 (sub16 sequence ((last + 1) % 2 ^ 16)))

-- The largest absolute value
unfoldable pub peak : List ℤ → ℕ
peak [] = 0
peak (v ∷ rest) =
    let other = peak rest in
    if ltb other (pos_part v + neg_part v) then pos_part v + neg_part v else other

module _ {L H V : Type 0} (x : Externals L H V) where
  -- The packet is counted, and what is missing in front of it.
  unfoldable pub count_packet : Pipeline L H V → ℕ → Pipeline L H V
  count_packet p sequence = record p {
    packets_lost =
        if ltb 0 p.packets_received
        then (p.packets_lost + gap p.last_sequence sequence) % 2 ^ 32
        else p.packets_lost;
    last_sequence = sequence;
    packets_received = (p.packets_received + 1) % 2 ^ 32;
  }

  abbrev pub count_error : Pipeline L H V → Pipeline L H V
  count_error p = record p { decode_errors = (p.decode_errors + 1) % 2 ^ 32 }

  -- The end of `audio_pipeline_decode_packet`: the pipeline, and what `on_audio_data` is called with
  unfoldable pub emit_audio : Pipeline L H V → List ℤ → Pipeline L H V × Option (List ℤ)
  emit_audio p decoded =
      if not (length decoded == 0) && p.on_audio_data
      then (
        record p {
          nonzero_packets =
              if peak decoded == 0 then p.nonzero_packets else (p.nonzero_packets + 1) % 2 ^ 32;
          decoded_packets = (p.decoded_packets + 1) % 2 ^ 32;
        },
        some (map (x.floats.scale p.volume_linear) decoded),
      )
      else (p, none)

  -- What follows the ALAC or the AAC decoder
  abbrev pub decoded_or_error : Pipeline L H V → Option (List ℤ) → Pipeline L H V × Option (List ℤ)
  decoded_or_error p none = (count_error p, none)
  decoded_or_error p (some decoded) = emit_audio p decoded

  abbrev pub decode_with :
      SdpCodec → Pipeline L H V → List ℕ → Result (Pipeline L H V × Option (List ℤ))
  decode_with codec_alac p payload =
      decode_alac x p payload >>= λ r. ok (decoded_or_error (record p { alac_decoder = r.0 }) r.1)
  decode_with codec_pcm p payload =
      recover (p, none) (decode_pcm x p payload) λ decoded. ok (emit_audio p decoded)
  decode_with codec_aac p payload =
      decode_aac x p payload >>= λ r. ok (decoded_or_error (record p { aac_decoder = r.0 }) r.1)
  decode_with codec_unknown p payload = ok (p, none)

  unfoldable pub decode_packet :
      Pipeline L H V → RtpPacket → Result (Pipeline L H V × Option (List ℤ))
  decode_packet p packet =
      if not (is_playing p.state) || not (packet.header.payload_type == p.session.payload_type)
      then ok (p, none)
      else decode_with p.session.codec (count_packet p packet.header.sequence) packet.payload
