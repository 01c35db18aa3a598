-- ===== src/Pipeline/Kept.antt =====
-- What the decoding of a packet in shared/audio/audio_pipeline.c leaves as it is.
use protable_airplay.Base.{
  ℕ, ◌≤◌, ◌≡◌, refl, ap, ◌∙◌, Bool, ◌&&◌, ◌||◌, not, Option, none, some, List, ltb, ◌==◌, length,
  length-map, Endpoint, arith, inl, inr, Bool-cases, Returns, of_ok, of_fail, Yields, yields,
  Returns-bind, Yields-bind, Yields-mono, Yields-recover, length-take,
}
use protable_airplay.Base.Int.{ℤ}
use protable_airplay.Rtp.{RtpPacket}
use protable_airplay.Crypto.Bounds.{KeepsLength}
use protable_airplay.Playout.{Playout}
use protable_airplay.Buffered.{Buffered}
use protable_airplay.Ptp.{Ptp, Anchor}
use protable_airplay.Ntp.{NtpSync}
use protable_airplay.Codec.{AlacDecoder}
use protable_airplay.Codec.Sizes.{Fits, Framed, alac_decoder_decode_frame-Framed}
use protable_airplay.Pipeline.{
  Pipeline, Externals, Session, PipelineState, SdpCodec, codec_unknown, codec_alac, codec_aac,
  codec_pcm, max_audio_buffer_samples,
}
use protable_airplay.Pipeline.Decode.{alac_input, decode_alac, decode_pcm}
use protable_airplay.Pipeline.Packet.{
  is_playing, count_packet, emit_audio, decoded_or_error, decode_with, decode_packet,
}
use protable_airplay.Pipeline.Decrypt.{decode_input-Returns}
use protable_airplay.Pipeline.Pcm.{decode_pcm-sampled, has_frames, sampled, words}
use protable_airplay.Pipeline.Units.{decode_aac-Ends}

-- Two pipelines that differ in decoders and counters of packets at most
pub record Kept {L H V : Type 0} (p q : Pipeline L H V) : Type 0 where
  pub playout : q.playout ≡ p.playout
  pub session : q.session ≡ p.session
  pub state : q.state ≡ p.state
  pub configured : q.configured ≡ p.configured
  pub buffered : q.buffered ≡ p.buffered
  pub ptp : q.ptp ≡ p.ptp
  pub anchor : q.anchor ≡ p.anchor
  pub ntp_sync : q.ntp_sync ≡ p.ntp_sync
  pub timing_peer : q.timing_peer ≡ p.timing_peer
  pub first_arrival : q.first_arrival_us ≡ p.first_arrival_us
  pub first_time : q.first_timestamp ≡ p.first_timestamp
  pub late : q.late_packets ≡ p.late_packets

-- What a call of the decoders may change: the two decoders, the sequence number of the last packet, and the counts
-- of packets received, lost, decoded, decoded to sound, and not decoded. Every other field of `q` is that of `p`.
abbrev pub Decoded : {L H V : Type 0} → Pipeline L H V → Pipeline L H V → Type 0
Decoded p q = q ≡ record p {
  alac_decoder = q.alac_decoder;
  aac_decoder = q.aac_decoder;
  last_sequence = q.last_sequence;
  packets_received = q.packets_received;
  packets_lost = q.packets_lost;
  decode_errors = q.decode_errors;
  decoded_packets = q.decoded_packets;
  nonzero_packets = q.nonzero_packets;
}

-- The fields that `Kept` is about, beside each other
abbrev pub Side : Type 0
Side =
    Playout × Session × PipelineState × Bool × Buffered × Ptp × Anchor × NtpSync × Endpoint × ℕ × ℕ
    × ℕ

module _ {L H V : Type 0} where
  pub Kept-trans : (p q r : Pipeline L H V) → Kept p q → Kept q r → Kept p r
  Kept-trans p q r a b = record {
    playout = b.playout ∙ a.playout;
    session = b.session ∙ a.session;
    state = b.state ∙ a.state;
    configured = b.configured ∙ a.configured;
    buffered = b.buffered ∙ a.buffered;
    ptp = b.ptp ∙ a.ptp;
    anchor = b.anchor ∙ a.anchor;
    ntp_sync = b.ntp_sync ∙ a.ntp_sync;
    timing_peer = b.timing_peer ∙ a.timing_peer;
    first_arrival = b.first_arrival ∙ a.first_arrival;
    first_time = b.first_time ∙ a.first_time;
    late = b.late ∙ a.late;
  }

  abbrev pub side : Pipeline L H V → Side
  side p = (
    p.playout, p.session, p.state, p.configured, p.buffered, p.ptp, p.anchor, p.ntp_sync,
    p.timing_peer, p.first_arrival_us, p.first_timestamp, p.late_packets,
  )

  pub Kept-same : (p q : Pipeline L H V) → side q ≡ side p → Kept p q
  Kept-same p q e = record {
    playout = ap (λ (v : Side). v.0) e;
    session = ap (λ (v : Side). v.1) e;
    state = ap (λ (v : Side). v.2) e;
    configured = ap (λ (v : Side). v.3) e;
    buffered = ap (λ (v : Side). v.4) e;
    ptp = ap (λ (v : Side). v.5) e;
    anchor = ap (λ (v : Side). v.6) e;
    ntp_sync = ap (λ (v : Side). v.7) e;
    timing_peer = ap (λ (v : Side). v.8) e;
    first_arrival = ap (λ (v : Side). v.9) e;
    first_time = ap (λ (v : Side). v.10) e;
    late = ap (λ (v : Side). v.11) e;
  }

  -- These fields of `q`, put into `p`
  abbrev decoded_as : Pipeline L H V → Pipeline L H V → Pipeline L H V
  decoded_as q p = record p {
    alac_decoder = q.alac_decoder;
    aac_decoder = q.aac_decoder;
    last_sequence = q.last_sequence;
    packets_received = q.packets_received;
    packets_lost = q.packets_lost;
    decode_errors = q.decode_errors;
    decoded_packets = q.decoded_packets;
    nonzero_packets = q.nonzero_packets;
  }

  Decoded-trans : (p q r : Pipeline L H V) → Decoded p q → Decoded q r → Decoded p r
  Decoded-trans p q r a b = b ∙ ap (decoded_as r) a

  pub Decoded-Kept : (p q : Pipeline L H V) → Decoded p q → Kept p q
  Decoded-Kept p q e = Kept-same p q (ap side e)

module _ {L H V : Type 0} (x : Externals L H V) where
  -- Nothing else changes, and what goes to the output is some audio that fits its buffer.
  abbrev pub Emits : Pipeline L H V → Pipeline L H V × Option (List ℤ) → Type 0
  Emits p r = Decoded p r.0 × Fits max_audio_buffer_samples r.1

  emit_audio-Emits :
      (p : Pipeline L H V) (decoded : List ℤ)
      → length decoded ≤ max_audio_buffer_samples
      → Emits p (emit_audio x p decoded)
  unfolding emit_audio
  emit_audio-Emits p decoded h = elim (Bool-cases (not (length decoded == 0) && p.on_audio_data)) [
    | inl e ↦ rw e (
      refl,
      (
        ground (arith, e, length-map decoded (x.floats.scale p.volume_linear)),
        omega (arith, h, length-map decoded (x.floats.scale p.volume_linear)),
      ),
    )
    | inr e ↦ rw e (refl, tt)
  ]

  -- At most as many samples as there is room for
  abbrev Small : Option (List ℤ) → Type 0
  Small none = Unit {0}
  Small (some decoded) = length decoded ≤ max_audio_buffer_samples

  decoded_or_error-Emits :
      (p : Pipeline L H V) (o : Option (List ℤ)) → Small o → Emits p (decoded_or_error x p o)
  decoded_or_error-Emits p none h = (refl, tt)
  decoded_or_error-Emits p (some decoded) h = emit_audio-Emits p decoded h

  Emits-Decoded :
      (p q : Pipeline L H V) (r : Pipeline L H V × Option (List ℤ))
      → Decoded p q
      → Emits q r
      → Emits p r
  Emits-Decoded p q r k h = (Decoded-trans p q r.0 k h.0, h.1)

  Framed-Small : (n : ℕ) (o : Option (List ℤ)) → Framed n max_audio_buffer_samples o → Small o
  Framed-Small n none h = tt
  Framed-Small n (some out) h = h.0

  Fits-Small : (o : Option (List ℤ)) → Fits max_audio_buffer_samples o → Small o
  Fits-Small none h = tt
  Fits-Small (some out) h = h.1

  alac_input-Small : (d : AlacDecoder L) (input : List ℕ) → Small (alac_input x d input).1
  alac_input-Small d input = elim (Bool-cases (ltb 0 d.frame_length)) [
    | inl e ↦ rw e (
        Framed-Small _ _ (alac_decoder_decode_frame-Framed x.alac d input max_audio_buffer_samples))
    | inr e ↦ rw e tt
  ]

  decode_alac-Small :
      (p : Pipeline L H V) (payload : List ℕ)
      → KeepsLength x.crypto
      → Yields (λ r. Small r.1) (decode_alac x p payload)
  unfolding decode_alac
  decode_alac-Small p payload k =
      Yields-recover _ _ (p.alac_decoder, none) _ _ (decode_input-Returns x p payload k) tt
        λ input h. yields _ (alac_input-Small p.alac_decoder input)

  decode_pcm-Returns :
      (p : Pipeline L H V) (payload : List ℕ)
      → KeepsLength x.crypto
      → Returns (λ out. length out ≤ max_audio_buffer_samples) (decode_pcm x p payload)
  decode_pcm-Returns p payload k =
      rw (decode_pcm-sampled x p payload k)
        elim (Bool-cases (has_frames p.session.channels (length payload))) [
          | inl e ↦ rw e (
              Returns-bind _ _ _ sampled (decode_input-Returns x p payload k) λ input h.
                of_ok _ (omega (arith, length-take max_audio_buffer_samples (words input))))
          | inr e ↦ rw e of_fail
        ]

  decode_with-Emits :
      (c : SdpCodec) (p : Pipeline L H V) (payload : List ℕ)
      → KeepsLength x.crypto
      → Yields (Emits p) (decode_with x c p payload)
  decode_with-Emits codec_unknown p payload k = yields _ (refl, tt)
  decode_with-Emits codec_alac p payload k =
      Yields-bind _ _ _ _ (decode_alac-Small p payload k) λ r h.
        yields _ (
          Emits-Decoded p (record p { alac_decoder = r.0 }) _ refl (decoded_or_error-Emits _ r.1 h))
  decode_with-Emits codec_pcm p payload k =
      Yields-recover _ _ (p, none) _ _ (decode_pcm-Returns p payload k) (refl, tt)
        λ out h. yields _ (emit_audio-Emits p out h)
  decode_with-Emits codec_aac p payload k =
      Yields-bind _ _ _ _ (decode_aac-Ends x p payload k) λ r h. yields _ (
        Emits-Decoded p (record p { aac_decoder = r.0 }) _ refl
          (decoded_or_error-Emits _ r.1 (Fits-Small r.1 h)))

  -- `audio_pipeline_decode_packet` ends on any packet and in any state, inside its buffers. Every field of the pipeline
  -- but the two decoders, the last sequence number and the counts of packets received, lost, decoded, not
  -- silent and not decoded stays as it is, and what it gives to the output is between 1 and 2048 samples.
  -- mbedTLS is taken to keep lengths.
  pub decode_packet-Emits :
      (p : Pipeline L H V) (packet : RtpPacket)
      → KeepsLength x.crypto
      → Yields (Emits p) (decode_packet x p packet)
  unfolding decode_packet count_packet
  decode_packet-Emits p packet k =
      elim (Bool-cases
        (not (is_playing p.state) || not (packet.header.payload_type == p.session.payload_type))) [
          | inl e ↦ rw e (yields _ (refl, tt))
          | inr e ↦ rw e (
              Yields-mono _ _ _
                (decode_with-Emits p.session.codec (count_packet x p packet.header.sequence)
                  packet.payload k)
                λ r h. Emits-Decoded p (count_packet x p packet.header.sequence) r refl h)
        ]
