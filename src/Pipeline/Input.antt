-- ===== src/Pipeline/Input.antt =====
-- shared/audio/audio_pipeline.c: the three callbacks of the RTP receiver.
use protable_airplay.Base.{
  ℕ, ◌+◌, ◌-◌, ◌%◌, ◌^◌, ◌||◌, not, List, [], ◌∷◌, ◌++◌, ltb, ◌==◌, if◌then◌else◌, length,
  replicate, Result, ok, fail, fault, ◌>>=◌, recover, Endpoint,
}
use protable_airplay.Rtp.{RtpPacket}
use protable_airplay.Rtp.Receiver.{Event, audio, control, timing}
use protable_airplay.Buffered.{rtp_buffer_size}
use protable_airplay.Crypto.{crypto_airplay2_decrypt_rtp}
use protable_airplay.Playout.{Playout, Status, accepted, ignored, refused, push}
use protable_airplay.Ptp.{Anchor}
use protable_airplay.Ntp.{NtpSync, write32}
use protable_airplay.Ptp as Ptp
use protable_airplay.Ntp as Ntp
use protable_airplay.Pipeline.{Pipeline, Externals, airplay_default_sample_rate}
use protable_airplay.Pipeline.Packet.{is_playing, count_error}

-- The readings of the clock while a datagram is handled
pub record Times : Type 0 where
  pub first : ℕ
  pub second : ℕ
  pub third : ℕ

-- A reply on the timing socket, with its destination
pub record Sent : Type 0 where
  pub bytes : List ℕ
  pub destination : Endpoint

-- `wire`: what `crypto_airplay2_decrypt_rtp` authenticates of the header, and the payload
abbrev pub wire_bytes : RtpPacket → List ℕ
wire_bytes packet =
    replicate 4 0
    ++ (write32 packet.header.timestamp ++ (write32 packet.header.ssrc ++ packet.payload))

module _ {L H V : Type 0} (x : Externals L H V) where
  -- The result of the push, counted
  abbrev pub queued : Pipeline L H V → ℕ → ℕ → Status × Playout → Pipeline L H V
  queued p now timestamp (refused, q) = record p {
    playout = q;
    queue_overflows = (p.queue_overflows + 1) % 2 ^ 32;
  }
  queued p now timestamp (ignored, q) = record p { playout = q }
  queued p now timestamp (accepted, q) =
      if p.first_arrival_us == 0
      then record p { playout = q; first_arrival_us = now; first_timestamp = timestamp }
      else record p { playout = q }

  unfoldable pub enqueue : Pipeline L H V → ℕ → RtpPacket → Pipeline L H V
  enqueue p now packet = queued p now packet.header.timestamp (push p.playout packet)

  -- `audio_pipeline_on_rtp_audio`
  unfoldable pub on_rtp_audio : Pipeline L H V → ℕ → RtpPacket → Result (Pipeline L H V)
  on_rtp_audio p now packet =
      if not (is_playing p.state) || not (packet.header.payload_type == p.session.payload_type)
      then ok p
      else if p.session.stream_type == 0
      then ok (enqueue p now packet)
      else if ltb (rtp_buffer_size - 12) (length packet.payload)
      then ok p
      else recover (count_error x p)
          (crypto_airplay2_decrypt_rtp x.crypto p.session.audio_key (wire_bytes packet) 12
            (length packet.payload) rtp_buffer_size)
          λ plain. ok (enqueue p now (record packet { payload = plain }))

  -- `audio_pipeline_on_rtp_control`
  unfoldable pub on_rtp_control : Pipeline L H V → List ℕ → Result (Pipeline L H V)
  on_rtp_control p bs =
      if not (p.session.stream_type == 0)
      then (if p.session.stream_type == 96
          then recover p (Ptp.anchor bs)
              (λ a. ok (record p { anchor = a; ptp = Ptp.set_clock p.ptp a.clock_id }))
          else ok p)
      else recover p
          (Ntp.control p.ntp_sync bs (
            if p.session.sample_rate == 0
            then airplay_default_sample_rate
            else p.session.sample_rate))
          λ s. ok (record p { ntp_sync = s })

  abbrev pub reply_or_sample :
      Pipeline L H V
      → Times
      → List ℕ
      → Endpoint
      → Result (List ℕ)
      → Result (Pipeline L H V × List Sent)
  reply_or_sample p t bs peer fault = fault
  reply_or_sample p t bs peer (ok answer) =
      ok (p, record { bytes = answer; destination = peer } ∷ [])
  reply_or_sample p t bs peer fail =
      if peer.port == p.timing_peer.port
      then recover (p, []) (Ntp.process_packet p.ntp_sync bs t.third)
          (λ s. ok (record p { ntp_sync = s }, []))
      else ok (p, [])

  -- `audio_pipeline_on_rtp_timing`
  unfoldable pub on_rtp_timing :
      Pipeline L H V → Times → List ℕ → Endpoint → Result (Pipeline L H V × List Sent)
  on_rtp_timing p t bs peer =
      if not p.ntp_sync_initialized
      then ok (p, [])
      else reply_or_sample p t bs peer (Ntp.reply bs t.first t.second)

  -- The callback for an event of the receiver
  unfoldable pub on_event : Pipeline L H V → Times → Event → Result (Pipeline L H V × List Sent)
  on_event p t (audio packet) = on_rtp_audio p t.first packet >>= λ p'. ok (p', [])
  on_event p t (control bs) = on_rtp_control p bs >>= λ p'. ok (p', [])
  on_event p t (timing bs peer) = on_rtp_timing p t bs peer

  -- The callbacks of a poll in their order; `clock` has the readings for each.
  unfoldable pub on_events :
      Pipeline L H V → (ℕ → Times) → ℕ → List Event → Result (Pipeline L H V × List Sent)
  on_events p clock i [] = ok (p, [])
  on_events p clock i (e ∷ rest) =
      on_event p (clock i) e >>= λ r. on_events r.0 clock (i + 1) rest >>= λ s. ok (s.0, r.1 ++ s.1)
