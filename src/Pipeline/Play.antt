-- ===== src/Pipeline/Play.antt =====
-- shared/audio/audio_pipeline.c: the deadlines and `pipeline_play_ready_packets`.
use protable_airplay.Base.{
  ℕ, zero, suc, ◌+◌, ◌%◌, ◌^◌, Bool, true, false, ◌&&◌, not, Option, none, some, List, [], ◌∷◌,
  ◌++◌, ltb, ◌==◌, if◌then◌else◌, Result, ok, fail, fault, ◌>>=◌, checked,
}
use protable_airplay.Base.Int.{
  ℤ, pos, negsuc, ◌+ℤ◌, ◌-ℤ◌, ltb_ℤ, times, quot, signed32, signed64, sub32, sub64, to_word,
}
use protable_airplay.Rtp.{RtpPacket}
use protable_airplay.Playout.{Playout, Slot, peek, pop}
use protable_airplay.Ptp.{Receipt}
use protable_airplay.Ptp as Ptp
use protable_airplay.Ntp.{Request, not_due, due}
use protable_airplay.Ntp as Ntp
use protable_airplay.Pipeline.{Pipeline, Externals}
use protable_airplay.Pipeline.Packet.{is_playing, decode_packet}

-- The readings in a round of `pipeline_play_ready_packets`: the clock, the clock inside of the deadline, and
-- `output_delay_frames`, which is 0 without that callback
pub record Reading : Type 0 where
  pub now : ℕ
  pub later : ℕ
  pub delay : ℤ

-- A round of `pipeline_play_ready_packets`: it leaves the loop, it returns -1, or it goes on with what it
-- gave to the output.
pub data Round (L H V : Type 0) : Type 0 where
  left failed : Pipeline L H V → Round L H V
  went_on : Pipeline L H V → Option (List ℤ) → Round L H V

abbrev pub listed : Option (List ℤ) → List (List ℤ)
listed none = []
listed (some samples) = samples ∷ []

module _ {L H V : Type 0} (x : Externals L H V) where
  -- The end of `pipeline_ntp_deadline`, where the sender's clock gives no deadline
  abbrev pub fallback_deadline : Pipeline L H V → ℕ → ℕ → Result (Pipeline L H V × Option ℕ)
  fallback_deadline p timestamp now =
      if not (p.timing_peer.port == 0) && ltb (sub64 now p.first_arrival_us) 3000000
      then ok (p, none)
      else if p.session.sample_rate == 0
      then fault
      else ok (
        record p { fallback_logged = true },
        some (
            to_word 64 (
              pos (p.first_arrival_us + 2000000)
              +ℤ quot (times (signed32 (sub32 timestamp p.first_timestamp)) 1000000)
                  p.session.sample_rate)),
      )

  abbrev pub or_fallback : Pipeline L H V → ℕ → ℕ → Result ℕ → Result (Pipeline L H V × Option ℕ)
  or_fallback p timestamp now (ok d) = ok (p, some d)
  or_fallback p timestamp now fail = fallback_deadline p timestamp now
  or_fallback p timestamp now fault = fault

  -- `pipeline_ntp_deadline` for an RTP time and two readings of the clock
  unfoldable pub ntp_deadline : Pipeline L H V → ℕ → ℕ → ℕ → Result (Pipeline L H V × Option ℕ)
  ntp_deadline p timestamp now later =
      or_fallback p timestamp now (Ntp.deadline p.ntp_sync timestamp p.session.sample_rate later)

  abbrev pub deadline_or_none : Pipeline L H V → Result ℕ → Result (Pipeline L H V × Option ℕ)
  deadline_or_none p (ok d) = ok (p, some d)
  deadline_or_none p fail = ok (p, none)
  deadline_or_none p fault = fault

  -- `pipeline_ptp_deadline`
  unfoldable pub ptp_deadline : Pipeline L H V → ℕ → ℕ → ℕ → Result (Pipeline L H V × Option ℕ)
  ptp_deadline p timestamp now later =
      deadline_or_none p
        (Ptp.deadline p.ptp p.anchor timestamp p.session.sample_rate p.session.latency_frames later)

  -- The packet of a slot
  abbrev pub packet_in : Slot → RtpPacket
  packet_in s = record { header = s.header; payload = s.payload }

  abbrev pub popped : Pipeline L H V → Option (List ℤ) → Option Playout → Result (Round L H V)
  popped p output none = fault
  popped p output (some q) = ok (went_on (record p { playout = q }) output)

  abbrev pub pop_front : ℕ → Pipeline L H V × Option (List ℤ) → Result (Round L H V)
  pop_front j r = popped r.0 r.1 (pop r.0.playout j)

  -- A late packet is counted, another one is decoded.
  abbrev pub late_or_decoded : Pipeline L H V → Slot → ℤ → Result (Pipeline L H V × Option (List ℤ))
  late_or_decoded p s margin =
      if ltb_ℤ margin (negsuc 99999)
      then ok (record p { late_packets = (p.late_packets + 1) % 2 ^ 32 }, none)
      else decode_packet x p (packet_in s)

  -- `output_delay_us`; a division by 0 is a fault.
  abbrev pub delay_us : ℤ → ℕ → Result ℤ
  delay_us frames rate = if rate == 0 then fault else ok (quot (times frames 1000000) rate)

  -- The round for slot `j`, whose deadline is `early` microseconds ahead
  unfoldable pub play_slot : Pipeline L H V → ℕ → Slot → ℤ → ℤ → Result (Round L H V)
  play_slot p j s early delay =
      if ltb_ℤ (pos 40000) early
      then ok (left p)
      else if ltb_ℤ delay (pos 0)
      then ok (failed p)
      else delay_us delay p.session.sample_rate >>= λ us. checked (early -ℤ us) >>= λ margin.
          if ltb_ℤ (pos 5000) margin
          then ok (left p)
          else (late_or_decoded p s margin >>= pop_front j)

  abbrev pub at_deadline : ℕ → Slot → Reading → Pipeline L H V × Option ℕ → Result (Round L H V)
  at_deadline j s r (p, none) = ok (left p)
  at_deadline j s r (p, some d) = play_slot p j s (signed64 (sub64 d r.now)) r.delay

  abbrev pub play_first :
      (Pipeline L H V → ℕ → ℕ → ℕ → Result (Pipeline L H V × Option ℕ))
      → Pipeline L H V
      → Reading
      → Option (ℕ × Slot)
      → Result (Round L H V)
  play_first deadline p r none = ok (left p)
  play_first deadline p r (some (j, s)) =
      deadline p s.header.timestamp r.now r.later >>= at_deadline j s r

  unfoldable pub play_round :
      (Pipeline L H V → ℕ → ℕ → ℕ → Result (Pipeline L H V × Option ℕ))
      → Pipeline L H V
      → Reading
      → Result (Round L H V)
  play_round deadline p r = play_first deadline p r (peek p.playout)

  abbrev pub after_round :
      Round L H V
      → (Pipeline L H V → Result (Bool × Pipeline L H V × List (List ℤ)))
      → Result (Bool × Pipeline L H V × List (List ℤ))
  after_round (left p) again = ok (true, p, [])
  after_round (failed p) again = ok (false, p, [])
  after_round (went_on p output) again = again p >>= λ r. ok (r.0, r.1, listed output ++ r.2)

  -- The loop of `pipeline_play_ready_packets` with `n` rounds left: whether it returns 0, the pipeline, and
  -- what it gave to the output
  unfoldable pub play_loop :
      ℕ
      → (Pipeline L H V → ℕ → ℕ → ℕ → Result (Pipeline L H V × Option ℕ))
      → Pipeline L H V
      → (ℕ → Reading)
      → ℕ
      → Result (Bool × Pipeline L H V × List (List ℤ))
  play_loop zero deadline p readings i = ok (true, p, [])
  play_loop (suc n) deadline p readings i =
      if is_playing p.state
      then (play_round deadline p (readings i) >>= λ r.
          after_round r (λ p'. play_loop n deadline p' readings (i + 1)))
      else ok (true, p, [])

  -- `pipeline_play_ready_packets`
  abbrev pub play_ready_packets :
      (Pipeline L H V → ℕ → ℕ → ℕ → Result (Pipeline L H V × Option ℕ))
      → Pipeline L H V
      → (ℕ → Reading)
      → Result (Bool × Pipeline L H V × List (List ℤ))
  play_ready_packets deadline p readings = play_loop 16 deadline p readings 0
