-- ===== src/Pipeline/Deadlines.antt =====
-- The two deadlines of shared/audio/audio_pipeline.c return, for clocks in range.
use protable_airplay.Base.{
  ℕ, ◌+◌, ◌^◌, ◌≤◌, ◌<◌, ◌≡◌, refl, true, false, ◌&&◌, not, some, ltb, ◌==◌, Result, IsWithin,
  times-IsWithin, quot-IsWithin, IsWithin-mono, arith, inl, inr, Bool-cases, Returns, of_ok,
  of_fail, Yields, yields,
}
use protable_airplay.Base.Int.{
  pos, neg_part, ◌+ℤ◌, times, quot, signed32, signed64, sub32, sub64, to_word,
}
use protable_airplay.Ntp.Limits.{deadline-Recent, recent_lem}
use protable_airplay.Ptp.Limits.{deadline-Returns}
use protable_airplay.Ptp.Bounds as Bounds
use protable_airplay.Pipeline.{Pipeline, Externals}
use protable_airplay.Pipeline.Kept.{Kept, Kept-same}
use protable_airplay.Pipeline.Play.{
  Reading, play_ready_packets, fallback_deadline, or_fallback, ntp_deadline, deadline_or_none,
  ptp_deadline,
}
use protable_airplay.Pipeline.Rounds.{play_loop-Progress}
use protable_airplay.Pipeline.Progress.{Clocks, clocks, IsReading, IsRecent, Resolves, Progress}
use protable_airplay.Playout.Invariant.{IsValid}
use protable_airplay.Crypto.Bounds.{KeepsLength}

-- The clock of an AirPlay 1 session: a known rate, and an offset below 2 ^ 53 microseconds
pub record IsNtpClock (c : Clocks) : Type 0 where
  pub rate : (c.3.sample_rate == 0) ≡ false
  pub offset : IsWithin (2 ^ 53) c.2.clock_offset_us
  pub arrival : c.4 < 2 ^ 60

-- The clock of an AirPlay 2 session, and an anchor that was divided down to microseconds
pub record IsPtpClock (c : Clocks) : Type 0 where
  pub clock : Bounds.IsValid c.0
  pub anchored : c.1.network_us < 2 ^ 55
  pub latency : c.3.latency_frames < 2 ^ 32

module _ {L H V : Type 0} (x : Externals L H V) where
  fallback-Yields :
      (p : Pipeline L H V) (timestamp : ℕ) (r : Reading)
      → (p.session.sample_rate == 0) ≡ false
      → p.first_arrival_us < 2 ^ 60
      → IsReading r
      → Yields (λ a. Kept p a.0 × IsRecent r.now a.1) (fallback_deadline x p timestamp r.now)
  fallback-Yields p timestamp r z h i =
      elim (Bool-cases
        (not (p.timing_peer.port == 0) && ltb (sub64 r.now p.first_arrival_us) 3000000)) [
          | inl e ↦ rw e (yields _ (Kept-same p p refl, tt))
          | inr e ↦
              rw (e, z) (yields _ (Kept-same p (record p { fallback_logged = true }) refl, recent))
        ]
    where
      recent :
          neg_part (
            signed64 (
              sub64
                (to_word 64 (
                  pos (p.first_arrival_us + 2000000)
                  +ℤ quot
                      (times (signed32 (sub32 timestamp p.first_timestamp)) 1000000)
                      p.session.sample_rate))
                r.now))
          ≤ 2 ^ 62
      recent = recent_lem r.now (p.first_arrival_us + 2000000) _ i.now_bound (omega (arith, h)) (
          IsWithin-mono _ _ _
            (quot-IsWithin _ _ p.session.sample_rate (
              times-IsWithin (signed32 (sub32 timestamp p.first_timestamp)) (2 ^ 31)
                (ground arith)))
            (omega arith))

  or_fallback-Yields :
      (p : Pipeline L H V) (timestamp : ℕ) (r : Reading) (m : Result ℕ)
      → (p.session.sample_rate == 0) ≡ false
      → p.first_arrival_us < 2 ^ 60
      → IsReading r
      → Returns (λ d. IsRecent r.now (some d)) m
      → Yields (λ a. Kept p a.0 × IsRecent r.now a.1) (or_fallback x p timestamp r.now m)
  or_fallback-Yields p timestamp r m z h i (of_ok d w) = yields _ (Kept-same p p refl, w)
  or_fallback-Yields p timestamp r m z h i of_fail = fallback-Yields p timestamp r z h i

  pub ntp_deadline-Resolves : Resolves x IsNtpClock (ntp_deadline x)
  unfolding ntp_deadline
  ntp_deadline-Resolves p timestamp r c i = or_fallback-Yields p timestamp r _ c.rate c.arrival i (
      deadline-Recent p.ntp_sync timestamp p.session.sample_rate r.later r.now c.offset i.now_bound
        i.later_bound)

  none_or-Yields :
      (p : Pipeline L H V) (r : Reading) (m : Result ℕ)
      → IsReading r
      → Returns (λ d. d < 2 ^ 63) m
      → Yields (λ a. Kept p a.0 × IsRecent r.now a.1) (deadline_or_none x p m)
  none_or-Yields p r m i (of_ok d w) = yields _ (Kept-same p p refl, ground (arith, i.now_bound, w))
  none_or-Yields p r m i of_fail = yields _ (Kept-same p p refl, tt)

  pub ptp_deadline-Resolves : Resolves x IsPtpClock (ptp_deadline x)
  unfolding ptp_deadline
  ptp_deadline-Resolves p timestamp r c i = none_or-Yields p r _ i (
      deadline-Returns p.ptp p.anchor timestamp p.session.sample_rate p.session.latency_frames
        r.later c.clock c.anchored c.latency)

  -- `pipeline_play_ready_packets` of an AirPlay 1 session with a rate other than 0, an offset of at most 2 ^ 53 and a first
  -- arrival below 2 ^ 60 microseconds returns, from any valid queue and with any decoder. It takes at most 16
  -- packets out of the queue, which stays valid, gives at most one output of 1 to 2048 samples for each
  -- of them, and leaves the session, the state and the clocks as they are. Readings of the clock are below
  -- 2 ^ 60 microseconds, the delay of the output fits an int, and mbedTLS is taken to keep lengths.
  pub play_ready_packets-Progress :
      (p : Pipeline L H V) (readings : ℕ → Reading)
      → KeepsLength x.crypto
      → ((m : ℕ) → IsReading (readings m))
      → IsNtpClock (clocks p)
      → IsValid p.playout
      → Yields (λ r. Progress x 16 p r.1 r.2) (play_ready_packets x (ntp_deadline x) p readings)
  play_ready_packets-Progress p readings k f c v =
      play_loop-Progress x IsNtpClock (ntp_deadline x) 16 p readings 0 ntp_deadline-Resolves k f c v
        c.rate
