-- ===== src/Pipeline/Reachable.antt =====
-- Every sequence of calls of shared/audio/audio_pipeline.c, with whatever the network sends in between.
use protable_airplay.Base.{
  ℕ, ◌≡◌, ap, sym, ◌∙◌, Bool, false, List, ◌==◌, Result, ok, Endpoint, Yields, Yields-mono, yields,
  Option, arith, inl, inr, Bool-cases,
}
use protable_airplay.Base.Int.{ℤ}
use protable_airplay.Rtp.Receiver as Receiver
use protable_airplay.Rtp.Receiver.{Receiver, Event, Udp, Wait}
use protable_airplay.Ptp as Ptp
use protable_airplay.Ptp.{Network, Receipt}
use protable_airplay.Buffered as Buffered
use protable_airplay.Buffered.{Arrival, Accept}
use protable_airplay.Crypto.Bounds.{KeepsLength}
use protable_airplay.Pipeline.{Pipeline, Session, Externals}
use protable_airplay.Pipeline.Packet.{is_playing}
use protable_airplay.Pipeline.Input.{Times, Sent, on_event}
use protable_airplay.Pipeline.Control.{
  is_unusable, set_transport, set_start, configure, start_pipeline, stop_pipeline, set_volume,
  close_pipeline,
}
use protable_airplay.Pipeline.Create.{PipelineConfig, Bindings, create_pipeline}
use protable_airplay.Pipeline.Poll.{ask, receive_buffered}
use protable_airplay.Pipeline.Play.{
  Reading, play_loop, play_ready_packets, ntp_deadline, ptp_deadline,
}
use protable_airplay.Pipeline.Rounds.{play_loop-Progress}
use protable_airplay.Pipeline.Progress.{Clocks, clocks, IsReading, Resolves, Progress}
use protable_airplay.Pipeline.Deadlines.{IsNtpClock, IsPtpClock}
use protable_airplay.Pipeline.Invariant.{IsSound}
use protable_airplay.Pipeline.Steps.{IsEvent}

usable-rate : (s : Session) → is_unusable s ≡ false → (s.sample_rate == 0) ≡ false
unfolding is_unusable
usable-rate s h = ground arith

module _ {L H V : Type 0} (x : Externals L H V) where
  -- The pipelines that calls lead to, from the creation to the end: the interface; what a poll consists of, that is the
  -- timing request, the receiver with its callbacks, the PTP messages, the receipt of buffered audio, and the
  -- playing of queued packets with clocks in range; and what shared/service/server.c does to the
  -- pipeline, that is the flush of buffered audio, and the anchor with its clock
  pub data Reachable : Pipeline L H V → Type 0 where
    created : (c : PipelineConfig) (b : Bindings) → Reachable (create_pipeline x c b).1
    transported :
        (p : Pipeline L H V) (peer : Endpoint) → Reachable p → Reachable (set_transport x p peer)
    reconfigured :
        (p : Pipeline L H V) (s : Session) (network : Network)
        → Reachable p
        → Reachable (configure x p s network).1
    started : (p : Pipeline L H V) → Reachable p → Reachable (start_pipeline x p).1
    floored :
        (p : Pipeline L H V) (timestamp : ℕ) (exclusive : Bool)
        → Reachable p
        → Reachable (set_start x p timestamp exclusive)
    halted : (p : Pipeline L H V) → Reachable p → Reachable (stop_pipeline x p)
    tuned : (p : Pipeline L H V) (db : V) → Reachable p → Reachable (set_volume x p db).1
    closed : (p : Pipeline L H V) → Reachable p → Reachable (close_pipeline x p)
    flushed :
        (p : Pipeline L H V) (until_sequence : ℕ)
        → Reachable p
        → Reachable (record p { buffered = Buffered.flush p.buffered until_sequence })
    anchored :
        (p : Pipeline L H V) (a : Ptp.Anchor)
        → Reachable p
        → Reachable (record p { anchor = a; ptp = Ptp.set_clock p.ptp a.clock_id })
    asked : (p : Pipeline L H V) (now : ℕ) → Reachable p → Reachable (ask x p now).0
    received :
        (p : Pipeline L H V) (w : Wait) (audios controls timings : List Udp)
        (r : Bool × Receiver × List Event)
        → Receiver.poll p.rtp w audios controls timings ≡ ok r
        → Reachable p
        → Reachable (record p { rtp = r.1 })
    synchronised :
        (p : Pipeline L H V) (event general : List Receipt)
        (c : Bool × Ptp.Ptp × List Receipt × List Receipt)
        → Ptp.poll p.ptp event general ≡ ok c
        → Reachable p
        → Reachable (record p { ptp = c.1 })
    heard :
        (p : Pipeline L H V) (t : Times) (e : Event) (r : Pipeline L H V × List Sent)
        → IsEvent x e
        → on_event x p t e ≡ ok r
        → Reachable p
        → Reachable r.0
    fetched :
        (p : Pipeline L H V) (accepts : ℕ → Accept) (clock : ℕ → ℕ) (arrivals : List Arrival)
        (r : Bool × Pipeline L H V)
        → receive_buffered x p accepts clock arrivals ≡ ok r
        → Reachable p
        → Reachable r.1
    played_raop :
        (p : Pipeline L H V) (readings : ℕ → Reading) (r : Bool × Pipeline L H V × List (List ℤ))
        → ((m : ℕ) → IsReading (readings m))
        → IsNtpClock (clocks p)
        → play_ready_packets x (ntp_deadline x) p readings ≡ ok r
        → Reachable p
        → Reachable r.1
    played_airplay2 :
        (p : Pipeline L H V) (readings : ℕ → Reading) (r : Bool × Pipeline L H V × List (List ℤ))
        → ((m : ℕ) → IsReading (readings m))
        → IsPtpClock (clocks p)
        → play_ready_packets x (ptp_deadline x) p readings ≡ ok r
        → Reachable p
        → Reachable r.1

  Progress-IsSound :
      (n : ℕ) (p q : Pipeline L H V) (outputs : List (List ℤ))
      → Progress x n p q outputs
      → IsSound p
      → IsSound q
  Progress-IsSound n p q outputs g i = record {
    queue = g.valid;
    stream = rw g.same.buffered i.stream;
    usable = λ h. ap is_unusable g.same.session ∙ i.usable (sym g.same.configured ∙ h);
    active = λ h. g.same.configured ∙ i.active (ap is_playing (sym g.same.state) ∙ h);
  }

  -- In a sound pipeline the loop returns and leaves it sound: where it plays there is a sample rate to divide by.
  pub play-IsSound :
      (Ok : Clocks → Type 0)
      (deadline : Pipeline L H V → ℕ → ℕ → ℕ → Result (Pipeline L H V × Option ℕ))
      (p : Pipeline L H V) (readings : ℕ → Reading)
      → Resolves x Ok deadline
      → KeepsLength x.crypto
      → ((m : ℕ) → IsReading (readings m))
      → Ok (clocks p)
      → IsSound p
      → Yields
          (λ (r : Bool × Pipeline L H V × List (List ℤ)). IsSound r.1)
          (play_ready_packets x deadline p readings)
  unfolding play_loop
  play-IsSound Ok deadline p readings l k f c i = elim (Bool-cases (is_playing p.state)) [
    | inr e ↦ rw e (yields _ i)
    | inl e ↦
        Yields-mono _ _ _
          (play_loop-Progress x Ok deadline 16 p readings 0 l k f c i.queue
            (usable-rate p.session (i.usable (i.active e))))
          λ r g. Progress-IsSound 16 p r.1 r.2 g i
  ]
