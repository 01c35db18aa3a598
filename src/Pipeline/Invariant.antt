-- ===== src/Pipeline/Invariant.antt =====
-- What holds of the pipeline of shared/audio/audio_pipeline.c after every call.
use protable_airplay.Base.{
  ℕ, ◌≡◌, refl, Bool, true, false, not, Option, none, some, leb, ◌==◌, length, length-replicate,
  Result, ok, fail, fault, Endpoint, arith, inl, inr, Bool-cases,
}
use protable_airplay.Playout.{reset}
use protable_airplay.Playout.Invariant as Queue
use protable_airplay.Playout.Invariant.{reset-IsValid, set_floor-IsValid}
use protable_airplay.Buffered as Buffered
use protable_airplay.Buffered.{data_size}
use protable_airplay.Buffered.Records as Stream
use protable_airplay.Buffered.Receive.{disconnect-IsValid}
use protable_airplay.Rtp.Receiver.{Receiver, Sockets}
use protable_airplay.Pipeline.{Pipeline, Externals, stopped}
use protable_airplay.Pipeline.Packet.{is_playing}
use protable_airplay.Pipeline.Control.{
  is_unusable, set_transport, set_start, start_pipeline, stop_pipeline, set_volume, close_pipeline,
}
use protable_airplay.Ntp as Ntp
use protable_airplay.Ptp as Ptp
use protable_airplay.Pipeline.Poll.{ask, ask_sent}
use protable_airplay.Pipeline.Create.{
  PipelineConfig, Bindings, playout_zero, pipeline_zero, ip_of, prepared, with_listener,
  with_receiver, create_pipeline,
}

-- The queue and the buffer are valid, a configured pipeline has a session it can play, and only a configured one plays.
pub record IsSound {L H V : Type 0} (p : Pipeline L H V) : Type 0 where
  pub queue : Queue.IsValid p.playout
  pub stream : Stream.IsValid p.buffered
  pub usable : p.configured ≡ true → is_unusable p.session ≡ false
  pub active : is_playing p.state ≡ true → p.configured ≡ true

pub playout_zero-IsValid : Queue.IsValid playout_zero
unfolding reset
playout_zero-IsValid = (reset-IsValid playout_zero refl).0

init-IsValid : Stream.IsValid Buffered.init
unfolding Buffered.init
init-IsValid = record {
  size = length-replicate {A = ℕ} data_size 0;
  partial = inl (omega arith);
  unused = λ e. refl;
}

module _ {L H V : Type 0} (x : Externals L H V) where
  -- A pipeline that is not configured
  pub stopped-IsSound :
      (p : Pipeline L H V)
      → Queue.IsValid p.playout
      → Stream.IsValid p.buffered
      → p.configured ≡ false
      → p.state ≡ stopped
      → IsSound p
  stopped-IsSound p v w e f = record { queue = v; stream = w; usable = λ h. cc; active = λ h. cc }

  with_listener-IsSound :
      (p : Pipeline L H V) (o : Option ℕ)
      → IsSound p
      → IsSound (with_listener x p (Buffered.open_listener p.buffered o)).1
  unfolding Buffered.open_listener
  with_listener-IsSound p none i = record {
    queue = i.queue;
    stream = i.stream;
    usable = i.usable;
    active = i.active;
  }
  with_listener-IsSound p (some h) i = record {
    queue = i.queue;
    stream = record { size = i.stream.size; partial = i.stream.partial; unused = i.stream.unused };
    usable = i.usable;
    active = i.active;
  }

  with_receiver-IsSound :
      (p : Pipeline L H V) (o : Option ℕ) (r : Result (Sockets × Receiver))
      → IsSound p
      → IsSound (with_receiver x p o r).1
  with_receiver-IsSound p o (ok (s, r)) i =
      with_listener-IsSound (record p { sockets = s; rtp = r }) o
        (record { queue = i.queue; stream = i.stream; usable = i.usable; active = i.active })
  with_receiver-IsSound p o fail i = record {
    queue = i.queue;
    stream = i.stream;
    usable = i.usable;
    active = i.active;
  }
  with_receiver-IsSound p o fault i = record {
    queue = i.queue;
    stream = i.stream;
    usable = i.usable;
    active = i.active;
  }

  pub create_pipeline-IsSound :
      (c : PipelineConfig) (b : Bindings) → IsSound (create_pipeline x c b).1
  unfolding create_pipeline
  create_pipeline-IsSound c b = elim (Bool-cases (leb 16 (length (ip_of x c.own_ip)))) [
    | inl e ↦ rw e (stopped-IsSound (pipeline_zero x) playout_zero-IsValid init-IsValid refl refl)
    | inr e ↦ rw e (
        with_receiver-IsSound (prepared x c) b.listener _
          (stopped-IsSound (prepared x c) playout_zero-IsValid init-IsValid refl refl))
  ]

  pub start_pipeline-IsSound : (p : Pipeline L H V) → IsSound p → IsSound (start_pipeline x p).1
  unfolding start_pipeline
  start_pipeline-IsSound p i = elim (Bool-cases (not p.configured)) [
    | inl e ↦ rw e i
    | inr e ↦ rw e (record {
      queue = i.queue;
      stream = i.stream;
      usable = i.usable;
      active = λ h. ground (arith, e);
    })
  ]

  pub stop_pipeline-IsSound : (p : Pipeline L H V) → IsSound p → IsSound (stop_pipeline x p)
  stop_pipeline-IsSound p i = record {
    queue = (reset-IsValid p.playout i.queue.size).0;
    stream = i.stream;
    usable = i.usable;
    active = λ h. cc;
  }

  pub set_start-IsSound :
      (p : Pipeline L H V) (timestamp : ℕ) (exclusive : Bool)
      → IsSound p
      → IsSound (set_start x p timestamp exclusive)
  set_start-IsSound p timestamp exclusive i = record {
    queue = set_floor-IsValid p.playout timestamp exclusive i.queue.size;
    stream = i.stream;
    usable = i.usable;
    active = i.active;
  }

  pub set_transport-IsSound :
      (p : Pipeline L H V) (peer : Endpoint) → IsSound p → IsSound (set_transport x p peer)
  set_transport-IsSound p peer i = record {
    queue = i.queue;
    stream = disconnect-IsValid p.buffered i.stream.size;
    usable = i.usable;
    active = i.active;
  }

  pub set_volume-IsSound : (p : Pipeline L H V) (db : V) → IsSound p → IsSound (set_volume x p db).1
  unfolding set_volume
  set_volume-IsSound p db i = elim (Bool-cases (not (x.floats.is_finite db))) [
    | inl e ↦ rw e i
    | inr e ↦
        rw e (record { queue = i.queue; stream = i.stream; usable = i.usable; active = i.active })
  ]

  pub close_pipeline-IsSound : (p : Pipeline L H V) → IsSound p → IsSound (close_pipeline x p)
  unfolding Buffered.close
  close_pipeline-IsSound p i = elim (Bool-cases p.ntp_sync_initialized) [
    | inl e ↦ rw e (record {
      queue = (reset-IsValid p.playout i.queue.size).0;
      stream = record { size = gone.size; partial = gone.partial; unused = gone.unused };
      usable = i.usable;
      active = λ h. cc;
    })
    | inr e ↦ rw e (record {
      queue = (reset-IsValid p.playout i.queue.size).0;
      stream = record { size = gone.size; partial = gone.partial; unused = gone.unused };
      usable = i.usable;
      active = λ h. cc;
    })
  ]
    where
      gone : Stream.IsValid (Buffered.disconnect p.buffered)
      gone = disconnect-IsValid p.buffered i.stream.size

  pub ask-IsSound : (p : Pipeline L H V) (now : ℕ) → IsSound p → IsSound (ask x p now).0
  ask-IsSound p now i = elim (Bool-cases (p.timing_peer.port == 0)) [
    | inl e ↦ rw e i
    | inr e ↦ rw e (sent (Ntp.request p.ntp_sync now))
  ]
    where
      sent : (r : Ntp.Request × Ntp.NtpSync) → IsSound (ask_sent x p r).0
      sent (Ntp.not_due, s) = record {
        queue = i.queue;
        stream = i.stream;
        usable = i.usable;
        active = i.active;
      }
      sent (Ntp.due bs, s) = record {
        queue = i.queue;
        stream = i.stream;
        usable = i.usable;
        active = i.active;
      }

module _ {L H V : Type 0} (p : Pipeline L H V) where
  pub flush-IsSound :
      (until_sequence : ℕ)
      → IsSound p
      → IsSound (record p { buffered = Buffered.flush p.buffered until_sequence })
  unfolding Buffered.flush
  flush-IsSound until_sequence i = record {
    queue = i.queue;
    stream = record { size = i.stream.size; partial = i.stream.partial; unused = i.stream.unused };
    usable = i.usable;
    active = i.active;
  }

  pub set_anchor-IsSound :
      (a : Ptp.Anchor)
      → IsSound p
      → IsSound (record p { anchor = a; ptp = Ptp.set_clock p.ptp a.clock_id })
  set_anchor-IsSound a i = record {
    queue = i.queue;
    stream = i.stream;
    usable = i.usable;
    active = i.active;
  }

  pub set_receiver-IsSound : (r : Receiver) → IsSound p → IsSound (record p { rtp = r })
  set_receiver-IsSound r i = record {
    queue = i.queue;
    stream = i.stream;
    usable = i.usable;
    active = i.active;
  }

  pub set_ptp-IsSound : (c : Ptp.Ptp) → IsSound p → IsSound (record p { ptp = c })
  set_ptp-IsSound c i = record {
    queue = i.queue;
    stream = i.stream;
    usable = i.usable;
    active = i.active;
  }
