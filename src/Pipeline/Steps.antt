-- ===== src/Pipeline/Steps.antt =====
-- What comes from the network leaves the pipeline of shared/audio/audio_pipeline.c sound.
use protable_airplay.Base.{
  ℕ, zero, suc, ◌+◌, ◌^◌, ◌<◌, ◌≡◌, subst, Bool, ◌||◌, not, Option, none, some, List, [], ltb, ◌==◌,
  length, Result, ok, fail, fault, ◌>>=◌, recover, Endpoint, inl, inr, Bool-cases,
}
use protable_airplay.Rtp.{RtpPacket}
use protable_airplay.Rtp.Receiver.{Event, audio, control, timing}
use protable_airplay.Playout.{Playout, Status, accepted, ignored, refused}
use protable_airplay.Playout.Invariant.{IsValid}
use protable_airplay.Playout.Push.{push-Pushed}
use protable_airplay.Buffered as Buffered
use protable_airplay.Buffered.{Arrival, Accept, Step, Outcome, stop, next, idle, progressed, error}
use protable_airplay.Buffered.Records.{Stepped, stopped, going}
use protable_airplay.Buffered.Admission.{Sound, poll-Sound}
use protable_airplay.Buffered.Sequence.{IsShort, Stops, of_stop, poll-Stops}
use protable_airplay.Pipeline.{Pipeline, Externals}
use protable_airplay.Pipeline.Packet.{is_playing}
use protable_airplay.Pipeline.Input.{
  Times, Sent, queued, enqueue, on_rtp_audio, on_rtp_control, reply_or_sample, on_rtp_timing,
  on_event,
}
use protable_airplay.Pipeline.Poll.{
  has_room, polled, after_poll, deliver_packet, receive_limit, receive_loop, receive_buffered,
}
use protable_airplay.Pipeline.Invariant.{IsSound}

-- What is returned, if something is, satisfies `P`.
abbrev pub Holds : {A : Type 0} → (A → Type 0) → Result A → Type 0
Holds P (ok a) = P a
Holds P fail = Unit {0}
Holds P fault = Unit {0}

Holds-bind :
    {A B : Type 0} (P : A → Type 0) (Q : B → Type 0) (m : Result A) (f : A → Result B)
    → Holds P m
    → ((a : A) → P a → Holds Q (f a))
    → Holds Q (m >>= f)
Holds-bind P Q (ok a) f h g = g a h
Holds-bind P Q fail f h g = tt
Holds-bind P Q fault f h g = tt

Holds-recover :
    {A B : Type 0} (Q : B → Type 0) (other : B) (m : Result A) (f : A → Result B)
    → Q other
    → ((a : A) → Holds Q (f a))
    → Holds Q (recover other m f)
unfolding recover
Holds-recover Q other (ok a) f h g = g a
Holds-recover Q other fail f h g = h
Holds-recover Q other fault f h g = tt

pub Holds-value : {A : Type 0} (P : A → Type 0) (m : Result A) (a : A) → Holds P m → m ≡ ok a → P a
Holds-value P m a h e = subst (Holds P) e h

module _ {L H V : Type 0} (x : Externals L H V) where
  queued-IsSound :
      (p : Pipeline L H V) (now timestamp : ℕ) (r : Status × Playout)
      → IsValid r.1
      → IsSound p
      → IsSound (queued x p now timestamp r)
  queued-IsSound p now timestamp (refused, q) v i = record {
    queue = v;
    stream = i.stream;
    usable = i.usable;
    active = i.active;
  }
  queued-IsSound p now timestamp (ignored, q) v i = record {
    queue = v;
    stream = i.stream;
    usable = i.usable;
    active = i.active;
  }
  queued-IsSound p now timestamp (accepted, q) v i = elim (Bool-cases (p.first_arrival_us == 0)) [
    | inl e ↦ rw e (record { queue = v; stream = i.stream; usable = i.usable; active = i.active })
    | inr e ↦ rw e (record { queue = v; stream = i.stream; usable = i.usable; active = i.active })
  ]

  enqueue-IsSound :
      (p : Pipeline L H V) (now : ℕ) (packet : RtpPacket)
      → packet.header.sequence < 2 ^ 16
      → IsSound p
      → IsSound (enqueue x p now packet)
  unfolding enqueue
  enqueue-IsSound p now packet h i =
      queued-IsSound p now packet.header.timestamp _ (push-Pushed p.playout packet i.queue h).valid
        i

  on_rtp_audio-IsSound :
      (p : Pipeline L H V) (now : ℕ) (packet : RtpPacket)
      → packet.header.sequence < 2 ^ 16
      → IsSound p
      → Holds IsSound (on_rtp_audio x p now packet)
  unfolding on_rtp_audio
  on_rtp_audio-IsSound p now packet h i =
      elim (Bool-cases
        (not (is_playing p.state) || not (packet.header.payload_type == p.session.payload_type))) [
          | inl e ↦ rw e i
          | inr e ↦ elim (Bool-cases (p.session.stream_type == 0)) [
            | inl z ↦ rw (e, z) (enqueue-IsSound p now packet h i)
            | inr z ↦ elim (Bool-cases (ltb 4084 (length packet.payload))) [
              | inl l ↦ rw (e, z, l) i
              | inr l ↦
                  rw (e, z, l)
                    (Holds-recover _ _ _ _
                      (record {
                        queue = i.queue;
                        stream = i.stream;
                        usable = i.usable;
                        active = i.active;
                      })
                      λ plain. enqueue-IsSound p now _ h i)
            ]
          ]
        ]

  on_rtp_control-IsSound :
      (p : Pipeline L H V) (bs : List ℕ) → IsSound p → Holds IsSound (on_rtp_control x p bs)
  unfolding on_rtp_control
  on_rtp_control-IsSound p bs i = elim (Bool-cases (not (p.session.stream_type == 0))) [
    | inl e ↦ elim (Bool-cases (p.session.stream_type == 96)) [
      | inl f ↦
          rw (e, f)
            (Holds-recover IsSound p _ _ i λ a. record {
              queue = i.queue;
              stream = i.stream;
              usable = i.usable;
              active = i.active;
            })
      | inr f ↦ rw (e, f) i
    ]
    | inr e ↦ rw e (
        Holds-recover IsSound p _ _ i
          λ a. record { queue = i.queue; stream = i.stream; usable = i.usable; active = i.active })
  ]

  -- The first of the results of a callback
  abbrev pub SoundFirst : Pipeline L H V × List Sent → Type 0
  SoundFirst r = IsSound r.0

  reply_or_sample-IsSound :
      (p : Pipeline L H V) (t : Times) (bs : List ℕ) (peer : Endpoint) (r : Result (List ℕ))
      → IsSound p
      → Holds SoundFirst (reply_or_sample x p t bs peer r)
  reply_or_sample-IsSound p t bs peer fault i = tt
  reply_or_sample-IsSound p t bs peer (ok answer) i = i
  reply_or_sample-IsSound p t bs peer fail i = elim (Bool-cases (peer.port == p.timing_peer.port)) [
    | inl e ↦ rw e (
        Holds-recover SoundFirst (p, []) _ _ i
          λ a. record { queue = i.queue; stream = i.stream; usable = i.usable; active = i.active })
    | inr e ↦ rw e i
  ]

  on_rtp_timing-IsSound :
      (p : Pipeline L H V) (t : Times) (bs : List ℕ) (peer : Endpoint)
      → IsSound p
      → Holds SoundFirst (on_rtp_timing x p t bs peer)
  unfolding on_rtp_timing
  on_rtp_timing-IsSound p t bs peer i = elim (Bool-cases (not p.ntp_sync_initialized)) [
    | inl e ↦ rw e i
    | inr e ↦ rw e (reply_or_sample-IsSound p t bs peer _ i)
  ]

  -- The sequence number of a packet is a uint16_t.
  abbrev pub IsEvent : Event → Type 0
  IsEvent (audio packet) = packet.header.sequence < 2 ^ 16
  IsEvent (control bs) = Unit {0}
  IsEvent (timing bs peer) = Unit {0}

  pub on_event-IsSound :
      (p : Pipeline L H V) (t : Times) (e : Event)
      → IsEvent e
      → IsSound p
      → Holds SoundFirst (on_event x p t e)
  unfolding on_event
  on_event-IsSound p t (audio packet) h i =
      Holds-bind IsSound SoundFirst _ _ (on_rtp_audio-IsSound p t.first packet h i) λ q j. j
  on_event-IsSound p t (control bs) h i =
      Holds-bind IsSound SoundFirst _ _ (on_rtp_control-IsSound p bs i) λ q j. j
  on_event-IsSound p t (timing bs peer) h i = on_rtp_timing-IsSound p t bs peer i

  abbrev pub SoundSecond : Bool × Pipeline L H V → Type 0
  SoundSecond r = IsSound r.1

  deliver_packet-IsSound :
      (p : Pipeline L H V) (now : ℕ) (o : Option RtpPacket)
      → IsShort o
      → IsSound p
      → Holds IsSound (deliver_packet x p now o)
  deliver_packet-IsSound p now none h i = i
  deliver_packet-IsSound p now (some packet) h i = on_rtp_audio-IsSound p now packet h i

  after_poll-IsSound :
      (s : Buffered.Status) (p : Pipeline L H V)
      (again : Pipeline L H V → Result (Bool × Pipeline L H V))
      → IsSound p
      → ((q : Pipeline L H V) → IsSound q → Holds SoundSecond (again q))
      → Holds SoundSecond (after_poll x s p again)
  after_poll-IsSound idle p again i h = i
  after_poll-IsSound error p again i h = i
  after_poll-IsSound progressed p again i h = h p i

  polled-IsSound :
      (p : Pipeline L H V) (ip : List ℕ) (now : ℕ) (a : Accept) (r : Result Step)
      (again : Pipeline L H V → List Arrival → Result (Bool × Pipeline L H V))
      → Stepped (Sound p.buffered ip a) (λ _ _. ⊥) r
      → Stops r
      → IsSound p
      → ((q : Pipeline L H V) (rest : List Arrival) → IsSound q → Holds SoundSecond (again q rest))
      → Holds SoundSecond (r >>= λ step. polled x p now step again)
  polled-IsSound p ip now a r again (stopped o w) (of_stop o' d) i h =
      Holds-bind IsSound SoundSecond _ _
        (deliver_packet-IsSound (record p { buffered = o.state }) now o.delivered d
          (record { queue = i.queue; stream = w.valid; usable = i.usable; active = i.active }))
        λ q j. after_poll-IsSound o.status q _ j λ q' j'. h q' o.rest j'
  polled-IsSound p ip now a r again (going b s z) d i h = absurd z

  receive_loop-IsSound :
      (n : ℕ) (p : Pipeline L H V) (accepts : ℕ → Accept) (clock : ℕ → ℕ) (m : ℕ)
      (arrivals : List Arrival)
      → IsSound p
      → Holds SoundSecond (receive_loop x n p accepts clock m arrivals)
  unfolding receive_loop
  receive_loop-IsSound zero p accepts clock m arrivals i = i
  receive_loop-IsSound (suc n) p accepts clock m arrivals i = elim (Bool-cases (has_room x p)) [
    | inl e ↦ rw e (
        polled-IsSound p p.timing_peer.ip (clock m) (accepts m) _ _
          (poll-Sound p.buffered p.timing_peer.ip arrivals (accepts m) i.stream)
          (poll-Stops p.buffered p.timing_peer.ip arrivals (accepts m)) i
          λ q rest j. receive_loop-IsSound n q accepts clock (m + 1) rest j)
    | inr e ↦ rw e i
  ]

  pub receive_buffered-IsSound :
      (p : Pipeline L H V) (accepts : ℕ → Accept) (clock : ℕ → ℕ) (arrivals : List Arrival)
      → IsSound p
      → Holds SoundSecond (receive_buffered x p accepts clock arrivals)
  unfolding receive_buffered
  receive_buffered-IsSound p accepts clock arrivals i = elim (Bool-cases (is_playing p.state)) [
    | inl e ↦
        rw e
          (receive_loop-IsSound (receive_limit p.buffered.discarding) p accepts clock 0 arrivals i)
    | inr e ↦ rw e i
  ]
