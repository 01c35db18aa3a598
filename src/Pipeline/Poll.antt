-- ===== src/Pipeline/Poll.antt =====
-- shared/audio/audio_pipeline.c: `audio_pipeline_poll`, from the sockets to the output.
use protable_airplay.Base.{
  ℕ, zero, suc, ◌+◌, ◌-◌, Bool, true, false, ◌&&◌, ◌||◌, not, Option, none, some, List, [], ◌∷◌,
  ◌++◌, ltb, ◌==◌, if◌then◌else◌, Result, ok, fault, ◌>>=◌,
}
use protable_airplay.Base.Int.{ℤ, pos, negsuc}
use protable_airplay.Rtp.{RtpPacket}
use protable_airplay.Rtp.Receiver.{Receiver, Udp, Wait}
use protable_airplay.Rtp.Receiver as Receiver
use protable_airplay.Playout.{playout_packets}
use protable_airplay.Ptp.{Receipt}
use protable_airplay.Ptp as Ptp
use protable_airplay.Ntp.{Request, not_due, due}
use protable_airplay.Ntp as Ntp
use protable_airplay.Buffered.{Arrival, Accept, Step, stop, next, idle, progressed, error}
use protable_airplay.Buffered as Buffered
use protable_airplay.Pipeline.{Pipeline, Externals}
use protable_airplay.Pipeline.Packet.{is_playing}
use protable_airplay.Pipeline.Input.{Times, Sent, on_events, on_rtp_audio}
use protable_airplay.Pipeline.Play.{Reading, play_ready_packets, ntp_deadline, ptp_deadline}

-- What the platform has for the sockets of one poll: `wait` is `net_wait` for a timeout.
pub record Inputs : Type 0 where
  pub asked_at : ℕ
  pub wait : ℤ → Wait
  pub audios : List Udp
  pub controls : List Udp
  pub timings : List Udp
  pub clock : ℕ → Times
  pub event : List Receipt
  pub general : List Receipt

-- The platform's part in a whole poll
pub record Platform : Type 0 where
  pub inputs : Inputs
  pub accepts : ℕ → Accept
  pub arrival_clock : ℕ → ℕ
  pub arrivals : List Arrival
  pub readings : ℕ → Reading

-- The timeout for the receiver: at most 2 ms while playing
unfoldable pub short_timeout : Bool → ℤ → ℤ
short_timeout plays (pos n) = if plays && ltb 2 n then pos 2 else pos n
short_timeout plays (negsuc n) = if plays then pos 2 else negsuc n

-- `limit` of `pipeline_receive_buffered`
abbrev pub receive_limit : Bool → ℕ
receive_limit discarding = if discarding then 256 else 32

module _ {L H V : Type 0} (x : Externals L H V) where
  abbrev pub ask_sent : Pipeline L H V → Request × Ntp.NtpSync → Pipeline L H V × List Sent
  ask_sent p (not_due, s) = (record p { ntp_sync = s }, [])
  ask_sent p (due bs, s) =
      (record p { ntp_sync = s }, record { bytes = bs; destination = p.timing_peer } ∷ [])

  -- `ntp_sync_request`, if there is a peer for it
  abbrev pub ask : Pipeline L H V → ℕ → Pipeline L H V × List Sent
  ask p now = if p.timing_peer.port == 0 then (p, []) else ask_sent p (Ntp.request p.ntp_sync now)

  -- `pipeline_poll_inputs`: whether it returns 0, the pipeline, and what is sent on the timing socket
  unfoldable pub poll_inputs :
      Pipeline L H V → ℤ → Inputs → Result (Bool × Pipeline L H V × List Sent)
  poll_inputs p timeout i =
      let (p₁, question) = ask p i.asked_at in
      do
        (fine, r, events) ←
            Receiver.poll p₁.rtp (i.wait (short_timeout (is_playing p.state) timeout)) i.audios
              i.controls i.timings
        (p₂, replies) ← on_events x (record p₁ { rtp = r }) i.clock 0 events
        (if not fine
            then ok (false, p₂, question ++ replies)
            else (Ptp.poll p₂.ptp i.event i.general >>= λ c.
                ok (c.0, record p₂ { ptp = c.1 }, question ++ replies)))

  -- The callback of `buffered_audio_poll`
  abbrev pub deliver_packet : Pipeline L H V → ℕ → Option RtpPacket → Result (Pipeline L H V)
  deliver_packet p now none = ok p
  deliver_packet p now (some packet) = on_rtp_audio x p now packet

  -- The end of a round: it returns, or it goes on with `again`.
  abbrev pub after_poll :
      Buffered.Status
      → Pipeline L H V
      → (Pipeline L H V → Result (Bool × Pipeline L H V))
      → Result (Bool × Pipeline L H V)
  after_poll idle p again = ok (true, p)
  after_poll error p again = ok (false, p)
  after_poll progressed p again = again p

  abbrev pub polled :
      Pipeline L H V
      → ℕ
      → Step
      → (Pipeline L H V → List Arrival → Result (Bool × Pipeline L H V))
      → Result (Bool × Pipeline L H V)
  polled p now (next b rest) again = fault
  polled p now (stop o) again =
      deliver_packet (record p { buffered = o.state }) now o.delivered >>= λ p'.
      after_poll o.status p' (λ p''. again p'' o.rest)

  -- The condition of the loop: TCP holds back the rest.
  abbrev pub has_room : Pipeline L H V → Bool
  has_room p = p.buffered.discarding || ltb p.playout.count (playout_packets - 2)

  -- `pipeline_receive_buffered` with `n` calls of `buffered_audio_poll` left; call `i` has the answer
  -- `accepts i` of `net_tcp_accept` and the clock `clock i`.
  unfoldable pub receive_loop :
      ℕ
      → Pipeline L H V
      → (ℕ → Accept)
      → (ℕ → ℕ)
      → ℕ
      → List Arrival
      → Result (Bool × Pipeline L H V)
  receive_loop zero p accepts clock i arrivals = ok (true, p)
  receive_loop (suc n) p accepts clock i arrivals =
      if has_room p
      then (Buffered.poll p.buffered p.timing_peer.ip arrivals (accepts i) >>= λ step.
          polled p (clock i) step (λ p' rest. receive_loop n p' accepts clock (i + 1) rest))
      else ok (true, p)

  unfoldable pub receive_buffered :
      Pipeline L H V → (ℕ → Accept) → (ℕ → ℕ) → List Arrival → Result (Bool × Pipeline L H V)
  receive_buffered p accepts clock arrivals =
      if is_playing p.state
      then receive_loop (receive_limit p.buffered.discarding) p accepts clock 0 arrivals
      else ok (true, p)

  abbrev pub then_play :
      (Pipeline L H V → ℕ → ℕ → ℕ → Result (Pipeline L H V × Option ℕ))
      → (ℕ → Reading)
      → List Sent
      → Bool × Pipeline L H V
      → Result (Bool × Pipeline L H V × List (List ℤ) × List Sent)
  then_play deadline readings sent (false, p) = ok (false, p, [], sent)
  then_play deadline readings sent (true, p) =
      play_ready_packets x deadline p readings >>= λ r. ok (r.0, r.1, r.2, sent)

  -- `pipeline_poll_raop` and `pipeline_poll_airplay2_realtime`
  abbrev pub poll_realtime :
      (Pipeline L H V → ℕ → ℕ → ℕ → Result (Pipeline L H V × Option ℕ))
      → Pipeline L H V
      → ℤ
      → Platform
      → Result (Bool × Pipeline L H V × List (List ℤ) × List Sent)
  poll_realtime deadline p timeout e =
      poll_inputs p timeout e.inputs >>= λ r. then_play deadline e.readings r.2 (r.0, r.1)

  abbrev pub then_receive :
      Platform
      → List Sent
      → Bool × Pipeline L H V
      → Result (Bool × Pipeline L H V × List (List ℤ) × List Sent)
  then_receive e sent (false, p) = ok (false, p, [], sent)
  then_receive e sent (true, p) =
      receive_buffered p e.accepts e.arrival_clock e.arrivals
      >>= then_play (ptp_deadline x) e.readings sent

  abbrev pub poll_buffered :
      Pipeline L H V → ℤ → Platform → Result (Bool × Pipeline L H V × List (List ℤ) × List Sent)
  poll_buffered p timeout e = poll_inputs p timeout e.inputs >>= λ r. then_receive e r.2 (r.0, r.1)

  -- `audio_pipeline_poll`: whether it returns 0, the pipeline, what went to the output, and what was sent
  unfoldable pub poll_pipeline :
      Pipeline L H V → ℤ → Platform → Result (Bool × Pipeline L H V × List (List ℤ) × List Sent)
  poll_pipeline p timeout e =
      if p.session.stream_type == 0
      then poll_realtime (ntp_deadline x) p timeout e
      else if p.session.stream_type == 96
      then poll_realtime (ptp_deadline x) p timeout e
      else if p.session.stream_type == 103
      then poll_buffered p timeout e
      else ok (false, p, [], [])
