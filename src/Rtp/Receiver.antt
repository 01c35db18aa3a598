-- ===== src/Rtp/Receiver.antt =====
-- shared/protocol/rtp.c: the three sockets of a receiver. The callbacks are set, and their calls are the list
-- of events that a poll returns.
use protable_airplay.Base.{
  ℕ, zero, suc, ◌+◌, ◌%◌, ◌^◌, Bool, true, false, ◌&&◌, ◌||◌, not, List, [], ◌∷◌, ◌++◌, ltb, ◌==◌,
  if◌then◌else◌, str_eq, length, recover, Endpoint, Result, ok, ◌>>=◌, ◌>>◌, guard, read,
}
use protable_airplay.Rtp.{RtpPacket, parse_packet}

-- The index of a socket: 0, 1 and 2
pub data Socket : Type 0 where
  audio_socket control_socket timing_socket : Socket

-- What net_udp_recv returns: NET_TIMEOUT, NET_ERROR, or a datagram and its sender
pub data Udp : Type 0 where
  nothing_more broken : Udp
  datagram : Endpoint → List ℕ → Udp

-- A call of `audio_cb`, `control_cb` or `timing_cb`
pub data Event : Type 0 where
  audio : RtpPacket → Event
  control : List ℕ → Event
  timing : List ℕ → Endpoint → Event

-- The fields of `rtp_receiver_t` that polling uses
pub record Receiver : Type 0 where
  pub audio_packet_count : ℕ
  pub peer_ip : List ℕ

abbrev pub no_bytes : List ℕ → Bool
no_bytes [] = true
no_bytes (b ∷ bs) = false

-- Audio, or a retransmit reply on the control socket
unfoldable pub is_audio : Socket → List ℕ → Result Bool
is_audio audio_socket bs = ok true
is_audio control_socket bs =
    if ltb (length bs) 2 then ok false else (read bs 1 >>= λ kind. ok (kind % 128 == 0x56))
is_audio timing_socket bs = ok false

-- Nothing, or a packet from another address than `peer_ip`, if that is set
abbrev pub is_skipped : List ℕ → Endpoint → List ℕ → Bool
is_skipped peer_ip peer bs = no_bytes bs || (not (no_bytes peer_ip) && not (str_eq peer.ip peer_ip))

-- The call for a datagram that is no audio
abbrev pub other_event : Socket → Endpoint → List ℕ → List Event
other_event audio_socket peer bs = []
other_event control_socket peer bs = control bs ∷ []
other_event timing_socket peer bs = timing bs peer ∷ []

unfoldable pub handle : Socket → Receiver → Endpoint → List ℕ → Result (Receiver × List Event)
handle s r peer bs = do
  plays ← is_audio s bs
  (if plays
      then (recover [] (parse_packet bs) (λ p. ok (audio p ∷ [])) >>= λ events.
          ok (record r { audio_packet_count = (r.audio_packet_count + 1) % 2 ^ 32 }, events))
      else ok (r, other_event s peer bs))

-- The loop over at most `n` datagrams: whether there was no error, the receiver, the calls, and what is
-- left at the socket. A socket that has nothing more times out.
unfoldable pub receive_batch :
    ℕ → Socket → Receiver → List Udp → Result (Bool × Receiver × List Event × List Udp)
receive_batch zero s r queue = ok (true, r, [], queue)
receive_batch (suc n) s r [] = ok (true, r, [], [])
receive_batch (suc n) s r (nothing_more ∷ queue) = ok (true, r, [], queue)
receive_batch (suc n) s r (broken ∷ queue) = ok (false, r, [], queue)
receive_batch (suc n) s r (datagram peer bs ∷ queue) =
    let skipped = receive_batch n s r queue in
    if is_skipped r.peer_ip peer bs
    then skipped
    else handle s r peer bs >>= λ (r', events).
        receive_batch n s r' queue >>= λ (fine, r'', more, left).
        ok (fine, r'', events ++ more, left)

-- The batch of a socket that is ready
abbrev pub batch_if :
    Bool → Socket → Receiver → List Udp → Result (Bool × Receiver × List Event × List Udp)
batch_if ready s r queue = if ready then receive_batch 32 s r queue else ok (true, r, [], queue)

-- What `net_wait` returns: a negative number, 0, or which of the sockets are ready
pub data Wait : Type 0 where
  wait_failed idle : Wait
  ready : Bool → Bool → Bool → Wait

-- `rtp_receiver_poll`: timing, control, audio; false is -1.
unfoldable pub poll :
    Receiver → Wait → List Udp → List Udp → List Udp → Result (Bool × Receiver × List Event)
poll r wait_failed audios controls timings = ok (false, r, [])
poll r idle audios controls timings = ok (true, r, [])
poll r (ready for_audio for_control for_timing) audios controls timings = do
  (fine, r₁, first, _) ← batch_if for_timing timing_socket r timings
  (if not fine then ok (false, r₁, first) else (do
    (fine', r₂, second, _) ← batch_if for_control control_socket r₁ controls
    (if not fine' then ok (false, r₂, first ++ second) else (do
      (fine'', r₃, third, _) ← batch_if for_audio audio_socket r₂ audios
      ok (fine'', r₃, first ++ (second ++ third))))))

-- The open sockets of a receiver
pub record Sockets : Type 0 where
  pub audio_open : Bool
  pub control_open : Bool
  pub timing_open : Bool

-- `rtp_receiver_create` for ports of which 0 stands for no socket, and whether net_udp_bind succeeds for
-- each; a failure closes every socket.
unfoldable pub create : ℕ → ℕ → ℕ → Bool → Bool → Bool → Result (Sockets × Receiver)
create audio_port control_port timing_port binds_audio binds_control binds_timing = do
  guard (audio_port == 0 || binds_audio)
  guard (control_port == 0 || binds_control)
  guard (timing_port == 0 || binds_timing)
  ok (
    record {
      audio_open = not (audio_port == 0);
      control_open = not (control_port == 0);
      timing_open = not (timing_port == 0);
    },
    record { audio_packet_count = 0; peer_ip = [] },
  )

-- `rtp_receiver_close`
unfoldable pub close : Sockets → Sockets
close s = record { audio_open = false; control_open = false; timing_open = false }
