-- ===== src/Buffered.antt =====
-- shared/audio/buffered_audio.c: length-prefixed audio records over one TCP connection.
pub mod Records
pub mod Receive
pub mod Poll
pub mod Admission
pub mod Framing
pub mod Sequence
mod Tests
use protable_airplay.Base.{
  ℕ, ◌+◌, ◌-◌, ◌*◌, ◌%◌, ◌^◌, Bool, true, false, ◌&&◌, ◌||◌, not, Option, none, some, List, [], ◌∷◌,
  ◌++◌, ltb, leb, ◌==◌, if◌then◌else◌, length, take, drop, replicate, str_eq, Result, ok, fail,
  fault, ◌>>=◌, read_be,
}
use protable_airplay.Base.Int.{sub32}
use protable_airplay.Rtp.{RtpHeader, RtpPacket, slice}

-- RTP_BUFFER_SIZE, and the size of `data`
abbrev pub rtp_buffer_size : ℕ
rtp_buffer_size = 4096

abbrev pub data_size : ℕ
data_size = rtp_buffer_size + 2

-- `buffered_audio_t`. A socket is its handle, and `none` is NET_SOCKET_INIT.
pub record Buffered : Type 0 where
  pub listener : Option ℕ
  pub client : Option ℕ
  pub bytes : List ℕ
  pub used : ℕ
  pub discard_sequence : ℕ
  pub discarding : Bool

-- What the client's socket has in store: each call of `net_tcp_recv` takes from the head.
pub data Arrival : Type 0 where
  nothing_yet closed : Arrival
  received : List ℕ → Arrival

-- What `net_tcp_accept` returns, with the handle and the address of the peer
pub data Accept : Type 0 where
  no_peer accept_error : Accept
  peer : ℕ → List ℕ → Accept

-- The results 0, 1 and -1 of `buffered_audio_poll`
pub data Status : Type 0 where
  idle progressed error : Status

unfoldable pub init : Buffered
init = record {
  listener = none;
  client = none;
  bytes = replicate data_size 0;
  used = 0;
  discard_sequence = 0;
  discarding = false;
}

-- `net_tcp_listen` gives the listener's handle, or fails and leaves the socket closed.
unfoldable pub open_listener : Buffered → Option ℕ → Result Buffered
open_listener b none = fail
open_listener b (some handle) = ok (record b { listener = some handle })

unfoldable pub disconnect : Buffered → Buffered
disconnect b = record b { client = none; used = 0; discarding = false }

-- `until_sequence & 0xffffff`
unfoldable pub flush : Buffered → ℕ → Buffered
flush b until_sequence = record b { discard_sequence = until_sequence % 2 ^ 24; discarding = true }

unfoldable pub close : Buffered → Buffered
unfolding disconnect
close b = record (disconnect b) { listener = none }

-- One step of a poll: it returns, or it goes on.
pub record Outcome : Type 0 where
  pub state : Buffered
  pub rest : List Arrival
  pub status : Status
  pub delivered : Option RtpPacket

pub data Step : Type 0 where
  stop : Outcome → Step
  next : Buffered → List Arrival → Step

infixl 5 ◌then◌
abbrev pub ◌then◌ : Result Step → (Buffered → List Arrival → Result Step) → Result Step
fail then f = fail
fault then f = fault
ok (stop o) then f = ok (stop o)
ok (next b s) then f = f b s

abbrev pub leave : Buffered → List Arrival → Status → Result Step
leave b s r = ok (stop (record { state = b; rest = s; status = r; delivered = none }))

pub accept_new : Buffered → List ℕ → List Arrival → Accept → Result Step
unfolding disconnect
accept_new b ip s no_peer = leave b s idle
accept_new b ip s accept_error = leave b s error
accept_new b ip s (peer handle address) =
    let b' = record b { client = some handle } in
    if str_eq ip [] || not (str_eq address ip) then leave (disconnect b') s idle else ok (next b' s)

pub accept : Buffered → List ℕ → List Arrival → Accept → Result Step
unfolding accept_new
accept b ip s a = elim b.client [ none ↦ accept_new b ip s a | some handle ↦ ok (next b s) ]

-- `n` bytes more at `data + used`
abbrev pub fill : Buffered → List ℕ → Buffered
fill b chunk = record b {
  bytes = take b.used b.bytes ++ (chunk ++ drop (b.used + length chunk) b.bytes);
  used = b.used + length chunk;
}

pub take_arrival : Buffered → ℕ → List Arrival → Result Step
unfolding disconnect
take_arrival b capacity [] = leave b [] idle
take_arrival b capacity (nothing_yet ∷ rest) = leave b rest idle
take_arrival b capacity (closed ∷ rest) = leave (disconnect b) rest idle
take_arrival b capacity (received [] ∷ rest) = leave (disconnect b) rest idle
take_arrival b capacity (received (x ∷ xs) ∷ rest) =
    if ltb capacity (length (x ∷ xs))
    then ok (next (fill b (take capacity (x ∷ xs))) (received (drop capacity (x ∷ xs)) ∷ rest))
    else ok (next (fill b (x ∷ xs)) rest)

-- `net_tcp_recv(&b->client, b->data + b->used, capacity, 0)` and what the poll does at once with a
-- timeout, an error or the end of the stream. A buffer that ends before the capacity is a fault. Of
-- more bytes than the capacity the rest stays in the socket.
pub receive : Buffered → ℕ → List Arrival → Result Step
receive b capacity s =
    if ltb (length b.bytes) (b.used + capacity) then fault else take_arrival b capacity s

-- The two bytes of the length
pub receive_length : Buffered → List Arrival → Result Step
receive_length b s =
    if ltb b.used 2
    then receive b (2 - b.used) s
    then (λ b' s'. if ltb b'.used 2 then leave b' s' idle else ok (next b' s'))
    else ok (next b s)

-- `!distance || distance >= 0x800000`, of the distance modulo 2 ^ 24 from the flush boundary
abbrev pub is_discarded : ℕ → ℕ → Bool
is_discarded boundary sequence = distance == 0 || leb 0x800000 distance
  where
    distance : ℕ
    distance = sub32 sequence boundary % 2 ^ 24

abbrev pub packet_of : ℕ → ℕ → ℕ → List ℕ → RtpPacket
packet_of sequence timestamp ssrc payload = record {
  header = record {
    version = 2;
    padding = 0;
    extension = 0;
    csrc_count = 0;
    marker = 0;
    payload_type = 96;
    sequence = sequence % 2 ^ 16;
    timestamp = timestamp;
    ssrc = ssrc;
  };
  payload = payload;
}

-- A complete record of `need` bytes. `data + 2` is the packet, so its byte `i` is byte `i + 2`.
pub deliver : Buffered → ℕ → List Arrival → Result Step
deliver b need s = do
  sequence ← read_be b.bytes 3 3
  (if b.discarding && is_discarded b.discard_sequence sequence
      then leave (record b { used = 0 }) s progressed
      else (do
        timestamp ← read_be b.bytes 6 4
        ssrc ← read_be b.bytes 10 4
        payload ← slice b.bytes 14 (need - 14)
        ok (
            stop (record {
              state = record b { used = 0; discarding = false };
              rest = s;
              status = progressed;
              delivered = some (packet_of sequence timestamp ssrc payload);
            }))))

pub receive_record : Buffered → List Arrival → Result Step
receive_record b s = do
  need ← read_be b.bytes 0 2
  (if ltb need 38 || ltb data_size need
      then leave (disconnect b) s idle
      else (receive b (need - b.used) s
          then (λ b' s'. if ltb b'.used need then leave b' s' idle else deliver b' need s')))

-- `buffered_audio_poll` with the sender's address `ip`; the callback's packet is `delivered`.
pub poll : Buffered → List ℕ → List Arrival → Accept → Result Step
poll b ip s a = accept b ip s a then receive_length then receive_record
