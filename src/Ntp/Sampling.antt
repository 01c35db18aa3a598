-- ===== src/Ntp/Sampling.antt =====
-- What becomes of a request of shared/sync/ntp_sync.c: a peer's answer, and the code's own reply.
use protable_airplay.Base.{
  ℕ, ◌^◌, ◌≤◌, ◌<◌, ◌≡◌, refl, ap₂, ◌∙◌, true, false, List, ◌∷◌, ◌++◌, replicate, drop, arith, ok,
  fail, read, be, be_loop, le→ltb_false,
}
use protable_airplay.Rtp.{slice}
use protable_airplay.Ntp.{
  Timestamp, NtpSync, write_time, from_us, request, request_packet, due, same_time, process_packet,
  reply,
}
use protable_airplay.Ntp.Exchange.{time_at, judged, judged_other, process_packet-judged}

-- What a peer sends back: the time of the request, when it arrived and when the answer leaves
abbrev pub answer : List ℕ → Timestamp → Timestamp → List ℕ
answer packet received sent =
    0x80
    ∷ 0xd3
    ∷ 0
    ∷ 7
    ∷ (replicate 4 0 ++ (drop 24 packet ++ (write_time received ++ write_time sent)))

abbrev pub IsTimestamp : Timestamp → Type 0
IsTimestamp t = (t.seconds < 2 ^ 32) × (t.fraction < 2 ^ 32)

from_us-IsTimestamp : (us : ℕ) → IsTimestamp (from_us us)
unfolding from_us
from_us-IsTimestamp us = omega arith

time_at-write_time : (t : Timestamp) → IsTimestamp t → time_at (write_time t) 0 ≡ t
unfolding be be_loop
time_at-write_time t h = λ i. record { seconds = seconds i; fraction = fraction i }
  where
    seconds : (time_at (write_time t) 0).seconds ≡ t.seconds
    seconds = omega arith

    fraction : (time_at (write_time t) 0).fraction ≡ t.fraction
    fraction = omega arith

-- The three time stamps of an answer
time_at-answer :
    (t received sent : Timestamp)
    → IsTimestamp t
    → IsTimestamp received
    → IsTimestamp sent
    → let a = answer (request_packet t) received sent in
      (time_at a 8 ≡ t) × (time_at a 16 ≡ received) × (time_at a 24 ≡ sent)
unfolding be be_loop
time_at-answer t r u h k l =
    (time_at-write_time t h, time_at-write_time r k, time_at-write_time u l)

request_due :
    (s : NtpSync) (now : ℕ)
    → s.next_request_us ≤ now
    → ((request s now).0 ≡ due (request_packet (from_us now)))
      × ((request s now).1.request_pending ≡ true)
      × ((request s now).1.request_time ≡ from_us now)
unfolding request
request_due s now h = rw (le→ltb_false now s.next_request_us h) (refl, refl, refl)

answer-sampled :
    (s : NtpSync) (t received sent : Timestamp) (later : ℕ)
    → s.request_pending ≡ true
    → s.request_time ≡ t
    → IsTimestamp t
    → IsTimestamp received
    → IsTimestamp sent
    → process_packet s (answer (request_packet t) received sent) later
      ≡ judged s true t received sent later
answer-sampled s t received sent later p e h k l =
    process_packet-judged s (answer (request_packet t) received sent) later (omega arith)
    ∙ (let (x, y, z) = time_at-answer t received sent h k l in
        λ i. judged s true (x i) (y i) (z i) later)

-- When it is due, `ntp_sync_request` sends 32 bytes with the time of the call, and the answer of a peer
-- that returns this time makes a sample: at `later` it is accepted exactly if the processing time of
-- the peer is not negative and the round trip is -2 to 500000 microseconds, with half the sum of the
-- offsets at the two ends.
pub request-sampled :
    (s : NtpSync) (now later : ℕ) (received sent : Timestamp)
    → s.next_request_us ≤ now
    → IsTimestamp received
    → IsTimestamp sent
    → ((request s now).0 ≡ due (request_packet (from_us now)))
      × (process_packet
            (request s now).1
            (answer (request_packet (from_us now)) received sent)
            later
          ≡ judged (request s now).1 true (from_us now) received sent later)
request-sampled s now later received sent h k l = (
  (request_due s now h).0,
  answer-sampled (request s now).1 (from_us now) received sent later (request_due s now h).1
      (request_due s now h).2 (from_us-IsTimestamp now) k l,
)

-- `ntp_sync_reply` returns the bytes 8 to 15 of the request, and `ntp_sync_request` leaves them 0: its
-- own reply to such a request is refused, at whatever clock readings, unless the request was sent at the
-- time stamp 0.
pub request-reply_refused :
    (s : NtpSync) (now a b later : ℕ)
    → s.next_request_us ≤ now
    → same_time (record { seconds = 0; fraction = 0 }) (from_us now) ≡ false
    → (r : List ℕ) × (reply (request_packet (from_us now)) a b ≡ ok r)
      × (process_packet (request s now).1 r later ≡ fail)
unfolding reply read slice be
request-reply_refused s now a b later h n = (
  own_reply,
  refl,
  process_packet-judged (request s now).1 own_reply later (omega arith)
      ∙ judged_other (request s now).1 _ _ _ _ later
          (ap₂ same_time spelled (request_due s now h).2 ∙ n),
)
  where
    own_reply : List ℕ
    own_reply =
        0x80 ∷ 0xd3 ∷ 0 ∷ 7 ∷ (replicate 12 0 ++ (write_time (from_us a) ++ write_time (from_us b)))

    spelled : time_at own_reply 8 ≡ record { seconds = 0; fraction = 0 }
    spelled = time_at-write_time (record { seconds = 0; fraction = 0 }) (omega arith, omega arith)
