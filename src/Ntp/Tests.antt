-- ===== src/Ntp/Tests.antt =====
-- Runs of the clock of shared/sync/ntp_sync.c on concrete times and packets, and uses of its theorems.
use protable_airplay.Base.{
  ℕ, ◌≤◌, ◌≡◌, refl, Bool, true, false, List, [], ◌∷◌, arith, Result, ok, fail, fault, read,
  read_be, read_be_loop,
}
use protable_airplay.Base.Int.{ℤ, pos, ◌+ℤ◌, ◌-ℤ◌, ◌≤ℤ◌, quot, times}
use protable_airplay.Ntp.{
  Timestamp, NtpSync, init, same_time, control, rtp_to_ntp, read_time, from_us, diff_us, request,
  request_packet, is_reply, take_sample, process_packet, reply,
}
use protable_airplay.Ntp.Timeline.{frames_us, diff_us-rtp_to_ntp}
use protable_airplay.Ntp.Exchange.{
  process_packet_lem, process_packet-short, process_packet-once, judged_reply,
}
use protable_airplay.Ntp.Sampling.{IsTimestamp, answer, request-reply_refused}

-- A request at 7.5 seconds, answered by a peer whose clock is 2 seconds ahead.
abbrev asked : NtpSync
asked = (request init 7500000).1

abbrev received : Timestamp
received = from_us 9510000

abbrev sent : Timestamp
sent = from_us 9510500

abbrev response : List ℕ
response = answer (request_packet (from_us 7500000)) received sent

received-IsTimestamp : IsTimestamp received
unfolding from_us
received-IsTimestamp = omega arith

sent-IsTimestamp : IsTimestamp sent
unfolding from_us
sent-IsTimestamp = omega arith

sampled : Result NtpSync → ℤ × ℤ × Bool
sampled (ok s) = (s.clock_offset_us, s.rtt_us, s.synchronized)
sampled fail = (pos 0, pos 0, false)
sampled fault = (pos 0, pos 0, false)

offset_of_peer : sampled (process_packet asked response 7520000) ≡ (pos 2000250, pos 19500, true)
unfolding request init from_us process_packet is_reply read read_time read_be take_sample sampled
    diff_us quot times ◌+ℤ◌ ◌-ℤ◌
offset_of_peer = refl

process_packet_lem_example :
    process_packet asked response 7520000 ≡ judged_reply asked response 7520000
process_packet_lem_example = process_packet_lem asked response 7520000 (omega arith)

process_packet-short_example : process_packet asked (0x80 ∷ []) 7520000 ≡ fault
process_packet-short_example = process_packet-short asked (0x80 ∷ []) 7520000 (omega arith)

state_of : Result NtpSync → NtpSync
state_of (ok s) = s
state_of fail = asked
state_of fault = asked

answered :
    process_packet asked response 7520000 ≡ ok (state_of (process_packet asked response 7520000))
unfolding request init from_us process_packet is_reply read read_time read_be take_sample state_of
    diff_us quot times ◌+ℤ◌ ◌-ℤ◌
answered = refl

process_packet-once_example :
    process_packet (state_of (process_packet asked response 7520000)) response 7530000 ≡ fail
process_packet-once_example =
    process_packet-once asked (state_of (process_packet asked response 7520000)) response response
      7520000 7530000 (omega arith) answered (omega arith)

init_due : init.next_request_us ≤ 7500000
unfolding init
init_due = omega arith

not_zero : same_time (record { seconds = 0; fraction = 0 }) (from_us 7500000) ≡ false
unfolding from_us
not_zero = refl

request-reply_refused_example :
    (r : List ℕ) × (reply (request_packet (from_us 7500000)) 9510000 9510500 ≡ ok r)
    × (process_packet (request init 7500000).1 r 7520000 ≡ fail)
request-reply_refused_example =
    request-reply_refused init 7500000 9510000 9510500 7520000 init_due not_zero

-- The anchor of a control packet at RTP time 2 ^ 32 - 100 and NTP time 5000.25 s
abbrev anchored : NtpSync
anchored = record {
  clock_offset_us = pos 0;
  rtt_us = pos 0;
  rtp_base = 4294967196;
  latency_frames = 88200;
  ntp_base = record { seconds = 5000; fraction = 1073741824 };
  request_time = record { seconds = 0; fraction = 0 };
  request_local_us = 0;
  next_request_us = 0;
  best_sample_us = 0;
  requests = 0;
  samples = 0;
  synchronized = false;
  anchor_valid = true;
  request_pending = false;
}

control_packet : List ℕ
control_packet =
    0x80
    ∷ 0xd4
    ∷ 0
    ∷ 4
    ∷ (255 ∷ 255 ∷ 255 ∷ 156 ∷ 0 ∷ 0 ∷ 19 ∷ 136 ∷ 64 ∷ 0 ∷ 0 ∷ 0 ∷ 0 ∷ 1 ∷ 88 ∷ 36 ∷ [])

control_anchors : control init control_packet 44100 ≡ ok anchored
unfolding control control_packet init read read_time read_be read_be_loop
control_anchors = refl

diff_us-rtp_to_ntp_example :
    (pos (frames_us 66150 44100)
      ≤ℤ diff_us anchored.ntp_base (rtp_to_ntp anchored 66050 44100 0) +ℤ pos 1)
    × (diff_us anchored.ntp_base (rtp_to_ntp anchored 66050 44100 0) ≤ℤ pos (frames_us 66150 44100))
diff_us-rtp_to_ntp_example =
    diff_us-rtp_to_ntp anchored 66150 44100 0 refl (omega arith) (omega arith) (omega arith)
      (omega arith) (omega arith)
