-- ===== src/Ptp/Tests.antt =====
-- Runs of shared/sync/ptp_sync.c on concrete messages, and uses of its theorems.
use protable_airplay.Base.{
  ℕ, ◌+◌, ◌*◌, ◌/◌, ◌%◌, ◌^◌, ◌≤◌, ◌≡◌, ◌≢◌, refl, true, List, ◌∷◌, ◌++◌, replicate, arith, checked,
  Result, ok, fail, fault, be, be_loop, be_bytes, Yields, read, read_be, read_be_loop, str_eq,
}
use protable_airplay.Base.Int.{ℤ, pos, ◌+ℤ◌, ◌-ℤ◌, quot, times}
use protable_airplay.Rtp.{slice}
use protable_airplay.Ptp.{
  Ptp, Outcome, accepted, ignored, invalid, Anchor, init, set_clock, packet, is_message, message,
  sample, filter, deadline, datagram,
}
use protable_airplay.Ptp.Bounds.{IsValid, packet-Yields}
use protable_airplay.Ptp.Exchange.{Pair, sampled, pair_offset, packet-Pair}
use protable_airplay.Ptp.Playback.{IsForeign, deadline_spacing, packet-overflow}

-- A message of clock 77: its kind, flags, correction in microseconds, sequence number and time
abbrev message_bytes : ℕ → ℕ → ℕ → ℕ → ℕ → ℕ → List ℕ
message_bytes kind flags correction sequence seconds nanoseconds =
    kind
    ∷ 2
    ∷ 0
    ∷ 44
    ∷ 0
    ∷ 0
    ∷ flags
    ∷ 0
    ∷ (be_bytes (correction * 65536000) 8
        ++ (replicate 4 0
            ++ (be_bytes 77 8
                ++ (0
                    ∷ 1
                    ∷ (be_bytes sequence 2
                        ++ (0 ∷ 0 ∷ (be_bytes seconds 6 ++ be_bytes nanoseconds 4)))))))

abbrev sync : List ℕ
sync = message_bytes 0 2 3 9 0 0

abbrev follow : List ℕ
follow = message_bytes 8 0 4 9 100 5000000

abbrev listening : Ptp
listening = record init { clock_id = 77 }

abbrev outcome_of : Result (Outcome × Ptp) → Outcome × ℤ
outcome_of (ok (r, p)) = (r, p.offset_us)
outcome_of fail = (invalid, pos 0)
outcome_of fault = (invalid, pos 1)

abbrev state_of : Result (Outcome × Ptp) → Ptp
state_of (ok (r, p)) = p
state_of fail = init
state_of fault = init

-- 100.005 s and the corrections of 3 and 4 us, less the local 90 s
two_step :
    outcome_of (packet (state_of (packet listening sync 90000000)) follow 90400000)
    ≡ (accepted, pos 10005007)
unfolding packet is_message message sample filter slice read read_be read_be_loop checked str_eq
    be_bytes quot ◌+ℤ◌ ◌-ℤ◌
two_step = refl

-- A Follow_Up more than a second behind its Sync is ignored.
late :
    outcome_of (packet (state_of (packet listening sync 90000000)) follow 91000001)
    ≡ (ignored, pos 0)
unfolding packet is_message message sample filter slice read read_be read_be_loop checked str_eq
    be_bytes quot ◌+ℤ◌ ◌-ℤ◌
late = refl

chosen : set_clock init 77 ≡ listening
unfolding set_clock
chosen = refl

listening-IsValid : IsValid listening
listening-IsValid = record {
  offset_bound = omega arith;
  correction_bound = omega arith;
  received_bound = omega arith;
}

seconds_of_follow : be follow 34 6 ≤ 2 ^ 41
unfolding be be_loop be_bytes
seconds_of_follow = omega arith

packet-Yields_example : Yields (λ r. IsValid r.1) (packet listening follow 90400000)
packet-Yields_example =
    packet-Yields listening follow 90400000 listening-IsValid (omega arith) seconds_of_follow

pair : Pair listening sync follow 90000000 90400000
unfolding be be_loop be_bytes
pair = record {
  sync_shaped = refl;
  follow_shaped = refl;
  sync_ours = refl;
  follow_ours = refl;
  sync_kind = refl;
  follow_kind = refl;
  two_steps = refl;
  sequence = refl;
  domain = refl;
  source = refl;
  timed = refl;
  in_order = omega arith;
  in_time = omega arith;
  clock_bound = omega arith;
}

packet-Pair_example :
    (p' : Ptp) × (packet listening sync 90000000 ≡ ok (ignored, p'))
    × (packet p' follow 90400000
        ≡ ok (accepted, sampled p' (pair_offset sync follow 90000000) 90400000))
packet-Pair_example = packet-Pair listening sync follow 90000000 90400000 pair refl

follow-IsForeign : IsForeign 78 (datagram follow 5)
unfolding be be_loop be_bytes
follow-IsForeign = refl

other_clock : listening.clock_id ≢ 78
other_clock = λ e. absurd (omega (arith, e))

abbrev running : Ptp
running = sampled listening (pos 10005007) 90400000

abbrev start_anchor : Anchor
start_anchor = record {
  clock_id = 77;
  network_us = 100000000;
  rtp_time = 4294967000;
  valid = true;
  playing = true;
}

frame_zero : deadline running start_anchor 4294967000 44100 11025 90400000 ≡ ok 90244993
unfolding deadline checked quot times ◌+ℤ◌ ◌-ℤ◌
frame_zero = refl

deadline_spacing_example :
    (e : ℕ) × (deadline running start_anchor ((4294967000 + 44100) % 2 ^ 32) 44100 11025 90400000
      ≡ ok e)
    × (e + (0 + 11025) * 1000000 / 44100 ≡ 90244993 + (44100 + 11025) * 1000000 / 44100)
deadline_spacing_example =
    deadline_spacing running start_anchor 0 44100 44100 11025 90400000 90244993 refl (omega arith)
      (omega arith) (omega arith) (omega arith) (omega arith) (omega arith) frame_zero

-- A one-step Sync at the last second that the code accepts
abbrev last_sync : List ℕ
last_sync = message_bytes 0 0 1000000 9 9223372036854 700000000

packet-overflow_example : packet listening last_sync 90000000 ≡ fault
unfolding be be_loop be_bytes quot
packet-overflow_example =
    packet-overflow listening last_sync 90000000 1000000 refl refl refl refl (omega arith)
      (omega arith) refl (omega arith)
