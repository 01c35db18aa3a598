-- ===== src/Playout/Tests.antt =====
-- Runs of the queue of shared/audio/playout.c, and its theorems at concrete queues.
use mathlib.Core.List.{Perm}
use protable_airplay.Base.{
  ℕ, ◌≡◌, ◌≢◌, refl, true, false, [], ◌∷◌, arith, replicate, length-replicate, All,
}
use protable_airplay.Rtp.{RtpHeader, RtpPacket}
use protable_airplay.Playout.{
  Playout, Slot, accepted, ignored, refused, playout_packets, reset, set_floor, push, peek, pop,
  take_out, filled,
}
use protable_airplay.Playout.Contents.{contents}
use protable_airplay.Playout.Invariant.{IsValid, reset-IsValid}
use protable_airplay.Playout.Push.{push-Pushed}
use protable_airplay.Playout.Drain.{drain, drain_sorts, Ascending}
use protable_airplay.Playout.Boundary.{FromFloor, pushes, set_floor-pushes, pop-push_stale}

abbrev header : ℕ → ℕ → RtpHeader
header sequence timestamp = record {
  version = 2;
  padding = 0;
  extension = 0;
  csrc_count = 0;
  marker = 0;
  payload_type = 96;
  sequence = sequence;
  timestamp = timestamp;
  ssrc = 1;
}

abbrev packet : ℕ → ℕ → RtpPacket
packet sequence timestamp = record {
  header = header sequence timestamp;
  payload = sequence ∷ timestamp ∷ [];
}

abbrev junk : Slot
junk = record { header = header 7 7; length = 0; payload = []; valid = true }

abbrev zeroed : Playout
zeroed = record {
  packets = replicate playout_packets junk;
  next_sequence = 9;
  count = 3;
  started = true;
  have_sequence = true;
  have_floor = true;
  floor_exclusive = false;
  timestamp_floor = 0;
}

fresh : Playout
fresh = reset zeroed

-- Sequence 0 is pushed first, and 65535 comes before it.
two : Playout
two = (push (push fresh (packet 0 352)).1 (packet 65535 0)).1

fresh-IsValid : IsValid fresh
unfolding fresh
fresh-IsValid = (reset-IsValid zeroed (length-replicate playout_packets junk)).0

two-IsValid : IsValid two
unfolding two
two-IsValid =
    (push-Pushed _ (packet 65535 0)
      (push-Pushed fresh (packet 0 352) fresh-IsValid (omega arith)).valid (omega arith)).valid

drain-two :
    drain two.count two ≡ (header 65535 0, 65535 ∷ 0 ∷ []) ∷ (header 0 352, 0 ∷ 352 ∷ []) ∷ []
unfolding two fresh drain push reset peek pop
drain-two = refl

push_duplicate : (push two (packet 0 704)).0 ≡ ignored
unfolding two fresh push reset
push_duplicate = refl

push_empty : (push two (record { header = header 1 1; payload = [] })).0 ≡ refused
unfolding two fresh push reset
push_empty = refl

drain_sorts_example :
    Perm (drain two.count two) (contents two.packets)
    × Ascending two.next_sequence 0 (drain two.count two)
drain_sorts_example = drain_sorts two two-IsValid

pop-push_stale_example :
    let rest = take_out two 1 (filled (packet 65535 0)) in
    ((push rest (packet 65000 1)).0 ≢ accepted) × ((push rest (packet 65000 1)).1 ≡ rest)
unfolding two fresh push reset pop
pop-push_stale_example =
    pop-push_stale two (take_out two 1 (filled (packet 65535 0))) 1 (filled (packet 65535 0))
      (packet 65000 1) two-IsValid refl refl (omega arith) refl (omega arith) (omega arith)

set_floor-pushes_example :
    All
      (FromFloor 500 true)
      (pushes (set_floor zeroed 500 true) (packet 3 500 ∷ packet 4 852 ∷ [])).packets
set_floor-pushes_example = set_floor-pushes zeroed 500 true (packet 3 500 ∷ packet 4 852 ∷ [])
