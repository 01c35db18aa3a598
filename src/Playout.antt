-- ===== src/Playout.antt =====
-- shared/audio/playout.c: the bounded queue that puts compressed packets in sequence order.
pub mod Contents
pub mod Invariant
pub mod Search
pub mod Push
pub mod Peek
pub mod Drain
pub mod Boundary
mod Tests
use protable_airplay.Base.{
  ℕ, ◌+◌, ◌-◌, ◌*◌, ◌%◌, ◌^◌, Bool, true, false, ◌&&◌, ◌||◌, Option, none, some, List, [], ◌∷◌, map,
  ltb, ◌==◌, if◌then◌else◌, length, get_elem?, set,
}
use protable_airplay.Base.Int.{ℤ, pos, negsuc, signed16, signed32, sub16, sub32}
use protable_airplay.Rtp.{RtpHeader, RtpPacket}

-- AIRPLAY_PLAYOUT_PACKETS
abbrev pub playout_packets : ℕ
playout_packets = 512

-- ALAC_MAX_SAMPLES_PER_FRAME and PLAYOUT_PAYLOAD_BYTES
abbrev pub alac_max_samples_per_frame : ℕ
alac_max_samples_per_frame = 352

abbrev pub playout_payload_bytes : ℕ
playout_payload_bytes = alac_max_samples_per_frame * 4 + 64

-- `playout_packet_t`; `payload` is the part of the array that `length` covers.
pub record Slot : Type 0 where
  pub header : RtpHeader
  pub length : ℕ
  pub payload : List ℕ
  pub valid : Bool

-- `playout_t`, with its int flags as booleans
pub record Playout : Type 0 where
  pub packets : List Slot
  pub next_sequence : ℕ
  pub count : ℕ
  pub started : Bool
  pub have_sequence : Bool
  pub have_floor : Bool
  pub floor_exclusive : Bool
  pub timestamp_floor : ℕ

-- `queue->packets[i].valid = 0`
abbrev pub clear : Slot → Slot
clear s = record s { valid = false }

unfoldable pub reset : Playout → Playout
reset q = record q {
  packets = map clear q.packets;
  count = 0;
  next_sequence = 0;
  started = false;
  have_sequence = false;
  have_floor = false;
}

unfoldable pub set_floor : Playout → ℕ → Bool → Playout
unfolding reset
set_floor q timestamp exclusive = record (reset q) {
  timestamp_floor = timestamp;
  floor_exclusive = exclusive;
  have_floor = true;
}

-- The results 1, 0 and -1 of `playout_push`
pub data Status : Type 0 where
  accepted ignored refused : Status

abbrev pub is_negative : ℤ → Bool
is_negative (pos n) = false
is_negative (negsuc n) = true

abbrev pub is_zero : ℤ → Bool
is_zero (pos n) = n == 0
is_zero (negsuc n) = false

-- The packet lies before the floor of the last RECORD or FLUSH.
unfoldable pub below_floor : Playout → RtpPacket → Bool
below_floor q p = q.have_floor && (is_negative delta || (is_zero delta && q.floor_exclusive))
  where
    delta : ℤ
    delta = signed32 (sub32 p.header.timestamp q.timestamp_floor)

-- `(int16_t)(sequence - queue->next_sequence) < 0`
unfoldable pub is_behind : Playout → RtpPacket → Bool
is_behind q p = is_negative (signed16 (sub16 p.header.sequence q.next_sequence))

-- The loop of `playout_push`: it finds the sequence, or the first free slot.
pub data Scan : Type 0 where
  duplicate : Scan
  vacant : Option ℕ → Scan

abbrev pub or_else : Option ℕ → ℕ → Option ℕ
or_else none i = some i
or_else (some j) i = some j

unfoldable pub scan : List Slot → ℕ → ℕ → Option ℕ → Scan
scan [] sequence i slot = vacant slot
scan (s ∷ rest) sequence i slot =
    let others = scan rest sequence (i + 1) (if s.valid then slot else or_else slot i) in
    if s.valid && s.header.sequence == sequence then duplicate else others

abbrev pub filled : RtpPacket → Slot
filled p = record {
  header = p.header;
  length = length p.payload;
  payload = p.payload;
  valid = true;
}

-- What `playout_push` does once slot `i` is chosen. `++queue->count` is on an unsigned.
unfoldable pub store : Playout → RtpPacket → ℕ → Playout
unfolding is_behind
store q p i = record q {
  next_sequence =
      if not_set || (not_started && is_behind q p) then p.header.sequence else q.next_sequence;
  have_sequence = true;
  packets = set q.packets i (filled p);
  count = (q.count + 1) % 2 ^ 32;
}
  where
    not_set : Bool
    not_set = if q.have_sequence then false else true

    not_started : Bool
    not_started = if q.started then false else true

abbrev pub place : Playout → RtpPacket → Scan → Status × Playout
place q p duplicate = (ignored, q)
place q p (vacant none) = (refused, q)
place q p (vacant (some i)) = (accepted, store q p i)

unfoldable pub push : Playout → RtpPacket → Status × Playout
unfolding below_floor is_behind scan store
push q p =
    if length p.payload == 0 || ltb playout_payload_bytes (length p.payload)
    then (refused, q)
    else if below_floor q p
    then (ignored, q)
    else if q.have_sequence && q.started && is_behind q p
    then (ignored, q)
    else place q p (scan q.packets p.header.sequence 0 none)

-- `(uint16_t)(slot->header.sequence - queue->next_sequence)`
abbrev pub distance : ℕ → Slot → ℕ
distance next s = sub16 s.header.sequence next

abbrev pub closer : ℕ → Slot → Option (ℕ × Slot) → Bool
closer next s none = true
closer next s (some (j, first)) = ltb (distance next s) (distance next first)

-- The loop of `playout_peek`; `first` is a slot beside its index.
unfoldable pub peek_loop : List Slot → ℕ → ℕ → Option (ℕ × Slot) → Option (ℕ × Slot)
peek_loop [] i next first = first
peek_loop (s ∷ rest) i next first =
    peek_loop rest (i + 1) next (if s.valid && closer next s first then some (i, s) else first)

-- The pointer that `playout_peek` returns, as the slot's index with the slot
unfoldable pub peek : Playout → Option (ℕ × Slot)
unfolding peek_loop
peek q = peek_loop q.packets 0 q.next_sequence none

-- The writes of `playout_pop` through the pointer to slot `i`. `--queue->count` wraps.
abbrev pub take_out : Playout → ℕ → Slot → Playout
take_out q i s = record q {
  next_sequence = (s.header.sequence + 1) % 2 ^ 16;
  started = true;
  have_floor = false;
  packets = set q.packets i (clear s);
  count = (q.count + 2 ^ 32 - 1) % 2 ^ 32;
}

-- `playout_pop` of a slot of the array; `none` is a pointer outside the array.
unfoldable pub pop : Playout → ℕ → Option Playout
pop q i = elim (get_elem? q.packets i) [ none ↦ none | some s ↦ some (take_out q i s) ]
