-- ===== src/Playout/Invariant.antt =====
-- The representation invariant of `playout_t` in shared/audio/playout.c.
use protable_airplay.Base.{
  ℕ, ◌^◌, ◌≤◌, ◌<◌, ◌≡◌, sym, ◌∙◌, Bool, true, false, [], arith, length, length-map, All,
}
use protable_airplay.Playout.{
  Playout, Slot, playout_packets, playout_payload_bytes, clear, reset, set_floor,
}
use protable_airplay.Playout.Contents.{
  contents, contents-clear, used, Distinct, used-clear, Distinct-clear, All-map-clear,
}

-- A valid slot has a 16-bit sequence number, and its length is that of a payload that fits the array.
abbrev pub SlotOk : Slot → Type 0
SlotOk s =
    s.valid ≡ true
    → (s.header.sequence < 2 ^ 16)
      × (s.length ≡ length s.payload)
      × (1 ≤ s.length)
      × (s.length ≤ playout_payload_bytes)

pub record IsValid (q : Playout) : Type 0 where
  pub size : length q.packets ≡ playout_packets
  pub counted : q.count ≡ used q.packets
  pub distinct : Distinct q.packets
  pub slots : All SlotOk q.packets
  pub next_in : q.next_sequence < 2 ^ 16
  pub known : q.have_sequence ≡ false → used q.packets ≡ 0

-- `playout_reset` of an array of the right size, whatever was in it, gives a valid queue with nothing in it.
pub reset-IsValid :
    (q : Playout)
    → length q.packets ≡ playout_packets
    → IsValid (reset q) × (contents (reset q).packets ≡ [])
unfolding reset
reset-IsValid q h = (
  record {
    size = length-map q.packets clear ∙ h;
    counted = sym (used-clear q.packets);
    distinct = Distinct-clear q.packets;
    slots = All-map-clear SlotOk q.packets (λ s e. cc);
    next_in = omega arith;
    known = λ _. used-clear q.packets;
  },
  contents-clear q.packets,
)

pub set_floor-IsValid :
    (q : Playout) (timestamp : ℕ) (exclusive : Bool)
    → length q.packets ≡ playout_packets
    → IsValid (set_floor q timestamp exclusive)
unfolding set_floor
set_floor-IsValid q timestamp exclusive h =
    let v = (reset-IsValid q h).0 in
    record {
      size = v.size;
      counted = v.counted;
      distinct = v.distinct;
      slots = v.slots;
      next_in = v.next_in;
      known = v.known;
    }
