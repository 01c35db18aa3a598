-- ===== src/Ptp/Playback.antt =====
-- Deadlines of shared/sync/ptp_sync.c, and what a change of the sender's clock does to them.
use native.Mathlib.Nat.{div-le_self, div-mul-le_self, le-div_iff_mul-le}
use protable_airplay.Base.{
  ℕ, zero, suc, ◌+◌, ◌-◌, ◌*◌, ◌/◌, ◌%◌, ◌^◌, ◌≤◌, ◌<◌, ◌≡◌, ◌≢◌, refl, sym, ◌∙◌, Bool, true, false,
  ◌||◌, not, List, [], ◌∷◌, ltb, leb, ◌==◌, length, arith, checked, checked_lem, checked-fault,
  IsWithin, IsInt64, All, ok, fail, fault, ◌>>◌, guard, read_be_lem, be, get_or,
}
use protable_airplay.Base.Int.{
  ℤ, pos, pos_part, ◌+ℤ◌, ◌-ℤ◌, ltb_ℤ, signed64, ahead, times-pos, quot-pos, add-pos,
}
use protable_airplay.Ptp.{
  Ptp, Anchor, sample, packet, set_clock, is_usable, deadline, Receipt, timeout, error, datagram,
  batch,
}
use protable_airplay.Ptp.Bounds.{shaped, is_ours, shaped-length}
use protable_airplay.Ptp.Exchange.{
  kind_of, clock_of, time_of, correction_of, packet_lem, message_lem, packet-foreign,
}

signed64-small : (n : ℕ) → n < 2 ^ 63 → signed64 n ≡ pos n
signed64-small n h = ground arith

start_bound :
    (network : ℕ) (offset : ℤ)
    → network < 2 ^ 61
    → IsWithin (2 ^ 61) offset
    → IsWithin (2 ^ 62) (pos network -ℤ offset)
unfolding ◌-ℤ◌
start_bound network offset h k = ground arith

start-IsInt64 : (a : ℤ) → IsWithin (2 ^ 62) a → IsInt64 a
start-IsInt64 a h = omega arith

local-IsInt64 : (a : ℤ) (n : ℕ) → IsWithin (2 ^ 62) a → n < 2 ^ 61 → IsInt64 (a +ℤ pos n)
unfolding ◌+ℤ◌
local-IsInt64 a n h k = ground arith

-- The time of frame `k` behind the anchor, before the test for its sign
abbrev pub due_at : Ptp → Anchor → ℕ → ℕ → ℕ → ℤ
due_at p a k rate latency =
    (pos a.network_us -ℤ p.offset_us) +ℤ pos ((k + latency) * 1000000 / rate)

deadline_lem :
    (p : Ptp) (a : Anchor) (k rate latency now : ℕ)
    → is_usable p a rate now ≡ true
    → a.network_us < 2 ^ 61
    → IsWithin (2 ^ 61) p.offset_us
    → a.rtp_time < 2 ^ 32
    → k < 2 ^ 31
    → latency < 2 ^ 32
    → deadline p a ((a.rtp_time + k) % 2 ^ 32) rate latency now ≡ (
        guard (not (ltb_ℤ (due_at p a k rate latency) (pos 0)))
        >> ok (pos_part (due_at p a k rate latency)))
unfolding deadline
deadline_lem p a k rate latency now u n o r h l = simp (
  u,
  ahead a.rtp_time k r h,
  add-pos,
  times-pos,
  quot-pos,
  signed64-small a.network_us (omega arith),
  checked_lem (pos a.network_us -ℤ p.offset_us) (start-IsInt64 _ start),
  checked_lem (due_at p a k rate latency) (local-IsInt64 _ _ start frames),
)
  where
    start : IsWithin (2 ^ 62) (pos a.network_us -ℤ p.offset_us)
    start = start_bound a.network_us p.offset_us n o

    frames : (k + latency) * 1000000 / rate < 2 ^ 61
    frames = omega (arith, div-le_self ((k + latency) * 1000000) rate)

div_mono : (m n k : ℕ) → 0 < k → m ≤ n → m / k ≤ n / k
div_mono m n k h l = (le-div_iff_mul-le h).1 (omega (arith, div-mul-le_self m k))

rising :
    (x : ℤ) (m n d : ℕ)
    → m ≤ n
    → (guard (not (ltb_ℤ (x +ℤ pos m) (pos 0))) >> ok (pos_part (x +ℤ pos m))) ≡ ok d
    → (e : ℕ) × ((guard (not (ltb_ℤ (x +ℤ pos n) (pos 0))) >> ok (pos_part (x +ℤ pos n))) ≡ ok e)
      × (e + m ≡ d + n)
unfolding ◌+ℤ◌
rising x m n d h e = (d + (n - m), ground arith, omega arith)

-- With a usable clock and anchor, whenever frame `k` behind the anchor has a deadline, so has a later
-- frame `j`, and it is later by the frames between them in microseconds, each counted from the anchor and
-- rounded down. RTP times may wrap on the way. The anchor's time and the offset are below 2 ^ 61, and
-- frames are less than 2 ^ 31 behind the anchor.
pub deadline_spacing :
    (p : Ptp) (a : Anchor) (k j rate latency now d : ℕ)
    → is_usable p a rate now ≡ true
    → a.network_us < 2 ^ 61
    → IsWithin (2 ^ 61) p.offset_us
    → a.rtp_time < 2 ^ 32
    → k ≤ j
    → j < 2 ^ 31
    → latency < 2 ^ 32
    → deadline p a ((a.rtp_time + k) % 2 ^ 32) rate latency now ≡ ok d
    → (e : ℕ) × (deadline p a ((a.rtp_time + j) % 2 ^ 32) rate latency now ≡ ok e)
      × (e + (k + latency) * 1000000 / rate ≡ d + (j + latency) * 1000000 / rate)
deadline_spacing p a k j rate latency now d u n o r h i l x =
    let (e, y, z) =
      rising (pos a.network_us -ℤ p.offset_us) _ _ d
        (div_mono _ _ rate (ground arith) (omega arith))
        (sym (deadline_lem p a k rate latency now u n o r (omega arith) l) ∙ x) in
    (e, deadline_lem p a j rate latency now u n o r i l ∙ y, z)

-- Only messages of other clocks, and time-outs
abbrev pub IsForeign : ℕ → Receipt → Type 0
IsForeign clock timeout = Unit {0}
IsForeign clock error = Unit {0}
IsForeign clock (datagram bs now) = (not (clock_of bs == clock)) ≡ true

batch-foreign :
    (n : ℕ) (p : Ptp) (rs : List Receipt)
    → All (IsForeign p.clock_id) rs
    → (fine : Bool) × (rest : List Receipt) × (batch n p rs ≡ ok (fine, p, rest))
unfolding batch
batch-foreign zero p rs h = (true, rs, refl)
batch-foreign (suc n) p [] h = (true, [], refl)
batch-foreign (suc n) p (timeout ∷ rs) h = (true, rs, refl)
batch-foreign (suc n) p (error ∷ rs) h = (false, rs, refl)
batch-foreign (suc n) p (datagram bs now ∷ rs) h =
    let (r, e) = packet-foreign p bs now (ground arith) in
    let (fine, rest, f) = batch-foreign n p rs h.1 in (fine, rest, rw e f)

-- After a change of the clock, and any batch of messages of other clocks, there is no deadline, whatever
-- the anchor: no sample of the old clock is used for the new one.
pub set_clock-batch :
    (n : ℕ) (p : Ptp) (clock : ℕ) (rs : List Receipt)
    → p.clock_id ≢ clock
    → All (IsForeign clock) rs
    → (p' : Ptp) × (fine : Bool) × (rest : List Receipt) × (batch n (set_clock p clock) rs
        ≡ ok (fine, p', rest))
      × ((a : Anchor) (timestamp rate latency now : ℕ)
          → deadline p' a timestamp rate latency now ≡ fail)
unfolding set_clock deadline
set_clock-batch n p clock rs h k = rw (changed p.clock_id clock h) (
    let (fine, rest, e) =
      batch-foreign n (record p { clock_id = clock; pending = false; ready = false }) rs k in
    (_, fine, rest, e, λ a t r l now. refl))
  where
    changed : (a b : ℕ) → a ≢ b → (a == b) ≡ false
    changed a b g = ground arith

-- The bound on the seconds, INT64_MAX / 1000000, leaves no room for the correction: a one-step Sync of the
-- chosen clock, whose time is below 2 ^ 63 microseconds and whose correction takes it there, overflows.
pub packet-overflow :
    (p : Ptp) (bs : List ℕ) (now c : ℕ)
    → shaped bs ≡ true
    → is_ours p (kind_of bs) (clock_of bs) ≡ true
    → kind_of bs ≡ 0
    → (get_or bs 6 0 / 2 % 2 == 1) ≡ false
    → be bs 40 4 < 1000000000
    → time_of bs < 2 ^ 63
    → correction_of bs ≡ pos c
    → 2 ^ 63 ≤ time_of bs + c
    → packet p bs now ≡ fault
unfolding sample
packet-overflow p bs now c h o k f n t e g =
    packet_lem p bs now h
    ∙ rw (o, k)
        (message_lem p bs 0 now long
          ∙ rw f (
              simp (
                read_be_lem bs 34 6 (omega (arith, long)),
                read_be_lem bs 40 4 (omega (arith, long)),
                in_range,
                time,
                e,
                add-pos,
                over,
              )))
  where
    long : 44 ≤ length bs
    long = shaped-length bs h

    in_range : (leb 1000000000 (be bs 40 4) || ltb 9223372036854 (be bs 34 6)) ≡ false
    in_range = ground arith

    time : signed64 (time_of bs % 2 ^ 64) ≡ pos (time_of bs)
    time = ground arith

    over : checked (pos (time_of bs + c)) ≡ fault
    over = checked-fault _ g
