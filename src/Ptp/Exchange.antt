-- ===== src/Ptp/Exchange.antt =====
-- Sync and Follow_Up messages in shared/sync/ptp_sync.c: what they do to the clock's state.
use protable_airplay.Base.{
  ℕ, ◌+◌, ◌-◌, ◌*◌, ◌/◌, ◌%◌, ◌^◌, ◌≤◌, ◌<◌, ◌≡◌, refl, sym, subst, ◌∙◌, inl, inr, Bool, true,
  false, ◌&&◌, ◌||◌, not, List, [], ◌∷◌, ltb, leb, ◌==◌, if◌then◌else◌, length, take, drop, arith,
  Bool-cases, checked, checked_lem, IsWithin, str_eq, ok, ◌>>=◌, read_lem, read_be_lem, be, get_or,
}
use protable_airplay.Base.Int.{ℤ, pos, ◌+ℤ◌, ◌-ℤ◌, quot, signed64}
use protable_airplay.Rtp.Safety.{slice_lem}
use protable_airplay.Ptp.{
  Ptp, Outcome, invalid, ignored, accepted, begun, filter, sample, completes, message, packet,
}
use protable_airplay.Ptp.Bounds.{
  shaped, is_ours, is_message_lem, shaped-length, correction_bound, sent_bound, offset_bound,
  small-IsInt64, sum-IsInt64, sum_bound, within-IsInt64,
}

-- The fields of a message
abbrev pub kind_of : List ℕ → ℕ
kind_of bs = get_or bs 0 0 % 16

abbrev pub clock_of : List ℕ → ℕ
clock_of bs = be bs 20 8

abbrev pub source_of : List ℕ → List ℕ
source_of bs = take 10 (drop 20 bs)

abbrev pub correction_of : List ℕ → ℤ
correction_of bs = quot (signed64 (be bs 8 8)) 65536000

-- The sender's time of a message in microseconds
abbrev pub time_of : List ℕ → ℕ
time_of bs = be bs 34 6 * 1000000 + be bs 40 4 / 1000

-- A time that is in range
abbrev pub is_timed : List ℕ → Bool
is_timed bs = leb (be bs 34 6) (2 ^ 41) && ltb (be bs 40 4) 1000000000

pub packet_lem :
    (p : Ptp) (bs : List ℕ) (now : ℕ)
    → shaped bs ≡ true
    → packet p bs now ≡ (
        if is_ours p (kind_of bs) (clock_of bs)
        then message p bs (kind_of bs) now
        else ok (ignored, p))
unfolding packet
packet_lem p bs now h =
    rw
      (
        is_message_lem bs,
        h,
        read_lem bs 0 (omega (arith, shaped-length bs h)),
        read_be_lem bs 20 8 (omega (arith, shaped-length bs h)),
      )
      refl

-- A message of another clock changes nothing, and so does any while no clock is chosen.
pub packet-foreign :
    (p : Ptp) (bs : List ℕ) (now : ℕ)
    → (p.clock_id == 0 || not (clock_of bs == p.clock_id)) ≡ true
    → (r : Outcome) × (packet p bs now ≡ ok (r, p))
unfolding packet
packet-foreign p bs now h = elim (Bool-cases (shaped bs)) [
  | inl e ↦ (ignored, packet_lem p bs now e ∙ rw (foreign (kind_of bs)) refl)
  | inr e ↦ (invalid, rw (is_message_lem bs, e) refl)
]
  where
    foreign : (k : ℕ) → is_ours p k (clock_of bs) ≡ false
    foreign k = ground arith

signed64-small : (n : ℕ) → n < 2 ^ 63 → signed64 n ≡ pos n
signed64-small n h = ground arith

-- The state behind an accepted sample
abbrev pub sampled : Ptp → ℤ → ℕ → Ptp
sampled p offset now = record p {
  offset_us = offset;
  ready = true;
  pending = false;
  updated_us = now;
}

sample_lem :
    (p : Ptp) (bs : List ℕ) (correction : ℤ) (now : ℕ)
    → 44 ≤ length bs
    → is_timed bs ≡ true
    → IsWithin (2 ^ 39) correction
    → p.sync_received_us < 2 ^ 60
    → p.ready ≡ false
    → sample p bs correction now
      ≡ ok (accepted, sampled p ((pos (time_of bs) +ℤ correction) -ℤ pos p.sync_received_us) now)
unfolding sample filter
sample_lem p bs correction now long h k r e = simp (
  read_be_lem bs 34 6 (omega arith),
  read_be_lem bs 40 4 (omega arith),
  in_range,
  time,
  received,
  checked_lem _ (small-IsInt64 _ sent),
  checked_lem _ (within-IsInt64 _ offset),
  e,
)
  where
    in_range : (leb 1000000000 (be bs 40 4) || ltb 9223372036854 (be bs 34 6)) ≡ false
    in_range = ground arith

    time : signed64 (time_of bs % 2 ^ 64) ≡ pos (time_of bs)
    time = ground arith

    received : signed64 p.sync_received_us ≡ pos p.sync_received_us
    received = signed64-small p.sync_received_us (omega arith)

    sent : IsWithin (2 ^ 61 + 2 ^ 60) (pos (time_of bs) +ℤ correction)
    sent =
        subst (λ t. IsWithin (2 ^ 61 + 2 ^ 60) (t +ℤ correction)) time
          (sent_bound (be bs 34 6) (be bs 40 4) correction (ground arith) (ground arith) k)

    offset : IsWithin (2 ^ 62 - 1) ((pos (time_of bs) +ℤ correction) -ℤ pos p.sync_received_us)
    offset =
        subst (λ t. IsWithin (2 ^ 62 - 1) ((pos (time_of bs) +ℤ correction) -ℤ t)) received
          (offset_bound (pos (time_of bs) +ℤ correction) p.sync_received_us sent r)

pub message_lem :
    (p : Ptp) (bs : List ℕ) (kind now : ℕ)
    → 44 ≤ length bs
    → message p bs kind now ≡ (
        if kind == 0
        then (let p' = begun p (be bs 30 2) (get_or bs 4 0) now (source_of bs) (correction_of bs) in
            if get_or bs 6 0 / 2 % 2 == 1
            then ok (ignored, p')
            else sample p' bs (correction_of bs) now)
        else (if completes p (be bs 30 2) (get_or bs 4 0) (source_of bs) now
            then checked (correction_of bs +ℤ p.sync_correction)
              >>= (λ total. sample p bs total now)
            else ok (ignored, p)))
unfolding message
message_lem p bs kind now long =
    rw
      (
        read_be_lem bs 30 2 (omega arith),
        read_be_lem bs 8 8 (omega arith),
        read_lem bs 4 (omega arith),
        slice_lem bs 20 10 (omega arith),
        read_lem bs 6 (omega arith),
      )
      refl

-- A Sync and the Follow_Up that belongs to it: of the chosen clock, with the same sequence number,
-- domain and source, at most a second apart
pub record Pair (p : Ptp) (sync follow : List ℕ) (start end : ℕ) : Type 0 where
  pub sync_shaped : shaped sync ≡ true
  pub follow_shaped : shaped follow ≡ true
  pub sync_ours : is_ours p (kind_of sync) (clock_of sync) ≡ true
  pub follow_ours : is_ours p (kind_of follow) (clock_of follow) ≡ true
  pub sync_kind : kind_of sync ≡ 0
  pub follow_kind : kind_of follow ≡ 8
  pub two_steps : (get_or sync 6 0 / 2 % 2 == 1) ≡ true
  pub sequence : be follow 30 2 ≡ be sync 30 2
  pub domain : get_or follow 4 0 ≡ get_or sync 4 0
  pub source : source_of follow ≡ source_of sync
  pub timed : is_timed follow ≡ true
  pub in_order : start ≤ end
  pub in_time : end ≤ start + 1000000
  pub clock_bound : end < 2 ^ 60

str_eq_refl : (a : List ℕ) → str_eq a a ≡ true
unfolding str_eq
str_eq_refl [] = refl
str_eq_refl (x ∷ xs) = ground (arith, str_eq_refl xs)

-- The offset that a pair gives
abbrev pub pair_offset : List ℕ → List ℕ → ℕ → ℤ
pair_offset sync follow start =
    (pos (time_of follow) +ℤ (correction_of follow +ℤ correction_of sync)) -ℤ pos start

-- While no sample is known, a two-step Sync and its Follow_Up make the clock ready: the offset is the
-- sender's time in the Follow_Up, with both corrections, less the local time at which the Sync came.
pub packet-Pair :
    (p : Ptp) (sync follow : List ℕ) (start end : ℕ)
    → Pair p sync follow start end
    → p.ready ≡ false
    → (p' : Ptp) × (packet p sync start ≡ ok (ignored, p'))
      × (packet p' follow end ≡ ok (accepted, sampled p' (pair_offset sync follow start) end))
packet-Pair p sync follow start end h e = (
  p',
  packet_lem p sync start h.sync_shaped
      ∙ rw (h.sync_ours, h.sync_kind)
          (message_lem p sync 0 start (shaped-length sync h.sync_shaped) ∙ rw h.two_steps refl),
  packet_lem p' follow end h.follow_shaped
      ∙ rw (h.follow_ours, h.follow_kind)
          (message_lem p' follow 8 end (shaped-length follow h.follow_shaped)
            ∙ rw (completed, checked_lem _ (sum-IsInt64 _ total))
                (sample_lem p' follow (correction_of follow +ℤ correction_of sync) end
                  (shaped-length follow h.follow_shaped) h.timed total
                  (omega (arith, h.in_order, h.clock_bound)) e)),
)
  where
    p' : Ptp
    p' = begun p (be sync 30 2) (get_or sync 4 0) start (source_of sync) (correction_of sync)

    total : IsWithin (2 ^ 39) (correction_of follow +ℤ correction_of sync)
    total = sum_bound _ _ (correction_bound (be follow 8 8)) (correction_bound (be sync 8 8))

    source : str_eq (source_of sync) (source_of follow) ≡ true
    source =
        subst (λ x. str_eq (source_of sync) x ≡ true) (sym h.source) (str_eq_refl (source_of sync))

    completed : completes p' (be follow 30 2) (get_or follow 4 0) (source_of follow) end ≡ true
    completed = ground (arith, source, h.sequence, h.domain, h.in_order, h.in_time, h.clock_bound)
