-- ===== src/Ptp/Bounds.antt =====
-- Packets of shared/sync/ptp_sync.c: reads inside the datagram, and arithmetic inside an int64_t.
use protable_airplay.Base.{
  ℕ, ◌+◌, ◌-◌, ◌*◌, ◌/◌, ◌%◌, ◌^◌, ◌≤◌, ◌<◌, ◌≡◌, refl, sym, ◌∙◌, inl, inr, Bool, true, false, ◌&&◌,
  ◌||◌, not, List, ltb, leb, ◌==◌, length, take, drop, arith, Bool-cases, checked_lem, IsWithin,
  IsInt64, ok, read_lem, read_be_lem, be, get_or, Yields, yields, Yields-bind,
}
use protable_airplay.Base.Int.{ℤ, ◌+ℤ◌, ◌-ℤ◌, ◌≤ℤ◌, ltb_ℤ, quot, signed64}
use protable_airplay.Rtp.Safety.{slice_lem}
use protable_airplay.Ptp.{
  Ptp, begun, filter, replaces, sample, completes, message, is_message, packet,
}

-- What keeps the sums inside an int64_t: the offset below 2 ^ 62, the correction that a Sync can hold, and
-- a clock reading below 2 ^ 60
pub record IsValid (p : Ptp) : Type 0 where
  pub offset_bound : IsWithin (2 ^ 62 - 1) p.offset_us
  pub correction_bound : IsWithin (2 ^ 38) p.sync_correction
  pub received_bound : p.sync_received_us < 2 ^ 60

-- An offset between two others
abbrev pub IsBetween : ℤ → ℤ → ℤ → Type 0
IsBetween a b x = (a ≤ℤ x) × (x ≤ℤ b)

step_bounds : (a b : ℤ) → a ≤ℤ b → IsBetween a b (b +ℤ quot (a -ℤ b) 64)
unfolding quot ◌+ℤ◌ ◌-ℤ◌
step_bounds a b h = ground arith

difference-IsInt64 :
    (a b : ℤ) → IsWithin (2 ^ 62 - 1) a → IsWithin (2 ^ 62 - 1) b → IsInt64 (a -ℤ b)
unfolding ◌-ℤ◌
difference-IsInt64 a b h k = ground arith

between-IsWithin :
    (a b x : ℤ)
    → IsWithin (2 ^ 62 - 1) a
    → IsWithin (2 ^ 62 - 1) b
    → IsBetween a b x
    → IsWithin (2 ^ 62 - 1) x
between-IsWithin a b x h k l = ground arith

not_above : (a b : ℤ) (r s : Bool) → (not r || (s || ltb_ℤ b a)) ≡ false → a ≤ℤ b
not_above a b r s h = ground arith

pub within-IsInt64 : (a : ℤ) → IsWithin (2 ^ 62 - 1) a → IsInt64 a
within-IsInt64 a h = omega arith

absurd_cases {ℓ} : {A : Type ℓ} → true ≡ false → A
absurd_cases e = cc

-- What becomes of the offset
pub record Filtered (p : Ptp) (offset : ℤ) (now : ℕ) (x : ℤ) : Type 0 where
  pub replaced : replaces p offset now ≡ true → x ≡ offset
  pub moved : replaces p offset now ≡ false → IsBetween offset p.offset_us x
  pub within : IsWithin (2 ^ 62 - 1) x

-- The filter of `ptp_sync_packet` gives the sample itself if it replaces the offset; otherwise the sample
-- is no higher than the offset, and the result is between the two. No sum leaves an int64_t, for an offset
-- and a sample below 2 ^ 62.
pub filter-Yields :
    (p : Ptp) (offset : ℤ) (now : ℕ)
    → IsWithin (2 ^ 62 - 1) p.offset_us
    → IsWithin (2 ^ 62 - 1) offset
    → Yields (Filtered p offset now) (filter p offset now)
unfolding filter
filter-Yields p offset now h k = elim (Bool-cases (replaces p offset now)) [
  | inl e ↦ rw e (
      yields offset
        (record { replaced = λ _. refl; moved = λ f. absurd_cases (sym e ∙ f); within = k }))
  | inr e ↦
      let between = step_bounds offset p.offset_us (not_above offset p.offset_us p.ready _ e) in
      let within = between-IsWithin offset p.offset_us _ k h between in
      rw
        (
          e,
          checked_lem (offset -ℤ p.offset_us) (difference-IsInt64 offset p.offset_us k h),
          checked_lem (p.offset_us +ℤ quot (offset -ℤ p.offset_us) 64) (within-IsInt64 _ within),
        )
        (yields _ (record {
          replaced = λ f. absurd_cases (sym f ∙ e);
          moved = λ _. between;
          within = within;
        }))
]

pub correction_bound : (bits : ℕ) → IsWithin (2 ^ 38) (quot (signed64 bits) 65536000)
unfolding quot
correction_bound bits = ground arith

pub sent_bound :
    (seconds nanoseconds : ℕ) (correction : ℤ)
    → seconds ≤ 2 ^ 41
    → nanoseconds < 1000000000
    → IsWithin (2 ^ 39) correction
    → IsWithin
        (2 ^ 61 + 2 ^ 60)
        (signed64 ((seconds * 1000000 + nanoseconds / 1000) % 2 ^ 64) +ℤ correction)
unfolding ◌+ℤ◌
sent_bound seconds nanoseconds correction h k l = ground arith

pub offset_bound :
    (sent : ℤ) (received : ℕ)
    → IsWithin (2 ^ 61 + 2 ^ 60) sent
    → received < 2 ^ 60
    → IsWithin (2 ^ 62 - 1) (sent -ℤ signed64 received)
unfolding ◌-ℤ◌
offset_bound sent received h k = ground arith

pub small-IsInt64 : (a : ℤ) → IsWithin (2 ^ 61 + 2 ^ 60) a → IsInt64 a
small-IsInt64 a h = omega arith

sample-Yields :
    (p : Ptp) (bs : List ℕ) (correction : ℤ) (now : ℕ)
    → IsValid p
    → 44 ≤ length bs
    → be bs 34 6 ≤ 2 ^ 41
    → IsWithin (2 ^ 39) correction
    → Yields (λ r. IsValid r.1) (sample p bs correction now)
unfolding sample
sample-Yields p bs correction now v long h k =
    rw (read_be_lem bs 34 6 (omega arith), read_be_lem bs 40 4 (omega arith))
      (elim (Bool-cases (leb 1000000000 (be bs 40 4) || ltb 9223372036854 (be bs 34 6))) [
        | inl e ↦ rw e (yields _ v)
        | inr e ↦
            let sent = sent_bound (be bs 34 6) (be bs 40 4) correction h (ground arith) k in
            let offset = offset_bound _ p.sync_received_us sent v.received_bound in
            rw (e, checked_lem _ (small-IsInt64 _ sent), checked_lem _ (within-IsInt64 _ offset))
              (Yields-bind _ _ _ _ (filter-Yields p _ now v.offset_bound offset) λ x f.
                yields _ (record {
                  offset_bound = f.within;
                  correction_bound = v.correction_bound;
                  received_bound = v.received_bound;
                }))
      ])

pub sum-IsInt64 : (a : ℤ) → IsWithin (2 ^ 39) a → IsInt64 a
sum-IsInt64 a h = omega arith

pub sum_bound : (a b : ℤ) → IsWithin (2 ^ 38) a → IsWithin (2 ^ 38) b → IsWithin (2 ^ 39) (a +ℤ b)
unfolding ◌+ℤ◌
sum_bound a b h k = ground arith

message-Yields :
    (p : Ptp) (bs : List ℕ) (kind now : ℕ)
    → IsValid p
    → now < 2 ^ 60
    → 44 ≤ length bs
    → be bs 34 6 ≤ 2 ^ 41
    → Yields (λ r. IsValid r.1) (message p bs kind now)
unfolding message
message-Yields p bs kind now v n long h =
    rw
      (
        read_be_lem bs 30 2 (omega arith),
        read_be_lem bs 8 8 (omega arith),
        read_lem bs 4 (omega arith),
        slice_lem bs 20 10 (omega arith),
      )
      (elim (Bool-cases (kind == 0)) [
        | inl e ↦
            rw (e, read_lem bs 6 (omega arith))
              (elim (Bool-cases (get_or bs 6 0 / 2 % 2 == 1)) [
                | inl f ↦ rw f (yields _ started)
                | inr f ↦ rw f (
                    sample-Yields _ bs _ now started long h (wide _ (correction_bound (be bs 8 8))))
              ])
        | inr e ↦
            rw e
              (elim (Bool-cases
                (completes p (be bs 30 2) (get_or bs 4 0) (take 10 (drop 20 bs)) now)) [
                  | inl f ↦
                      let total = sum_bound _ _ (correction_bound (be bs 8 8)) v.correction_bound in
                      rw (f, checked_lem _ (sum-IsInt64 _ total))
                        (sample-Yields p bs _ now v long h total)
                  | inr f ↦ rw f (yields _ v)
                ])
      ])
  where
    wide : (a : ℤ) → IsWithin (2 ^ 38) a → IsWithin (2 ^ 39) a
    wide a w = omega arith

    started : IsValid (
        begun p
          (be bs 30 2)
          (get_or bs 4 0)
          now
          (take 10 (drop 20 bs))
          (quot (signed64 (be bs 8 8)) 65536000))
    started = record {
      offset_bound = v.offset_bound;
      correction_bound = correction_bound (be bs 8 8);
      received_bound = n;
    }

-- A PTP version 2 message of its own length, which is at least 44
abbrev pub shaped : List ℕ → Bool
shaped bs =
    not (ltb (length bs) 44)
    && (get_or bs 1 0 % 16 == 2 && not (ltb (be bs 2 2) 44 || ltb (length bs) (be bs 2 2)))

-- A Sync or a Follow_Up of the chosen clock
abbrev pub is_ours : Ptp → ℕ → ℕ → Bool
is_ours p kind clock = (kind == 0 || kind == 8) && (not (p.clock_id == 0) && clock == p.clock_id)

pub is_message_lem : (bs : List ℕ) → is_message bs ≡ ok (shaped bs)
unfolding is_message
is_message_lem bs = elim (Bool-cases (ltb (length bs) 44)) [
  | inl e ↦ rw e refl
  | inr e ↦ rw (e, read_lem bs 1 (ground arith), read_be_lem bs 2 2 (ground arith)) refl
]

pub shaped-length : (bs : List ℕ) → shaped bs ≡ true → 44 ≤ length bs
shaped-length bs e = ground arith

-- Whatever the datagram holds, `ptp_sync_packet` reads inside it and keeps the state valid, and none of
-- its sums leaves an int64_t: from a valid state, before 2 ^ 60 microseconds of the local clock, and for a
-- time of the sender of at most 2 ^ 41 seconds.
pub packet-Yields :
    (p : Ptp) (bs : List ℕ) (now : ℕ)
    → IsValid p
    → now < 2 ^ 60
    → be bs 34 6 ≤ 2 ^ 41
    → Yields (λ r. IsValid r.1) (packet p bs now)
unfolding packet
packet-Yields p bs now v n h = rw (is_message_lem bs) (elim (Bool-cases (shaped bs)) [
  | inl e ↦
      rw
        (
          e,
          read_lem bs 0 (omega (arith, shaped-length bs e)),
          read_be_lem bs 20 8 (omega (arith, shaped-length bs e)),
        )
        (elim (Bool-cases (is_ours p (get_or bs 0 0 % 16) (be bs 20 8))) [
          | inl f ↦ rw f (message-Yields p bs (get_or bs 0 0 % 16) now v n (shaped-length bs e) h)
          | inr f ↦ rw f (yields _ v)
        ])
  | inr e ↦ rw e (yields _ v)
])
