-- ===== src/Ntp/Limits.antt =====
-- How far a deadline of shared/sync/ntp_sync.c can be from the clock.
use protable_airplay.Base.{
  ℕ, ◌+◌, ◌*◌, ◌^◌, ◌≤◌, ◌<◌, ◌≡◌, ◌&&◌, ◌||◌, not, ◌==◌, IsWithin, sum-IsWithin,
  difference-IsWithin, times-IsWithin, quot-IsWithin, IsWithin-mono, arith, inl, inr, Bool-cases,
  Returns, of_ok, Returns-guard,
}
use protable_airplay.Base.Int.{
  ℤ, pos, negsuc, neg_part, ◌+ℤ◌, sub_ℕ, signed32, signed64, sub32, sub64, to_word,
}
use protable_airplay.Ntp.{NtpSync, Timestamp, diff_us, from_us, rtp_to_ntp, deadline}

diff_us-IsWithin :
    (a b : Timestamp)
    → a.fraction < 2 ^ 32
    → b.fraction < 2 ^ 32
    → IsWithin (2 ^ 31 * 1000000 + 2 ^ 32 * 1000000) (diff_us a b)
unfolding diff_us
diff_us-IsWithin a b h k =
    sum-IsWithin _ _ _ _
      (times-IsWithin (signed32 (sub32 b.seconds a.seconds)) (2 ^ 31) (ground arith))
      (quot-IsWithin _ _ 4294967296
        (times-IsWithin (sub_ℕ b.fraction a.fraction) (2 ^ 32) (ground (arith, h, k))))

to_word_bound : (a : ℤ) → to_word 32 a < 2 ^ 32
to_word_bound (pos n) = ground arith
to_word_bound (negsuc n) = ground arith

fraction-rtp_to_ntp :
    (s : NtpSync) (timestamp rate now : ℕ) → (rtp_to_ntp s timestamp rate now).fraction < 2 ^ 32
unfolding rtp_to_ntp from_us
fraction-rtp_to_ntp s timestamp rate now = elim (Bool-cases (not s.anchor_valid || rate == 0)) [
  | inl e ↦ rw e (ground arith)
  | inr e ↦ rw e (to_word_bound _)
]

fraction-from_us : (now : ℕ) → (from_us now).fraction < 2 ^ 32
unfolding from_us
fraction-from_us now = ground arith

pub recent_lem :
    (now base : ℕ) (delta : ℤ)
    → now < 2 ^ 60
    → base < 2 ^ 61
    → IsWithin (2 ^ 61) delta
    → neg_part (signed64 (sub64 (to_word 64 (pos base +ℤ delta)) now)) ≤ 2 ^ 62
unfolding ◌+ℤ◌
recent_lem now base delta h k w = ground arith

signed64-pos : (n : ℕ) → n < 2 ^ 60 → signed64 n ≡ pos n
signed64-pos n h = ground arith

-- For an offset below 2 ^ 53 microseconds and clocks below 2 ^ 60, a deadline of `ntp_sync_deadline` is no longer
-- ago than 2 ^ 62 microseconds, whatever the sender's anchor says.
pub deadline-Recent :
    (s : NtpSync) (timestamp rate later now : ℕ)
    → IsWithin (2 ^ 53) s.clock_offset_us
    → now < 2 ^ 60
    → later < 2 ^ 60
    → Returns (λ d. neg_part (signed64 (sub64 d now)) ≤ 2 ^ 62) (deadline s timestamp rate later)
unfolding deadline
deadline-Recent s timestamp rate later now w h k =
    Returns-guard _ (s.synchronized && (s.anchor_valid && not (rate == 0))) _ λ g.
      rw (signed64-pos later k) (
        of_ok _ (
          recent_lem now later _ h (omega (arith, k)) (
            IsWithin-mono _ _ _
              (difference-IsWithin (diff_us (from_us later) (rtp_to_ntp s timestamp rate later))
                s.clock_offset_us _ _
                (diff_us-IsWithin _ _ (fraction-from_us later)
                  (fraction-rtp_to_ntp s timestamp rate later))
                w)
              (omega arith))))
