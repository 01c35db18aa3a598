-- ===== src/Ptp/Limits.antt =====
-- The deadlines of shared/sync/ptp_sync.c for clocks in range.
use protable_airplay.Base.{
  ℕ, ◌+◌, ◌-◌, ◌^◌, ◌<◌, not, ok, ◌>>◌, guard, checked_lem, IsInt64, IsWithin, sum-IsWithin,
  difference-IsWithin, times-IsWithin, quot-IsWithin, IsWithin-mono, arith, Returns, of_ok,
  Returns-guard,
}
use protable_airplay.Base.Int.{
  ℤ, pos, pos_part, ◌+ℤ◌, ◌-ℤ◌, ltb_ℤ, times, quot, signed32, signed64, sub32,
}
use protable_airplay.Ptp.{Ptp, Anchor, is_usable, deadline}
use protable_airplay.Ptp.Bounds.{IsValid}

within-IsInt64 : (a : ℤ) → IsWithin (2 ^ 62 + 2 ^ 61) a → IsInt64 a
within-IsInt64 a h = omega arith

not_negative :
    (local : ℤ)
    → IsInt64 local
    → Returns (λ d. d < 2 ^ 63) (guard (not (ltb_ℤ local (pos 0))) >> ok (pos_part local))
not_negative local h = Returns-guard _ (not (ltb_ℤ local (pos 0))) _ λ g. of_ok _ h.0

-- For a valid clock, an anchor that was divided down to microseconds and a latency of 32 bits, `ptp_sync_deadline`
-- returns, without overflow, and its deadline is below 2 ^ 63.
pub deadline-Returns :
    (p : Ptp) (a : Anchor) (timestamp rate latency now : ℕ)
    → IsValid p
    → a.network_us < 2 ^ 55
    → latency < 2 ^ 32
    → Returns (λ d. d < 2 ^ 63) (deadline p a timestamp rate latency now)
unfolding deadline
deadline-Returns p a timestamp rate latency now v h k =
    Returns-guard _ (is_usable p a rate now) _ λ g.
      rw (checked_lem _ (within-IsInt64 _ start), checked_lem _ (within-IsInt64 _ local))
        (not_negative _ (within-IsInt64 _ local))
  where
    start : IsWithin (2 ^ 62 + 2 ^ 61) (signed64 a.network_us -ℤ p.offset_us)
    start =
        IsWithin-mono _ _ _
          (difference-IsWithin (signed64 a.network_us) p.offset_us (2 ^ 55) (2 ^ 62 - 1)
            (ground (arith, h)) v.offset_bound)
          (omega arith)

    frames : IsWithin (2 ^ 31 + 2 ^ 32) (signed32 (sub32 timestamp a.rtp_time) +ℤ pos latency)
    frames =
        sum-IsWithin (signed32 (sub32 timestamp a.rtp_time)) (pos latency) (2 ^ 31) (2 ^ 32)
          (ground arith) (omega (arith, k), omega arith)

    local : IsWithin (2 ^ 62 + 2 ^ 61) (
        signed64 a.network_us
        -ℤ p.offset_us
        +ℤ quot (times (signed32 (sub32 timestamp a.rtp_time) +ℤ pos latency) 1000000) rate)
    local =
        IsWithin-mono _ _ _
          (sum-IsWithin _ _ _ _
            (difference-IsWithin (signed64 a.network_us) p.offset_us (2 ^ 55) (2 ^ 62 - 1)
              (ground (arith, h)) v.offset_bound)
            (quot-IsWithin _ _ rate (times-IsWithin _ (2 ^ 31 + 2 ^ 32) frames)))
          (omega arith)
