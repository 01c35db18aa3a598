-- ===== src/Ntp/Stamps.antt =====
-- Time stamps of shared/sync/ntp_sync.c: how exactly they keep a clock of microseconds.
use protable_airplay.Base.{
  ℕ, ◌+◌, ◌-◌, ◌*◌, ◌/◌, ◌%◌, ◌^◌, ◌≤◌, ◌<◌, ◌≡◌, Bool-cases, inl, inr, leb, arith,
}
use protable_airplay.Base.Int.{pos, ◌+ℤ◌, ◌≤ℤ◌, quot, times, sub_ℕ, signed32, sub32}
use protable_airplay.Ntp.{from_us, diff_us, ntp_epoch_offset}

-- `f` is the fraction of `m` microseconds.
abbrev IsFraction : ℕ → ℕ → Type 0
IsFraction m f = (f * 1000000 ≤ m * 4294967296) × (m * 4294967296 < f * 1000000 + 1000000)

IsFraction-div : (m : ℕ) → IsFraction m (m * 4294967296 / 1000000)
IsFraction-div m = omega arith

-- The fractions of the later and of the earlier stamp, by their order
rising :
    (m n f g : ℕ)
    → IsFraction m f
    → IsFraction n g
    → f ≤ g
    → (n ≤ m + ((g - f) * 1000000 / 4294967296 + 1)) × (m + (g - f) * 1000000 / 4294967296 ≤ n + 1)
rising m n f g h k l = omega arith

seconds_between :
    (a b : ℕ)
    → a ≤ b
    → b < a + 2 ^ 31
    → b < 2 ^ 63
    → signed32 (
        sub32 ((b + ntp_epoch_offset) % 2 ^ 64 % 2 ^ 32) ((a + ntp_epoch_offset) % 2 ^ 64 % 2 ^ 32))
      ≡ pos (b - a)
seconds_between a b h k n = ground arith

-- Whole seconds and fractions together
between :
    (d m n f g t : ℕ)
    → IsFraction m f
    → IsFraction n g
    → t + m ≡ d * 1000000 + n
    → let x = times (pos d) 1000000 +ℤ quot (times (sub_ℕ g f) 1000000) 4294967296 in
      (pos t ≤ℤ x +ℤ pos 1) × (x ≤ℤ pos t +ℤ pos 1)
unfolding quot times ◌+ℤ◌
between d m n f g t h k e = elim (Bool-cases (leb f g)) [
  | inl l ↦ rw l (ground (arith, rising m n f g h k))
  | inr l ↦ rw l (ground (arith, rising n m g f k h))
]

-- Two clock readings less than 2 ^ 31 seconds apart: their time stamps differ by the time between them,
-- to a microsecond.
pub diff_us-from_us :
    (a b : ℕ)
    → a ≤ b
    → b < 2 ^ 64
    → b / 1000000 < a / 1000000 + 2 ^ 31
    → (pos (b - a) ≤ℤ diff_us (from_us a) (from_us b) +ℤ pos 1)
      × (diff_us (from_us a) (from_us b) ≤ℤ pos (b - a) +ℤ pos 1)
unfolding diff_us from_us
diff_us-from_us a b h k n =
    rw (seconds_between (a / 1000000) (b / 1000000) (omega arith) n (omega arith)) (
      between (b / 1000000 - a / 1000000) (a % 1000000) (b % 1000000)
        (a % 1000000 * 4294967296 / 1000000 % 2 ^ 32) (b % 1000000 * 4294967296 / 1000000 % 2 ^ 32)
        (b - a) (omega arith) (omega arith) (omega arith))
