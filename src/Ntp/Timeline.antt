-- ===== src/Ntp/Timeline.antt =====
-- The line from RTP times to the sender's NTP times in shared/sync/ntp_sync.c.
use native.Mathlib.Nat.{div-le_self}
use protable_airplay.Base.{
  ℕ, ◌+◌, ◌-◌, ◌*◌, ◌/◌, ◌%◌, ◌^◌, ◌≤◌, ◌<◌, ◌≡◌, refl, subst, inl, inr, true, false, ltb, ◌==◌,
  arith, Bool-cases,
}
use protable_airplay.Base.Int.{
  ahead, times-pos, quot-pos, rem-pos, add-pos, ℤ, pos, ◌+ℤ◌, ◌-ℤ◌, ◌≤ℤ◌, quot, times, sub_ℕ,
  signed32, sub32, to_word,
}
use protable_airplay.Ntp.{Timestamp, NtpSync, diff_us, rtp_to_ntp, carry}

-- The microseconds that the code takes k frames to last
abbrev pub frames_us : ℕ → ℕ → ℕ
frames_us k rate = k * 1000000 / rate

step :
    (d f g w m : ℕ)
    → m < 1000000
    → w ≡ m * 4294967296 / 1000000
    → f < 2 ^ 32
    → g ≡ f + w
    → let x = times (pos d) 1000000 +ℤ quot (times (sub_ℕ g f) 1000000) 4294967296 in
      (pos (d * 1000000 + m) ≤ℤ x +ℤ pos 1) × (x ≤ℤ pos (d * 1000000 + m))
unfolding quot times ◌+ℤ◌
step d f g w m h e k n = ground arith

step_over :
    (d f g w m : ℕ)
    → m < 1000000
    → w ≡ m * 4294967296 / 1000000
    → f < 2 ^ 32
    → g + 4294967296 ≡ f + w
    → let x = times (pos (d + 1)) 1000000 +ℤ quot (times (sub_ℕ g f) 1000000) 4294967296 in
      (pos (d * 1000000 + m) ≤ℤ x +ℤ pos 1) × (x ≤ℤ pos (d * 1000000 + m))
unfolding quot times ◌+ℤ◌
step_over d f g w m h e k n = ground arith

carry_in : (d f : ℕ) → f < 2 ^ 32 → carry (pos d) (pos f) ≡ (pos d, pos f)
unfolding carry
carry_in d f h = ground arith

carry_over :
    (d f : ℕ)
    → 2 ^ 32 ≤ f
    → f < 2 ^ 33
    → carry (pos d) (pos f) ≡ (pos (d + 1), pos (f - 4294967296))
unfolding carry ◌+ℤ◌ ◌-ℤ◌
carry_over d f h k = ground arith

-- The stamp that `rtp_to_ntp` makes of a carried pair
abbrev stamp : ℕ → ℤ × ℤ → Timestamp
stamp s p = record { seconds = (s + to_word 32 p.0) % 2 ^ 32; fraction = to_word 32 p.1 }

diff_us-stamp :
    (s f d g : ℕ)
    → s < 2 ^ 32
    → d < 2 ^ 31
    → g < 2 ^ 32
    → diff_us (record { seconds = s; fraction = f }) (stamp s (pos d, pos g))
      ≡ times (pos d) 1000000 +ℤ quot (times (sub_ℕ g f) 1000000) 4294967296
unfolding diff_us
diff_us-stamp s f d g h k l = rw (gap, mod_of) refl
  where
    gap : signed32 (sub32 ((s + d % 2 ^ 32) % 2 ^ 32) s) ≡ pos d
    gap = ground arith

    mod_of : g % 2 ^ 32 ≡ g
    mod_of = omega arith

Near : ℕ → ℤ → Type 0
Near t x = (pos t ≤ℤ x +ℤ pos 1) × (x ≤ℤ pos t)

carry-Near :
    (s f d w m : ℕ)
    → m < 1000000
    → w ≡ m * 4294967296 / 1000000
    → s < 2 ^ 32
    → f < 2 ^ 32
    → d + 1 < 2 ^ 31
    → Near
        (d * 1000000 + m)
        (diff_us (record { seconds = s; fraction = f }) (stamp s (carry (pos d) (pos (f + w)))))
unfolding Near
carry-Near s f d w m h e k n l = elim (Bool-cases (ltb (f + w) 4294967296)) [
  | inl t ↦
      rw
        (
          carry_in d (f + w) (ground arith),
          diff_us-stamp s f d (f + w) k (omega arith) (ground arith),
        )
        (step d f (f + w) w m h e n refl)
  | inr t ↦
      rw
        (
          carry_over d (f + w) (ground arith) (omega arith),
          diff_us-stamp s f (d + 1) (f + w - 4294967296) k l (omega arith),
        )
        (step_over d f (f + w - 4294967296) w m h e n (ground arith))
]

frames_us_bound : (k rate : ℕ) → k + 1 < 2 ^ 31 → frames_us k rate / 1000000 + 1 < 2 ^ 31
frames_us_bound k rate h = ground (arith, div-le_self (k * 1000000) rate)

split-Near :
    (s f t : ℕ)
    → s < 2 ^ 32
    → f < 2 ^ 32
    → t / 1000000 + 1 < 2 ^ 31
    → Near t (
        diff_us
          (record { seconds = s; fraction = f })
          (stamp s (carry (pos (t / 1000000)) (pos (f + t % 1000000 * 4294967296 / 1000000)))))
split-Near s f t h k n =
    subst
      (λ u. Near u (
        diff_us (record { seconds = s; fraction = f })
          (stamp s (carry (pos (t / 1000000)) (pos (f + t % 1000000 * 4294967296 / 1000000))))))
      (omega arith)
      (carry-Near s f (t / 1000000) (t % 1000000 * 4294967296 / 1000000) (t % 1000000) (omega arith)
        refl h k n)

-- With an anchor, the RTP time k frames after it, at a rate above 0, becomes the anchor's NTP time plus
-- the k frames in microseconds, which the code rounds down, less a microsecond at most. The anchor's
-- words are 32 bits wide and k is below 2 ^ 31 - 1; RTP times and NTP seconds may wrap on the way.
pub diff_us-rtp_to_ntp :
    (s : NtpSync) (k rate now : ℕ)
    → s.anchor_valid ≡ true
    → 0 < rate
    → s.rtp_base < 2 ^ 32
    → s.ntp_base.seconds < 2 ^ 32
    → s.ntp_base.fraction < 2 ^ 32
    → k + 1 < 2 ^ 31
    → let x = diff_us s.ntp_base (rtp_to_ntp s ((s.rtp_base + k) % 2 ^ 32) rate now) in
      (pos (frames_us k rate) ≤ℤ x +ℤ pos 1) × (x ≤ℤ pos (frames_us k rate))
unfolding rtp_to_ntp Near
diff_us-rtp_to_ntp s k rate now v r h i j n =
    rw (v, anchored, ahead s.rtp_base k h (omega arith))
      (simp (times-pos, quot-pos, rem-pos, add-pos)
        (split-Near s.ntp_base.seconds s.ntp_base.fraction (frames_us k rate) i j
          (frames_us_bound k rate n)))
  where
    anchored : (rate == 0) ≡ false
    anchored = ground arith
