-- ===== src/Pipeline/Loss.antt =====
-- The packets that shared/audio/audio_pipeline.c counts as received and as lost.
use protable_airplay.Base.{ℕ, ◌+◌, ◌-◌, ◌%◌, ◌^◌, ◌<◌, ◌≡◌, ◌∙◌, List, [], ◌∷◌, All, arith}
use protable_airplay.Pipeline.{Pipeline, Externals}
use protable_airplay.Pipeline.Packet.{gap, count_packet}

-- The number of packets left out, if fewer than 2 ^ 15 are
gap_lem : (last k : ℕ) → last < 2 ^ 16 → k < 2 ^ 15 → gap last ((last + 1 + k) % 2 ^ 16) ≡ k
unfolding gap
gap_lem last k h n = ground arith

-- A packet from behind is no loss.
gap-behind : (last k : ℕ) → last < 2 ^ 16 → k < 2 ^ 15 → gap last ((last + 2 ^ 16 - k) % 2 ^ 16) ≡ 0
unfolding gap
gap-behind last k h n = ground arith

abbrev pub IsJump : ℕ → Type 0
IsJump k = k < 2 ^ 15

-- The sequence numbers that packets pass when in front of each some others are missing
abbrev pub span : List ℕ → ℕ
span [] = 0
span (k ∷ ks) = k + 1 + span ks

module _ {L H V : Type 0} (x : Externals L H V) where
  -- Packets in order, `k` being the number missing in front of one
  abbrev pub count_all : Pipeline L H V → List ℕ → Pipeline L H V
  count_all p [] = p
  count_all p (k ∷ ks) = count_all (count_packet x p ((p.last_sequence + 1 + k) % 2 ^ 16)) ks

  count_one :
      (p : Pipeline L H V) (k : ℕ)
      → p.last_sequence < 2 ^ 16
      → 0 < p.packets_received
      → k < 2 ^ 15
      → p.packets_lost + p.packets_received + (k + 1) < 2 ^ 32
      → ((count_packet x p ((p.last_sequence + 1 + k) % 2 ^ 16)).packets_lost ≡ p.packets_lost + k)
        × ((count_packet x p ((p.last_sequence + 1 + k) % 2 ^ 16)).packets_received
            ≡ p.packets_received + 1)
        × ((count_packet x p ((p.last_sequence + 1 + k) % 2 ^ 16)).last_sequence < 2 ^ 16)
  unfolding count_packet
  count_one p k h r n b =
      (ground (arith, gap_lem p.last_sequence k h n), omega (arith, b), omega arith)

  -- While no counter overflows and fewer than 2 ^ 15 packets in a row are missing, every sequence number that packets
  -- pass, across wraps, is counted once, as received or as lost: the two counters grow by that number
  -- together.
  pub count_all_lem :
      (p : Pipeline L H V) (ks : List ℕ)
      → p.last_sequence < 2 ^ 16
      → 0 < p.packets_received
      → All IsJump ks
      → p.packets_lost + p.packets_received + span ks < 2 ^ 32
      → (count_all p ks).packets_lost + (count_all p ks).packets_received
        ≡ p.packets_lost + p.packets_received + span ks
  count_all_lem p [] h r n b = omega arith
  count_all_lem p (k ∷ ks) h r n b =
      let c = count_one p k h r n.0 (omega (arith, b)) in
      count_all_lem (count_packet x p ((p.last_sequence + 1 + k) % 2 ^ 16)) ks c.2
        (omega (arith, c.1)) n.1 (omega (arith, c.0, c.1, b))
      ∙ omega (arith, c.0, c.1)
