-- ===== src/Pipeline/Playing.antt =====
-- When shared/audio/audio_pipeline.c plays a queued packet: `pipeline_play_ready_packets`.
use mathlib.Core.List.{Perm}
use native.Mathlib.Nat.{div-le_self}
use protable_airplay.Base.{
  ℕ, ◌+◌, ◌*◌, ◌%◌, ◌^◌, ◌≤◌, ◌≡◌, refl, ap, sym, subst, ◌∙◌, ◌⊎◌, true, false, Option, none, some,
  List, ◌∷◌, ◌==◌, get_elem?, ok, ◌>>=◌, checked_lem, IsInt64, IsWithin, arith, inl, inr,
  Bool-cases, Yields, yields, Yields-bind_eq, Yields-mono,
}
use protable_airplay.Base.Int.{ℤ, pos, negsuc, pos_part, neg_part, ◌-ℤ◌, ltb_ℤ, times, quot}
use protable_airplay.Playout.{Playout, Slot, pop}
use protable_airplay.Playout.Contents.{contents, entry}
use protable_airplay.Playout.Invariant.{IsValid}
use protable_airplay.Playout.Peek.{Popped, pop-Popped}
use protable_airplay.Crypto.Bounds.{KeepsLength}
use protable_airplay.Codec.Sizes.{Fits}
use protable_airplay.Pipeline.{Pipeline, Externals, max_audio_buffer_samples}
use protable_airplay.Pipeline.Packet.{decode_packet}
use protable_airplay.Pipeline.Kept.{Kept, Kept-same, Decoded-Kept, decode_packet-Emits}
use protable_airplay.Pipeline.Play.{
  Round, left, failed, went_on, pop_front, packet_in, late_or_decoded, play_slot,
}

-- The time left before a packet has to be handed on: until its deadline, less what the output still has
abbrev pub margin_of : ℕ → ℤ → ℤ → ℤ
margin_of rate early delay = early -ℤ quot (times delay 1000000) rate

-- Within 2 ^ 62 microseconds and for an int of frames, the margin does not overflow.
quot_bound : (a : ℤ) (n d : ℕ) → IsWithin n a → IsWithin n (quot a d)
unfolding quot
quot_bound a n d h = ground (arith, h, div-le_self (pos_part a) d, div-le_self (neg_part a) d)

times_bound : (a : ℤ) → IsWithin (2 ^ 31) a → IsWithin (2 ^ 31 * 1000000) (times a 1000000)
unfolding times
times_bound a h = ground (arith, h)

sub-IsInt64 : (a b : ℤ) → IsWithin (2 ^ 62) a → IsWithin (2 ^ 31 * 1000000) b → IsInt64 (a -ℤ b)
unfolding ◌-ℤ◌
sub-IsInt64 a b h k = ground (arith, h, k)

margin-IsInt64 :
    (rate : ℕ) (early delay : ℤ)
    → IsWithin (2 ^ 62) early
    → IsWithin (2 ^ 31) delay
    → IsInt64 (margin_of rate early delay)
margin-IsInt64 rate early delay h k =
    sub-IsInt64 early _ h (quot_bound (times delay 1000000) _ rate (times_bound delay k))

Kept-late :
    {L H V : Type 0} (p r : Pipeline L H V)
    → Kept p r
    → Kept p (record r { late_packets = p.late_packets })
Kept-late p r k = record {
  playout = k.playout;
  session = k.session;
  state = k.state;
  configured = k.configured;
  buffered = k.buffered;
  ptp = k.ptp;
  anchor = k.anchor;
  ntp_sync = k.ntp_sync;
  timing_peer = k.timing_peer;
  first_arrival = k.first_arrival;
  first_time = k.first_time;
  late = refl;
}

module _ {L H V : Type 0} (x : Externals L H V) where
  -- The packet of slot `j` is out of the queue. A late one is counted and never decoded; any other one went to the
  -- decoder, and its samples to the output.
  pub record WentOn (p : Pipeline L H V) (j : ℕ) (s : Slot) (margin : ℤ) (q : Pipeline L H V)
      (output : Option (List ℤ)) : Type 0 where
    pub removed : Perm (contents p.playout.packets) (entry s ∷ contents q.playout.packets)
    pub next : q.playout.next_sequence ≡ (s.header.sequence + 1) % 2 ^ 16
    pub valid : IsValid q.playout
    pub counted : p.playout.count ≡ q.playout.count + 1
    pub late :
        ltb_ℤ margin (negsuc 99999) ≡ true
        → (output ≡ none) × (q.late_packets ≡ (p.late_packets + 1) % 2 ^ 32)
    pub on_time :
        ltb_ℤ margin (negsuc 99999) ≡ false
        → (r : Pipeline L H V) × (decode_packet x p (packet_in x s) ≡ ok (r, output))
          × (q ≡ record r { playout = q.playout })
    pub fits : Fits max_audio_buffer_samples output
    pub kept :
        (q.session ≡ p.session)
        × (q.state ≡ p.state)
        × (q.buffered ≡ p.buffered)
        × (q.configured ≡ p.configured)
        × (q.ptp ≡ p.ptp)
        × (q.anchor ≡ p.anchor)
        × (q.ntp_sync ≡ p.ntp_sync)
        × (q.timing_peer ≡ p.timing_peer)
        × (q.first_arrival_us ≡ p.first_arrival_us)

  -- The three ends of a round, each with the times for it
  abbrev pub Scheduled : Pipeline L H V → ℕ → Slot → ℤ → ℤ → Round L H V → Type 0
  Scheduled p j s early delay (left q) =
      (q ≡ p)
      × ((ltb_ℤ (pos 40000) early ≡ true)
          ⊎ (ltb_ℤ (pos 5000) (margin_of p.session.sample_rate early delay) ≡ true))
  Scheduled p j s early delay (failed q) = (q ≡ p) × (ltb_ℤ delay (pos 0) ≡ true)
  Scheduled p j s early delay (went_on q output) =
      (ltb_ℤ (pos 40000) early ≡ false)
      × (ltb_ℤ (pos 5000) (margin_of p.session.sample_rate early delay) ≡ false)
      × WentOn p j s (margin_of p.session.sample_rate early delay) q output

  pop_front-WentOn :
      (p r : Pipeline L H V) (j : ℕ) (s : Slot) (margin : ℤ) (output : Option (List ℤ))
      → Popped r.playout j s (pop r.playout j)
      → Kept p (record r { late_packets = p.late_packets })
      → (ltb_ℤ margin (negsuc 99999) ≡ true
          → (output ≡ none) × (r.late_packets ≡ (p.late_packets + 1) % 2 ^ 32))
      → (ltb_ℤ margin (negsuc 99999) ≡ false → decode_packet x p (packet_in x s) ≡ ok (r, output))
      → Fits max_audio_buffer_samples output
      → Yields
          (λ (o : Round L H V).
            (q : Pipeline L H V) × (o ≡ went_on q output) × WentOn p j s margin q output)
          (pop_front x j (r, output))
  pop_front-WentOn p r j s margin output w k late on_time fits = rw w.returned (
      yields _ (
        record r { playout = w.rest },
        refl,
        record {
          removed =
              subst (λ (t : Playout). Perm (contents t.packets) (entry s ∷ contents w.rest.packets))
                k.playout w.removed;
          next = w.next;
          valid = w.valid;
          counted = sym (ap (λ (t : Playout). t.count) k.playout) ∙ w.counted;
          late = late;
          on_time = λ e. (r, on_time e, refl);
          fits = fits;
          kept = (
            k.session, k.state, k.buffered, k.configured, k.ptp, k.anchor, k.ntp_sync,
            k.timing_peer, k.first_arrival,
          );
        },
      ))

  -- The part of the round that plays slot `j`
  play-WentOn :
      (p : Pipeline L H V) (j : ℕ) (s : Slot) (margin : ℤ)
      → KeepsLength x.crypto
      → IsValid p.playout
      → get_elem? p.playout.packets j ≡ some s
      → s.valid ≡ true
      → Yields
          (λ (o : Round L H V).
            (q : Pipeline L H V) × (output : Option (List ℤ)) × (o ≡ went_on q output)
            × WentOn p j s margin q output)
          (late_or_decoded x p s margin >>= pop_front x j)
  play-WentOn p j s margin k v g u = elim (Bool-cases (ltb_ℤ margin (negsuc 99999))) [
    | inl e ↦ rw e (
        Yields-mono _ _ _
          (pop_front-WentOn p (record p { late_packets = (p.late_packets + 1) % 2 ^ 32 }) j s margin
            none (pop-Popped p.playout j s v g u) (Kept-same p p refl) (λ _. (refl, refl))
            (λ f. absurd (cc)) tt)
          λ o (q, a, b). (q, none, a, b))
    | inr e ↦ rw e (
        Yields-bind_eq _ _ _ _ (decode_packet-Emits x p (packet_in x s) k)
          λ (r, output) d (same, fits).
            let h = Decoded-Kept p r same in
            Yields-mono _ _ _
              (pop_front-WentOn p r j s margin output
                (rw h.playout (pop-Popped p.playout j s v g u)) (Kept-late p r h) (λ f. absurd (cc))
                (λ _. d) fits)
              λ o (q, a, b). (q, output, a, b))
  ]

  pub play_slot-Scheduled :
      (p : Pipeline L H V) (j : ℕ) (s : Slot) (early delay : ℤ)
      → KeepsLength x.crypto
      → IsValid p.playout
      → get_elem? p.playout.packets j ≡ some s
      → s.valid ≡ true
      → (p.session.sample_rate == 0) ≡ false
      → neg_part early ≤ 2 ^ 62
      → IsWithin (2 ^ 31) delay
      → Yields (Scheduled p j s early delay) (play_slot x p j s early delay)
  unfolding play_slot
  play_slot-Scheduled p j s early delay k v g u z h i =
      elim (Bool-cases (ltb_ℤ (pos 40000) early)) [
        | inl e ↦ rw e (yields _ (refl, inl e))
        | inr e ↦ elim (Bool-cases (ltb_ℤ delay (pos 0))) [
          | inl f ↦ rw (e, f) (yields _ (refl, f))
          | inr f ↦
              rw
                (
                  e,
                  f,
                  z,
                  checked_lem _
                      (margin-IsInt64 p.session.sample_rate early delay (ground (arith, e), h) i),
                )
                (elim (Bool-cases
                  (ltb_ℤ (pos 5000) (margin_of p.session.sample_rate early delay))) [
                    | inl m ↦ rw m (yields _ (refl, inr m))
                    | inr m ↦ rw m (
                        Yields-mono _ _ _
                          (play-WentOn p j s (margin_of p.session.sample_rate early delay) k v g u)
                          λ o (q, output, a, b). went p j s early delay o q output e m a b)
                  ])
        ]
      ]
    where
      went :
          (p : Pipeline L H V) (j : ℕ) (s : Slot) (early delay : ℤ) (o : Round L H V)
          (q : Pipeline L H V) (output : Option (List ℤ))
          → ltb_ℤ (pos 40000) early ≡ false
          → ltb_ℤ (pos 5000) (margin_of p.session.sample_rate early delay) ≡ false
          → o ≡ went_on q output
          → WentOn p j s (margin_of p.session.sample_rate early delay) q output
          → Scheduled p j s early delay o
      went p j s early delay o q output e m a b = rw a (e, m, b)
