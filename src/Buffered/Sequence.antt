-- ===== src/Buffered/Sequence.antt =====
-- The sequence number of a packet that shared/audio/buffered_audio.c delivers.
use protable_airplay.Base.{
  ℕ, ◌+◌, ◌-◌, ◌%◌, ◌^◌, ◌<◌, Bool, true, false, ◌&&◌, ◌||◌, not, Option, none, some, List, [], ◌∷◌,
  ltb, if◌then◌else◌, length, str_eq, Result, ok, fail, fault, ◌>>=◌, read_be, arith, inl, inr,
  Bool-cases,
}
use protable_airplay.Rtp.{RtpPacket, slice}
use protable_airplay.Buffered.{
  Buffered, Arrival, Accept, Step, Outcome, nothing_yet, closed, received, no_peer, accept_error,
  peer, stop, next, ◌then◌, leave, accept_new, accept, take_arrival, receive, receive_length,
  is_discarded, deliver, receive_record, poll, idle, data_size,
}

-- The sequence number fits a uint16_t.
abbrev pub IsShort : Option RtpPacket → Type 0
IsShort none = Unit {0}
IsShort (some packet) = packet.header.sequence < 2 ^ 16

-- If a poll stops here, what it delivers has a short sequence number.
pub data Stops : Result Step → Type 0 where
  of_stop : (o : Outcome) → IsShort o.delivered → Stops (ok (stop o))
  of_next : (b : Buffered) (s : List Arrival) → Stops (ok (next b s))
  of_fail : Stops fail
  of_fault : Stops fault

Stops-then :
    (m : Result Step) (f : Buffered → List Arrival → Result Step)
    → Stops m
    → ((b : Buffered) (s : List Arrival) → Stops (f b s))
    → Stops (m then f)
Stops-then m f (of_stop o h) g = of_stop o h
Stops-then m f (of_next b s) g = g b s
Stops-then m f of_fail g = of_fail
Stops-then m f of_fault g = of_fault

Stops-bind :
    {A : Type 0} (m : Result A) (f : A → Result Step) → ((a : A) → Stops (f a)) → Stops (m >>= f)
Stops-bind (ok a) f h = h a
Stops-bind fail f h = of_fail
Stops-bind fault f h = of_fault

Stops-if : (c : Bool) (m n : Result Step) → Stops m → Stops n → Stops (if c then m else n)
Stops-if true m n h k = h
Stops-if false m n h k = k

accept_new-Stops :
    (b : Buffered) (ip : List ℕ) (s : List Arrival) (a : Accept) → Stops (accept_new b ip s a)
unfolding accept_new
accept_new-Stops b ip s no_peer = of_stop _ tt
accept_new-Stops b ip s accept_error = of_stop _ tt
accept_new-Stops b ip s (peer handle address) =
    elim (Bool-cases (str_eq ip [] || not (str_eq address ip))) [
      | inl e ↦ rw e (of_stop _ tt)
      | inr e ↦ rw e (of_next _ _)
    ]

accept-Stops :
    (b : Buffered) (ip : List ℕ) (s : List Arrival) (a : Accept) → Stops (accept b ip s a)
unfolding accept
accept-Stops b ip s a =
    elim b.client
      as (λ c. Stops (elim c [ none ↦ accept_new b ip s a | some handle ↦ ok (next b s) ])) [
        | none ↦ accept_new-Stops b ip s a
        | some handle ↦ of_next b s
      ]

take_arrival-Stops : (b : Buffered) (n : ℕ) (s : List Arrival) → Stops (take_arrival b n s)
unfolding take_arrival
take_arrival-Stops b n [] = of_stop _ tt
take_arrival-Stops b n (nothing_yet ∷ rest) = of_stop _ tt
take_arrival-Stops b n (closed ∷ rest) = of_stop _ tt
take_arrival-Stops b n (received [] ∷ rest) = of_stop _ tt
take_arrival-Stops b n (received (x ∷ xs) ∷ rest) =
    Stops-if (ltb n (length (x ∷ xs))) _ _ (of_next _ _) (of_next _ _)

receive-Stops : (b : Buffered) (n : ℕ) (s : List Arrival) → Stops (receive b n s)
unfolding receive
receive-Stops b n s =
    Stops-if (ltb (length b.bytes) (b.used + n)) _ _ of_fault (take_arrival-Stops b n s)

receive_length-Stops : (b : Buffered) (s : List Arrival) → Stops (receive_length b s)
unfolding receive_length
receive_length-Stops b s =
    Stops-if (ltb b.used 2) _ _
      (Stops-then _ _ (receive-Stops b (2 - b.used) s)
        λ b' s'. Stops-if (ltb b'.used 2) _ _ (of_stop _ tt) (of_next _ _))
      (of_next _ _)

deliver-Stops : (b : Buffered) (need : ℕ) (s : List Arrival) → Stops (deliver b need s)
unfolding deliver
deliver-Stops b need s = Stops-bind (read_be b.bytes 3 3) _ λ sequence.
    elim (Bool-cases (b.discarding && is_discarded b.discard_sequence sequence)) [
      | inl e ↦ rw e (of_stop _ tt)
      | inr e ↦ rw e (
          Stops-bind (read_be b.bytes 6 4) _ λ timestamp.
            Stops-bind (read_be b.bytes 10 4) _ λ ssrc.
              Stops-bind (slice b.bytes 14 (need - 14)) _ λ payload. of_stop _ (bound sequence))
    ]
  where
    bound : (sequence : ℕ) → sequence % 2 ^ 16 < 2 ^ 16
    bound sequence = omega arith

receive_record-Stops : (b : Buffered) (s : List Arrival) → Stops (receive_record b s)
unfolding receive_record
receive_record-Stops b s = Stops-bind (read_be b.bytes 0 2) _ λ need.
    elim (Bool-cases (ltb need 38 || ltb data_size need)) [
      | inl e ↦ rw e (of_stop _ tt)
      | inr e ↦ rw e (
          Stops-then (receive b (need - b.used) s) _ (receive-Stops b (need - b.used) s)
            λ b' s'. whole b' s' need)
    ]
  where
    whole :
        (b : Buffered) (s : List Arrival) (need : ℕ)
        → Stops (if ltb b.used need then leave b s idle else deliver b need s)
    whole b s need = elim (Bool-cases (ltb b.used need)) [
      | inl e ↦ rw e (of_stop _ tt)
      | inr e ↦ rw e (deliver-Stops b need s)
    ]

pub poll-Stops :
    (b : Buffered) (ip : List ℕ) (s : List Arrival) (a : Accept) → Stops (poll b ip s a)
unfolding poll
poll-Stops b ip s a =
    Stops-then _ _ (Stops-then _ _ (accept-Stops b ip s a) λ b' s'. receive_length-Stops b' s')
      λ b' s'. receive_record-Stops b' s'
