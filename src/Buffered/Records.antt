-- ===== src/Buffered/Records.antt =====
-- The records that shared/audio/buffered_audio.c cuts from the stream, and what it delivers of them.
use protable_airplay.Base.{
  ℕ, ◌+◌, ◌≤◌, ◌<◌, ◌≡◌, refl, sym, ap, ◌∙◌, ◌⊎◌, Bool, true, false, ◌&&◌, Option, none, some, List,
  [], ◌∷◌, ◌++◌, arith, length, take, drop, if◌then◌else◌, be, Result, ok, fail, fault,
  length-append, length-take, length-drop, take-append,
}
use mathlib.Core.List.{append_assoc}
use protable_airplay.Rtp.{RtpPacket}
use protable_airplay.Buffered.{
  Buffered, Arrival, nothing_yet, closed, received, Outcome, Step, stop, next, ◌then◌, data_size,
  fill, is_discarded, packet_of,
}

-- The bytes that the socket holds
unfoldable pub pending : List Arrival → List ℕ
pending [] = []
pending (nothing_yet ∷ s) = pending s
pending (closed ∷ s) = pending s
pending (received bs ∷ s) = bs ++ pending s

-- The bytes of a record that is not complete
abbrev pub in_flight : Buffered → List ℕ
in_flight b = take b.used b.bytes

-- A record on the wire: its first two bytes are its length, which lies in the bounds of the code.
abbrev pub IsRecord : List ℕ → Type 0
IsRecord r = (length r ≡ be r 0 2) × (38 ≤ length r) × (length r ≤ data_size)

-- What a record delivers, and whether records are still discarded behind it
unfoldable pub decode : Bool → ℕ → List ℕ → Option RtpPacket × Bool
decode discarding boundary r =
    if discarding && is_discarded boundary (be r 3 3)
    then (none, true)
    else (some (packet_of (be r 3 3) (be r 6 4) (be r 10 4) (drop 14 r)), false)

pub record IsValid (b : Buffered) : Type 0 where
  pub size : length b.bytes ≡ data_size
  pub partial :
      (b.used < 2)
      ⊎ ((b.used < be b.bytes 0 2) × (38 ≤ be b.bytes 0 2) × (be b.bytes 0 2 ≤ data_size))
  pub unused : b.client ≡ none → b.used ≡ 0

-- The poll dropped the connection, kept a part of a record, or took one record off the stream.
pub data Polled (b : Buffered) (s : List Arrival) (o : Outcome) : Type 0 where
  dropped : o.state.client ≡ none → o.delivered ≡ none → Polled b s o
  waiting :
      o.state.client ≡ b.client
      → o.delivered ≡ none
      → o.state.discarding ≡ b.discarding
      → o.state.discard_sequence ≡ b.discard_sequence
      → in_flight b ++ pending s ≡ in_flight o.state ++ pending o.rest
      → Polled b s o
  framed :
      (r : List ℕ)
      → IsRecord r
      → o.state.client ≡ b.client
      → o.state.used ≡ 0
      → o.state.discard_sequence ≡ b.discard_sequence
      → (o.delivered, o.state.discarding) ≡ decode b.discarding b.discard_sequence r
      → in_flight b ++ pending s ≡ r ++ pending o.rest
      → Polled b s o

-- A step that stops with `P` or goes on with `Q`, and does not fault
pub data Stepped (P : Outcome → Type 0) (Q : Buffered → List Arrival → Type 0)
    : Result Step → Type 0 where
  stopped : (o : Outcome) → P o → Stepped P Q (ok (stop o))
  going : (b : Buffered) (s : List Arrival) → Q b s → Stepped P Q (ok (next b s))

pub Stepped-then :
    (P : Outcome → Type 0) (Q R : Buffered → List Arrival → Type 0) (m : Result Step)
    (f : Buffered → List Arrival → Result Step)
    → Stepped P Q m
    → ((b : Buffered) (s : List Arrival) → Q b s → Stepped P R (f b s))
    → Stepped P R (m then f)
Stepped-then P Q R m f (stopped o p) h = stopped o p
Stepped-then P Q R m f (going b s q) h = h b s q

pub Stepped-mono :
    (P P' : Outcome → Type 0) (Q : Buffered → List Arrival → Type 0) (m : Result Step)
    → Stepped P Q m
    → ((o : Outcome) → P o → P' o)
    → Stepped P' Q m
Stepped-mono P P' Q m (stopped o p) h = stopped o (h o p)
Stepped-mono P P' Q m (going b s q) h = going b s q

pub Stepped-weaken :
    (P : Outcome → Type 0) (Q R : Buffered → List Arrival → Type 0) (m : Result Step)
    → Stepped P Q m
    → ((b : Buffered) (s : List Arrival) → Q b s → R b s)
    → Stepped P R m
Stepped-weaken P Q R m (stopped o p) h = stopped o p
Stepped-weaken P Q R m (going b s q) h = going b s (h b s q)

pub then_assoc :
    (m : Result Step) (f g : Buffered → List Arrival → Result Step)
    → (m then f then g) ≡ (m then (λ b s. f b s then g))
then_assoc fail f g = refl
then_assoc fault f g = refl
then_assoc (ok (stop o)) f g = refl
then_assoc (ok (next b s)) f g = refl

pub in_flight-fill :
    (b : Buffered) (chunk : List ℕ)
    → b.used ≤ length b.bytes
    → in_flight (fill b chunk) ≡ in_flight b ++ chunk
in_flight-fill b chunk h =
    ap (λ l. take (b.used + length chunk) l) (sym (append_assoc (in_flight b) chunk after))
    ∙ ap (λ n. take n ((in_flight b ++ chunk) ++ after)) size
    ∙ take-append (in_flight b ++ chunk) after
  where
    after : List ℕ
    after = drop (b.used + length chunk) b.bytes

    size : b.used + length chunk ≡ length (in_flight b ++ chunk)
    size = omega (arith, length-append (in_flight b) chunk, length-take b.used b.bytes)

pub length-fill :
    (b : Buffered) (chunk : List ℕ)
    → b.used + length chunk ≤ length b.bytes
    → length (fill b chunk).bytes ≡ length b.bytes
length-fill b chunk h = omega (
  arith,
  length-append (in_flight b) (chunk ++ drop (b.used + length chunk) b.bytes),
  length-append chunk (drop (b.used + length chunk) b.bytes),
  length-take b.used b.bytes,
  length-drop (b.used + length chunk) b.bytes,
)
