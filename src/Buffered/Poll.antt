-- ===== src/Buffered/Poll.antt =====
-- The whole poll of shared/audio/buffered_audio.c: it stays inside its buffer and keeps the stream whole.
use mathlib.Core.List.{append-nil}
use protable_airplay.Base.{
  ℕ, ◌+◌, ◌-◌, ◌≤◌, ◌<◌, ◌≡◌, ◌≢◌, refl, sym, ap, ap₂, ◌∙◌, ◌⊎◌, inl, inr, Bool, false, ◌&&◌, none,
  List, ltb, Bool-cases, [], arith, length, take, drop, if◌then◌else◌, be, read_be, read_be_lem,
  be-take, be-append_left, ok, length-take, drop-take, ◌||◌,
}
use protable_airplay.Rtp.{slice}
use protable_airplay.Rtp.Safety.{slice_lem}
use protable_airplay.Buffered.{
  Buffered, Arrival, Outcome, stop, next, idle, ◌then◌, data_size, is_discarded, receive_length,
  deliver, receive_record,
}
use protable_airplay.Buffered.Records.{
  in_flight, IsRecord, decode, IsValid, Polled, Stepped, stopped, going, Stepped-then, Stepped-mono,
}
use protable_airplay.Buffered.Receive.{
  Same, Received, Received-kept, drop_client, disconnect-IsValid, receive-Stepped,
}

Same-trans : {a b c : Buffered} → Same a b → Same b c → Same a c
Same-trans p q = record {
  client = q.client ∙ p.client;
  discarding = q.discarding ∙ p.discarding;
  boundary = q.boundary ∙ p.boundary;
}

Received-refl : (b : Buffered) (s : List Arrival) → Received b s b s
Received-refl b s = record {
  same = record { client = refl; discarding = refl; boundary = refl };
  size = refl;
  chunk = [];
  grown = sym (append-nil (in_flight b));
  more = omega arith;
  kept = refl;
}

-- A poll of the state after some bytes were received is one of the state before.
Polled-from :
    (b b' : Buffered) (s s' : List Arrival) (o : Outcome)
    → Received b s b' s'
    → Polled b' s' o
    → Polled b s o
Polled-from b b' s s' o r (Polled.dropped c d) = Polled.dropped c d
Polled-from b b' s s' o r (Polled.waiting c d x y k) =
    Polled.waiting (c ∙ r.same.client) d (x ∙ r.same.discarding) (y ∙ r.same.boundary)
      (Received-kept r ∙ k)
Polled-from b b' s s' o r (Polled.framed l h c u y e k) =
    Polled.framed l h (c ∙ r.same.client) u (y ∙ r.same.boundary)
      (e ∙ ap₂ (λ x z. decode x z l) r.same.discarding r.same.boundary) (Received-kept r ∙ k)

-- What `receive_length` goes on with: two bytes and no more, or a record begun before
abbrev Begun : Buffered → Type 0
Begun b =
    (b.used ≡ 2)
    ⊎ ((2 ≤ b.used)
        × (b.used < be b.bytes 0 2)
        × (38 ≤ be b.bytes 0 2)
        × (be b.bytes 0 2 ≤ data_size))

abbrev HasLength : Buffered → List Arrival → Buffered → List Arrival → Type 0
HasLength b s b' s' = Received b s b' s' × Begun b'

-- What every stop of a poll that began in a valid state guarantees
abbrev pub Fine : Buffered → List Arrival → Outcome → Type 0
Fine b s o = Polled b s o × IsValid o.state

module _ (b : Buffered) (s : List Arrival) (on : b.client ≢ none) (v : IsValid b) where
  small :
      (b' : Buffered) (s' : List Arrival)
      → Received b s b' s'
      → b'.used < 2
      → Fine b s (record { state = b'; rest = s'; status = idle; delivered = none })
  small b' s' r h = (
    Polled.waiting r.same.client refl r.same.discarding r.same.boundary (Received-kept r),
    record {
      size = r.size ∙ v.size;
      partial = inl h;
      unused = λ e. absurd (on (sym r.same.client ∙ e));
    },
  )

  resumed : (b.used < 2 → ⊥) → Begun b
  resumed h = elim v.partial [
    | inl l ↦ absurd (h l)
    | inr (l, m, n) ↦ inr (omega (arith, h), l, m, n)
  ]

  receive_length-Stepped : Stepped (Fine b s) (HasLength b s) (receive_length b s)
  unfolding receive_length
  receive_length-Stepped = elim (Bool-cases (ltb b.used 2)) [
    | inl e ↦ simp e (
        Stepped-then _ _ _ _ _
          (Stepped-mono _ _ _ _
            (receive-Stepped b (2 - b.used) s (ground arith) (ground (arith, v.size)))
            (λ o p. (p.0, p.1 v)))
          λ b' s' (r, g, h). finish b' s' r (ground arith))
    | inr e ↦ simp e (going b s (Received-refl b s, resumed (λ h. ground arith)))
  ]
    where
      finish :
          (b' : Buffered) (s' : List Arrival)
          → Received b s b' s'
          → b'.used ≤ 2
          → Stepped (Fine b s) (HasLength b s) (
              if ltb b'.used 2
              then ok (stop (record { state = b'; rest = s'; status = idle; delivered = none }))
              else ok (next b' s'))
      finish b' s' r h = elim (Bool-cases (ltb b'.used 2)) [
        | inl e ↦ rw e (stopped _ (small b' s' r (ground arith)))
        | inr e ↦ rw e (going b' s' (r, inl (ground arith)))
      ]

-- The number that begins a record, in the buffer and in its bytes
be-in_flight : (b : Buffered) → 2 ≤ b.used → be (in_flight b) 0 2 ≡ be b.bytes 0 2
be-in_flight b h = be-take b.used b.bytes 0 2 h

length-in_flight : (b : Buffered) → b.used ≤ length b.bytes → length (in_flight b) ≡ b.used
length-in_flight b h = omega (arith, length-take b.used b.bytes)

be-Received :
    (b b' : Buffered) (s s' : List Arrival)
    → Received b s b' s'
    → 2 ≤ b.used
    → b.used ≤ length b.bytes
    → be b'.bytes 0 2 ≡ be b.bytes 0 2
be-Received b b' s s' r h k =
    sym (be-in_flight b' (omega (arith, r.more)))
    ∙ (ap (λ l. be l 0 2) r.grown
        ∙ (be-append_left (in_flight b) r.chunk 0 2 (omega (arith, length-in_flight b k))
            ∙ be-in_flight b h))

module _ (b : Buffered) (s : List Arrival) (need : ℕ) (on : b.client ≢ none)
    (size : length b.bytes ≡ data_size) (full : b.used ≡ need) (length_is : be b.bytes 0 2 ≡ need)
    (low : 38 ≤ need) (high : need ≤ data_size) where
  in_flight-IsRecord : IsRecord (in_flight b)
  in_flight-IsRecord = (
    length-in_flight b (omega arith) ∙ (full ∙ sym (be-in_flight b (omega arith) ∙ length_is)),
    omega (arith, length-in_flight b (omega arith)),
    omega (arith, length-in_flight b (omega arith)),
  )

  emptied : (x : Bool) → IsValid (record b { used = 0; discarding = x })
  emptied x = record { size = size; partial = inl (omega arith); unused = λ e. absurd (on e) }

  read_all : (i n : ℕ) → i + n ≤ 38 → read_be b.bytes i n ≡ ok (be (in_flight b) i n)
  read_all i n h =
      read_be_lem b.bytes i n (omega arith) ∙ ap ok (sym (be-take b.used b.bytes i n (omega arith)))

  payload : slice b.bytes 14 (need - 14) ≡ ok (drop 14 (in_flight b))
  payload =
      slice_lem b.bytes 14 (need - 14) (omega arith)
      ∙ ap ok (drop-take 14 (need - 14) b.bytes ∙ ap (λ n. drop 14 (take n b.bytes)) (omega arith))

  deliver-Stepped : Stepped (Fine b s) (λ _ _. ⊥) (deliver b need s)
  unfolding deliver decode
  deliver-Stepped =
      rw (read_all 3 3 (omega arith))
        (elim (Bool-cases
          (b.discarding && is_discarded b.discard_sequence (be (in_flight b) 3 3))) [
            | inl e ↦ simp e (
                stopped _ (
                  Polled.framed (in_flight b) in_flight-IsRecord refl refl refl (ground arith) refl,
                  emptied b.discarding,
                ))
            | inr e ↦
                simp (e, read_all 6 4 (omega arith), read_all 10 4 (omega arith), payload)
                  (stopped _ (
                    Polled.framed (in_flight b) in_flight-IsRecord refl refl refl (simp e) refl,
                    emptied false,
                  ))
          ])

module _ (b : Buffered) (s : List Arrival) (on : b.client ≢ none)
    (size : length b.bytes ≡ data_size) (w : Begun b) where
  receive_record-Stepped : Stepped (Fine b s) (λ _ _. ⊥) (receive_record b s)
  unfolding receive_record
  receive_record-Stepped =
      rw (read_be_lem b.bytes 0 2 (omega arith))
        (elim (Bool-cases (ltb need 38 || ltb data_size need)) [
          | inl e ↦ simp e (stopped _ ((drop_client b s s).0, disconnect-IsValid b size))
          | inr e ↦ simp e (
              Stepped-then _ _ _ _ _
                (Stepped-mono _ _ _ _
                  (receive-Stepped b (need - b.used) s (ground arith) (ground arith))
                  (λ o p. (p.0, p.1 (valid (ground arith) (ground arith)))))
                λ b' s' (r, g, h). finish b' s' r (ground arith) (ground arith, ground arith))
        ])
    where
      need : ℕ
      need = be b.bytes 0 2

      valid : 38 ≤ need → need ≤ data_size → IsValid b
      valid l u = record {
        size = size;
        partial = inr (ground arith, l, u);
        unused = λ e. absurd (on e);
      }

      two : 2 ≤ b.used
      two = omega (arith, w)

      room : b.used ≤ length b.bytes
      room = omega (arith, w)

      same_need : (b' : Buffered) (s' : List Arrival) → Received b s b' s' → be b'.bytes 0 2 ≡ need
      same_need b' s' r = be-Received b b' s s' r two room

      finish :
          (b' : Buffered) (s' : List Arrival)
          → Received b s b' s'
          → b'.used ≤ need
          → (38 ≤ need) × (need ≤ data_size)
          → Stepped
              (Fine b s)
              (λ _ _. ⊥)
              (if ltb b'.used need
                then ok (stop (record { state = b'; rest = s'; status = idle; delivered = none }))
                else deliver b' need s')
      finish b' s' r h k = elim (Bool-cases (ltb b'.used need)) [
        | inl e ↦ rw e (
            stopped _ (
              Polled.waiting r.same.client refl r.same.discarding r.same.boundary (Received-kept r),
              record {
                size = r.size ∙ size;
                partial = inr (
                  ground (arith, same_need b' s' r),
                  omega (arith, k.0, same_need b' s' r),
                  omega (arith, k.1, same_need b' s' r),
                );
                unused = λ f. absurd (on (sym r.same.client ∙ f));
              },
            ))
        | inr e ↦ rw e (
            Stepped-mono _ _ _ _
              (deliver-Stepped b' s' need (λ f. on (sym r.same.client ∙ f)) (r.size ∙ size)
                (ground arith) (same_need b' s' r) k.0 k.1)
              λ o p. (Polled-from b b' s s' o r p.0, p.1))
      ]

pub body-Stepped :
    (b : Buffered) (s : List Arrival)
    → b.client ≢ none
    → IsValid b
    → Stepped (Fine b s) (λ _ _. ⊥) (receive_length b s then receive_record)
body-Stepped b s on v = Stepped-then _ _ _ _ _ (receive_length-Stepped b s on v) λ b' s' (r, w).
    Stepped-mono _ _ _ _
      (receive_record-Stepped b' s' (λ f. on (sym r.same.client ∙ f)) (r.size ∙ v.size) w)
      λ o p. (Polled-from b b' s s' o r p.0, p.1)
