-- ===== src/Buffered/Receive.antt =====
-- One poll of shared/audio/buffered_audio.c: it stays inside its buffer and keeps the stream whole.
use mathlib.Core.List.{append_assoc}
use protable_airplay.Base.{
  ℕ, ◌+◌, ◌≤◌, ◌<◌, ◌≡◌, refl, sym, ap, ◌∙◌, inl, inr, none, List, ltb, le→ltb_false, Bool-cases,
  [], ◌∷◌, ◌++◌, arith, length, take, drop, length-take, take-append-drop,
}
use protable_airplay.Buffered.{
  Buffered, Arrival, nothing_yet, closed, received, Outcome, idle, data_size, fill, disconnect,
  take_arrival, receive,
}
use protable_airplay.Buffered.Records.{
  pending, in_flight, IsValid, Polled, Stepped, stopped, going, in_flight-fill, length-fill,
}

-- The states agree but for the buffer.
pub record Same (b b' : Buffered) : Type 0 where
  pub client : b'.client ≡ b.client
  pub discarding : b'.discarding ≡ b.discarding
  pub boundary : b'.discard_sequence ≡ b.discard_sequence

-- `b'` and `s'` come from `b` and `s` by receiving some bytes.
pub record Received (b : Buffered) (s : List Arrival) (b' : Buffered) (s' : List Arrival)
    : Type 0 where
  pub same : Same b b'
  pub size : length b'.bytes ≡ length b.bytes
  pub chunk : List ℕ
  pub grown : in_flight b' ≡ in_flight b ++ chunk
  pub more : b'.used ≡ b.used + length chunk
  pub kept : chunk ++ pending s' ≡ pending s

pub Received-kept :
    {b b' : Buffered} {s s' : List Arrival}
    → Received b s b' s'
    → in_flight b ++ pending s ≡ in_flight b' ++ pending s'
Received-kept {b} {b'} {s} {s'} r =
    ap (◌++◌ (in_flight b)) (sym r.kept)
    ∙ (sym (append_assoc (in_flight b) r.chunk (pending s'))
        ∙ ap (λ l. l ++ pending s') (sym r.grown))

fill-Received :
    (b : Buffered) (s s' : List Arrival) (chunk : List ℕ)
    → b.used + length chunk ≤ length b.bytes
    → chunk ++ pending s' ≡ pending s
    → Received b s (fill b chunk) s'
fill-Received b s s' chunk h k = record {
  same = record { client = refl; discarding = refl; boundary = refl };
  size = length-fill b chunk h;
  chunk = chunk;
  grown = in_flight-fill b chunk (omega arith);
  more = refl;
  kept = k;
}

-- A poll that ends here: without a packet, with the connection dropped or the stream as it was
abbrev pub Ended : Buffered → List Arrival → Outcome → Type 0
Ended b s o = Polled b s o × (IsValid b → IsValid o.state)

-- A call of `net_tcp_recv` that goes on has got at least one byte and at most its capacity.
abbrev pub Got : Buffered → List Arrival → ℕ → Buffered → List Arrival → Type 0
Got b s capacity b' s' = Received b s b' s' × (b.used < b'.used) × (b'.used ≤ b.used + capacity)

pub wait :
    (b : Buffered) (s rest : List Arrival)
    → pending s ≡ pending rest
    → Ended b s (record { state = b; rest = rest; status = idle; delivered = none })
wait b s rest e = (Polled.waiting refl refl refl refl (ap (◌++◌ (in_flight b)) e), λ v. v)

pub disconnect-IsValid : (b : Buffered) → length b.bytes ≡ data_size → IsValid (disconnect b)
unfolding disconnect
disconnect-IsValid b size = record { size = size; partial = inl (omega arith); unused = λ _. refl }

pub drop_client :
    (b : Buffered) (s rest : List Arrival)
    → Ended b s (record { state = disconnect b; rest = rest; status = idle; delivered = none })
unfolding disconnect
drop_client b s rest = (Polled.dropped refl refl, λ v. disconnect-IsValid b v.size)

take_arrival-Stepped :
    (b : Buffered) (capacity : ℕ) (s : List Arrival)
    → 1 ≤ capacity
    → b.used + capacity ≤ length b.bytes
    → Stepped (Ended b s) (Got b s capacity) (take_arrival b capacity s)
unfolding take_arrival pending
take_arrival-Stepped b c [] h k = stopped _ (wait b [] [] refl)
take_arrival-Stepped b c (nothing_yet ∷ rest) h k = stopped _ (wait b _ rest refl)
take_arrival-Stepped b c (closed ∷ rest) h k = stopped _ (drop_client b _ rest)
take_arrival-Stepped b c (received [] ∷ rest) h k = stopped _ (drop_client b _ rest)
take_arrival-Stepped b c (received (x ∷ xs) ∷ rest) h k =
    elim (Bool-cases (ltb c (length (x ∷ xs)))) [
      | inl e ↦ rw e (
          going _ _ (
            fill-Received b _ _ (take c (x ∷ xs)) (omega (arith, length-take c (x ∷ xs))) (
                sym (append_assoc (take c (x ∷ xs)) (drop c (x ∷ xs)) (pending rest))
                ∙ ap (λ l. l ++ pending rest) (take-append-drop c (x ∷ xs))),
            ground (arith, length-take c (x ∷ xs)),
            ground (arith, length-take c (x ∷ xs)),
          ))
      | inr e ↦
          rw e (
            going _ _
              (fill-Received b _ _ (x ∷ xs) (ground arith) refl, ground arith, ground arith))
    ]

pub receive-Stepped :
    (b : Buffered) (capacity : ℕ) (s : List Arrival)
    → 1 ≤ capacity
    → b.used + capacity ≤ length b.bytes
    → Stepped (Ended b s) (Got b s capacity) (receive b capacity s)
unfolding receive
receive-Stepped b c s h k =
    rw (le→ltb_false (length b.bytes) (b.used + c) k) (take_arrival-Stepped b c s h k)
