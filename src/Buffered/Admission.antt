-- ===== src/Buffered/Admission.antt =====
-- Accepting a sender, and the poll as a whole, in shared/audio/buffered_audio.c: it stays inside its buffer and keeps the stream whole.
use protable_airplay.Base.{
  ℕ, ◌≡◌, ◌≢◌, refl, ap, ◌⊎◌, inl, inr, false, none, some, List, Bool-cases, [], ◌∷◌, arith,
  if◌then◌else◌, ok, ◌||◌, not, str_eq, str_eq→eq, Option-cases,
}
use protable_airplay.Buffered.{
  Buffered, Arrival, Accept, peer, no_peer, accept_error, Outcome, stop, next, idle, ◌then◌,
  disconnect, poll, accept, accept_new,
}
use protable_airplay.Buffered.Records.{
  IsValid, Stepped, stopped, going, Stepped-then, Stepped-mono, Stepped-weaken, then_assoc,
}
use protable_airplay.Buffered.Poll.{Fine, body-Stepped}
use protable_airplay.Buffered.Receive.{disconnect-IsValid}

-- A connection was accepted, and its peer has the address of the sender.
abbrev pub Admitted : List ℕ → Accept → Type 0
Admitted ip a = (handle : ℕ) × (a ≡ peer handle ip) × (ip ≢ [])

-- What a stop of any poll guarantees
pub record Sound (b : Buffered) (ip : List ℕ) (a : Accept) (o : Outcome) : Type 0 where
  pub valid : IsValid o.state
  pub origin : b.client ≡ none → Admitted ip a ⊎ ((o.state.client ≡ none) × (o.delivered ≡ none))

accept_peer-Stepped :
    (b : Buffered) (ip : List ℕ) (s : List Arrival) (handle : ℕ) (address : List ℕ)
    → IsValid b
    → b.client ≡ none
    → Stepped
        (Sound b ip (peer handle address))
        (λ b' _. IsValid b' × (b'.client ≢ none) × Admitted ip (peer handle address))
        (if str_eq ip [] || not (str_eq address ip)
          then ok (
              stop (record {
                state = disconnect (record b { client = some handle });
                rest = s;
                status = idle;
                delivered = none;
              }))
          else ok (next (record b { client = some handle }) s))
unfolding disconnect str_eq
accept_peer-Stepped b ip s handle address v e =
    elim (Bool-cases (str_eq ip [] || not (str_eq address ip))) [
      | inl t ↦ rw t (
          stopped _ record {
            valid = disconnect-IsValid (record b { client = some handle }) v.size;
            origin = λ _. inr (refl, refl);
          })
      | inr t ↦ rw t (
          going _ _ (
            record { size = v.size; partial = v.partial; unused = λ f. cc },
            (λ f. cc),
            (
              handle,
              ap (peer handle) (str_eq→eq address ip (ground arith)),
              nonempty ip (ground arith),
            ),
          ))
    ]
  where
    nonempty : (l : List ℕ) → str_eq l [] ≡ false → l ≢ []
    nonempty [] h f = cc
    nonempty (x ∷ l) h f = cc

accept-eq_closed :
    (b : Buffered) (ip : List ℕ) (s : List Arrival) (a : Accept)
    → b.client ≡ none
    → accept b ip s a ≡ accept_new b ip s a
unfolding accept
accept-eq_closed b ip s a e = ground arith

accept-eq_open :
    (b : Buffered) (ip : List ℕ) (s : List Arrival) (a : Accept) (h : ℕ)
    → b.client ≡ some h
    → accept b ip s a ≡ ok (next b s)
unfolding accept
accept-eq_open b ip s a h e = ground arith

accept-Stepped :
    (b : Buffered) (ip : List ℕ) (s : List Arrival) (a : Accept)
    → IsValid b
    → Stepped
        (Sound b ip a)
        (λ b' _. IsValid b' × (b'.client ≢ none) × (b.client ≡ none → Admitted ip a))
        (accept b ip s a)
unfolding accept_new
accept-Stepped b ip s a v = elim (Option-cases b.client) [
  | inl e ↦ rw (accept-eq_closed b ip s a e) (closed_before a e)
  | inr (h, e) ↦ rw (accept-eq_open b ip s a h e) (going b s (v, (λ f. cc), λ f. cc))
]
  where
    closed_before :
        (a : Accept)
        → b.client ≡ none
        → Stepped
            (Sound b ip a)
            (λ b' _. IsValid b' × (b'.client ≢ none) × (b.client ≡ none → Admitted ip a))
            (accept_new b ip s a)
    closed_before no_peer e = stopped _ record { valid = v; origin = λ f. inr (e, refl) }
    closed_before accept_error e = stopped _ record { valid = v; origin = λ f. inr (e, refl) }
    closed_before (peer handle address) e =
        Stepped-weaken _ _ _ _ (accept_peer-Stepped b ip s handle address v e)
          λ b' s' (x, y, z). (x, y, λ _. z)

-- `buffered_audio_poll` of a valid state stays inside its buffer and always returns, with a valid
-- state. Where no connection was open, there is none after it and nothing is delivered, or it accepted
-- a peer whose address is the sender's.
pub poll-Sound :
    (b : Buffered) (ip : List ℕ) (s : List Arrival) (a : Accept)
    → IsValid b
    → Stepped (Sound b ip a) (λ _ _. ⊥) (poll b ip s a)
unfolding poll
poll-Sound b ip s a v = rw then_assoc (
    Stepped-then _ _ _ _ _ (accept-Stepped b ip s a v) λ b' s' (w, on, z).
      Stepped-mono _ _ _ _ (body-Stepped b' s' on w)
        λ o p. record { valid = p.1; origin = λ e. inl (z e) })

-- On an open connection it either drops the connection and delivers nothing; or it delivers nothing
-- and keeps what it received in front of what the socket still holds; or it takes one whole record
-- off the front of the stream, delivers what that record calls for, and holds no part of another.
pub poll-Polled :
    (b : Buffered) (ip : List ℕ) (s : List Arrival) (a : Accept)
    → IsValid b
    → b.client ≢ none
    → Stepped (Fine b s) (λ _ _. ⊥) (poll b ip s a)
unfolding poll
poll-Polled b ip s a v on = elim (Option-cases b.client) [
  | inl e ↦ absurd (on e)
  | inr (h, e) ↦ rw (accept-eq_open b ip s a h e) (body-Stepped b s on v)
]
