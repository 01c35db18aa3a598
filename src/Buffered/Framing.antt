-- ===== src/Buffered/Framing.antt =====
-- Many polls of shared/audio/buffered_audio.c: however the stream is cut up on its way, the packets
-- delivered are those of the records that it consists of.
use mathlib.Core.List.{append_assoc, flatten}
use protable_airplay.Base.{
  ℕ, zero, suc, ◌≡◌, ◌≢◌, refl, sym, ap, ap₂, ◌∙◌, ◌⊎◌, inl, inr, Bool, Option, none, some, List,
  [], ◌∷◌, ◌++◌, All, take, Result, ok, fail, fault, ◌>>=◌, Option-cases,
}
use protable_airplay.Rtp.{RtpPacket}
use protable_airplay.Buffered.{Buffered, Arrival, no_peer, Outcome, Step, stop, next, poll}
use protable_airplay.Buffered.Records.{
  pending, in_flight, IsRecord, decode, IsValid, Polled, Stepped, stopped, going,
}
use protable_airplay.Buffered.Admission.{Admitted, Sound, poll-Sound, poll-Polled}

abbrev pub add_to : Option RtpPacket → List RtpPacket → List RtpPacket
add_to none ps = ps
add_to (some p) ps = p ∷ ps

-- The state, the bytes left in the socket, and the packets delivered
abbrev pub Run : Type 0
Run = Buffered × List Arrival × List RtpPacket

abbrev pub collect : Option RtpPacket → Run → Result Run
collect p (b, s, ps) = ok (b, s, add_to p ps)

-- `n` polls in a row, with no other peer to accept
unfoldable pub polls : ℕ → Buffered → List ℕ → List Arrival → Result Run
polls zero b ip s = ok (b, s, [])
polls (suc n) b ip s = elim (poll b ip s no_peer) [
  | ok (stop o) ↦ polls n o.state ip o.rest >>= collect o.delivered
  | ok (next b' s') ↦ fault
  | fail ↦ fault
  | fault ↦ fault
]

-- What a sequence of records delivers
unfoldable pub decode_all : Bool → ℕ → List (List ℕ) → List RtpPacket
decode_all discarding boundary [] = []
decode_all discarding boundary (r ∷ rs) =
    let (p, discarding') = decode discarding boundary r in
    add_to p (decode_all discarding' boundary rs)

-- The polls took whole records off the stream and delivered what they call for.
abbrev pub Framed : Buffered → List Arrival → Run → Type 0
Framed b s (b', s', ps) =
    (rs : List (List ℕ)) × All IsRecord rs
    × (in_flight b ++ pending s ≡ flatten rs ++ (in_flight b' ++ pending s'))
    × (ps ≡ decode_all b.discarding b.discard_sequence rs)

abbrev pub Ran : Buffered → List Arrival → Run → Type 0
Ran b s (b', s', ps) = (b'.client ≡ none) ⊎ Framed b s (b', s', ps)

-- A step that cannot go on has stopped.
stops :
    (P : Outcome → Type 0) (m : Result Step)
    → Stepped P (λ _ _. ⊥) m
    → (o : Outcome) × (m ≡ ok (stop o)) × P o
stops P m (stopped o p) = (o, refl, p)
stops P m (going b s q) = absurd q

polls-step :
    (n : ℕ) (b : Buffered) (ip : List ℕ) (s : List Arrival) (o : Outcome) (r : Run)
    → poll b ip s no_peer ≡ ok (stop o)
    → polls n o.state ip o.rest ≡ ok r
    → polls (suc n) b ip s ≡ collect o.delivered r
unfolding polls
polls-step n b ip s o r e f = rw (e, polls) (rw f)

closed_stays :
    (n : ℕ) (b : Buffered) (ip : List ℕ) (s : List Arrival)
    → IsValid b
    → b.client ≡ none
    → (r : Run) × (polls n b ip s ≡ ok r) × (r.0.client ≡ none)
unfolding polls
closed_stays zero b ip s v e = ((b, s, []), refl, e)
closed_stays (suc n) b ip s v e =
    let (o, f, p) = stops _ _ (poll-Sound b ip s no_peer v) in
    let (r, g, c) = closed_stays n o.state ip o.rest p.valid (left o p (p.origin e)) in
    ((r.0, r.1, add_to o.delivered r.2), polls-step n b ip s o r f g, c)
  where
    left :
        (o : Outcome)
        → Sound b ip no_peer o
        → Admitted ip no_peer ⊎ ((o.state.client ≡ none) × (o.delivered ≡ none))
        → o.state.client ≡ none
    left o p (inl (h, x, _)) = cc
    left o p (inr (x, _)) = x

none_held : (b : Buffered) → b.used ≡ 0 → in_flight b ≡ []
none_held b e = ap (λ n. take n b.bytes) e

-- The framing of a poll and of the polls behind it, together
Framed-cons :
    (b : Buffered) (s : List Arrival) (o : Outcome) (r : Run)
    → o.state.client ≢ none
    → Polled b s o
    → Framed o.state o.rest r
    → Framed b s (r.0, r.1, add_to o.delivered r.2)
unfolding decode_all flatten
Framed-cons b s o r on (Polled.dropped c d) f = absurd (on c)
Framed-cons b s o r on (Polled.waiting c d x y k) (rs, h, f, g) =
    (rs, h, k ∙ f, ap (λ p. add_to p r.2) d ∙ (g ∙ ap₂ (λ v z. decode_all v z rs) x y))
Framed-cons b s o r on (Polled.framed l h c u y e k) (rs, hs, f, g) = (
  l ∷ rs,
  (h, hs),
  k
      ∙ (ap (◌++◌ l) (ap (λ v. v ++ pending o.rest) (sym (none_held o.state u)) ∙ f)
          ∙ sym (append_assoc l (flatten rs) (in_flight r.0 ++ pending r.1))),
  ap₂ add_to (ap (λ p. p.0) e) (g ∙ ap₂ (λ v z. decode_all v z rs) (ap (λ p. p.1) e) y),
)

Ran-cons :
    (b : Buffered) (s : List Arrival) (o : Outcome) (r : Run)
    → o.state.client ≢ none
    → Polled b s o
    → Ran o.state o.rest r
    → Ran b s (r.0, r.1, add_to o.delivered r.2)
Ran-cons b s o r on p (inl c) = inl c
Ran-cons b s o r on p (inr f) = inr (Framed-cons b s o r on p f)

-- However the stream of an open connection is cut into arrivals, any number of polls of a valid state
-- ends without a fault, and then the connection is gone, or the bytes held and to come were whole
-- records followed by the bytes now held and to come, and exactly what these records call for was
-- delivered, in their order.
pub polls-Framed :
    (n : ℕ) (b : Buffered) (ip : List ℕ) (s : List Arrival)
    → IsValid b
    → b.client ≢ none
    → (r : Run) × (polls n b ip s ≡ ok r) × Ran b s r
unfolding polls decode_all flatten
polls-Framed zero b ip s v on = ((b, s, []), refl, inr ([], tt, refl, refl))
polls-Framed (suc n) b ip s v on =
    let (o, f, p) = stops _ _ (poll-Polled b ip s no_peer v on) in
    elim (Option-cases o.state.client) [
      | inl e ↦
          let (r, g, c) = closed_stays n o.state ip o.rest p.1 e in
          ((r.0, r.1, add_to o.delivered r.2), polls-step n b ip s o r f g, inl c)
      | inr (h, e) ↦
          let (r, g, c) = polls-Framed n o.state ip o.rest p.1 (λ x. cc) in
          (
            (r.0, r.1, add_to o.delivered r.2),
            polls-step n b ip s o r f g,
            Ran-cons b s o r (λ x. cc) p.0 c,
          )
    ]
