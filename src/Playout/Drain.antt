-- ===== src/Playout/Drain.antt =====
-- Playing out a queue of shared/audio/playout.c: `playout_peek` and `playout_pop` until it is empty,
-- as the audio pipeline does.
use mathlib.Core.List.{Perm}
use mathlib.Core.List.Perm
use protable_airplay.Base.{
  ℕ, zero, suc, ◌+◌, ◌%◌, ◌^◌, ◌≤◌, ◌<◌, ◌≡◌, ◌≢◌, refl, ◌∙◌, inl, inr, true, false, none, some,
  List, [], ◌∷◌, arith, set, All,
}
use protable_airplay.Base.Int.{sub16}
use protable_airplay.Playout.{Playout, Slot, clear, distance, peek, pop}
use protable_airplay.Playout.Contents.{contents, Entry, entry, used, holds, All-set, All-get}
use protable_airplay.Playout.Invariant.{IsValid, SlotOk}
use protable_airplay.Playout.Peek.{AtMost, peek_lem, pop-Popped}

unfoldable pub drain : ℕ → Playout → List Entry
unfolding peek pop
drain zero q = []
drain (suc fuel) q = elim (peek q) [
  | none ↦ []
  | some (j, s) ↦ elim (pop q j) [ none ↦ [] | some rest ↦ entry s ∷ drain fuel rest ]
]

-- Counted up from `base` modulo 65536, the sequence numbers rise strictly, from `lo` on.
abbrev pub Ascending : ℕ → ℕ → List Entry → Type 0
Ascending base lo [] = Unit {0}
Ascending base lo ((header, bytes) ∷ rest) =
    (lo ≤ sub16 header.sequence base) × Ascending base (sub16 header.sequence base + 1) rest

-- With the nearest slot gone, the others lie strictly behind it.
AtMost-step :
    (base lo next : ℕ) (s : Slot) (slots : List Slot)
    → base < 2 ^ 16
    → next ≡ (base + lo) % 2 ^ 16
    → s.header.sequence < 2 ^ 16
    → lo ≤ distance base s
    → All (AtMost next (distance next s)) slots
    → All (AtMost base lo) slots
    → All SlotOk slots
    → holds s.header.sequence slots ≡ false
    → All (AtMost base (distance base s + 1)) slots
unfolding holds
AtMost-step base lo next s [] hb hn hs hl a b c h = tt
AtMost-step base lo next s (t ∷ rest) hb hn hs hl a b c h = (
  (λ v. omega (arith, a.0 v, b.0 v, (c.0 v).0, differ v)),
  AtMost-step base lo next s rest hb hn hs hl a.1 b.1 c.1 (ground arith),
)
  where
    differ : t.valid ≡ true → t.header.sequence ≢ s.header.sequence
    differ v e = ground arith

drain-step :
    (fuel : ℕ) (q rest : Playout) (j : ℕ) (s : Slot)
    → peek q ≡ some (j, s)
    → pop q j ≡ some rest
    → drain (suc fuel) q ≡ entry s ∷ drain fuel rest
unfolding drain
drain-step fuel q rest j s e f = ground arith

-- So after the pop every packet left lies behind the popped one.
behind :
    (q rest : Playout) (base lo j : ℕ) (s : Slot)
    → IsValid q
    → rest.packets ≡ set q.packets j (clear s)
    → holds s.header.sequence rest.packets ≡ false
    → base < 2 ^ 16
    → q.next_sequence ≡ (base + lo) % 2 ^ 16
    → s.header.sequence < 2 ^ 16
    → lo ≤ distance base s
    → All (AtMost base lo) q.packets
    → All (AtMost q.next_sequence (distance q.next_sequence s)) q.packets
    → All (AtMost base (distance base s + 1)) rest.packets
behind q rest base lo j s v c f hb hn hs hl ha l =
    AtMost-step base lo q.next_sequence s rest.packets hb hn hs hl
      (rw c (
        All-set (AtMost q.next_sequence (distance q.next_sequence s)) q.packets j (clear s)
          (λ h. cc) l))
      (rw c (All-set (AtMost base lo) q.packets j (clear s) (λ h. cc) ha))
      (rw c (All-set SlotOk q.packets j (clear s) (λ h. cc) v.slots)) f

drain-Ascending :
    (fuel : ℕ) (q : Playout) (base lo : ℕ)
    → IsValid q
    → base < 2 ^ 16
    → q.next_sequence ≡ (base + lo) % 2 ^ 16
    → All (AtMost base lo) q.packets
    → Ascending base lo (drain fuel q)
unfolding drain
drain-Ascending zero q base lo v hb hn ha = tt
drain-Ascending (suc fuel) q base lo v hb hn ha = elim (peek_lem q) [
  | inl (e, _) ↦ rw (e, drain) tt
  | inr (j, s, e, (g, w, l)) ↦
      let p = pop-Popped q j s v g w in
      let low : lo ≤ distance base s = All-get (AtMost base lo) q.packets j s g ha w in
      let seq : s.header.sequence < 2 ^ 16 = (All-get SlotOk q.packets j s g v.slots w).0 in
      rw (drain-step fuel q p.rest j s e p.returned) (
        low,
        drain-Ascending fuel p.rest base (distance base s + 1) p.valid hb (p.next ∙ omega arith)
            (behind q p.rest base lo j s v p.cleared p.forgotten hb hn seq low ha l),
      )
]

empty_of_used : (l : List Slot) → used l ≤ 0 → contents l ≡ []
unfolding used contents
empty_of_used [] h = refl
empty_of_used (s ∷ l) h = ground (arith, empty_of_used l)

drain-perm :
    (fuel : ℕ) (q : Playout)
    → IsValid q
    → used q.packets ≤ fuel
    → Perm (drain fuel q) (contents q.packets)
unfolding drain
drain-perm zero q v h = rw (empty_of_used q.packets h) (Perm.refl [])
drain-perm (suc fuel) q v h = elim (peek_lem q) [
  | inl (e, n) ↦ rw (e, drain, n) (Perm.refl [])
  | inr (j, s, e, (g, w, l)) ↦
      let p = pop-Popped q j s v g w in
      rw (drain-step fuel q p.rest j s e p.returned) (
        Perm.trans
          (Perm.cons (entry s)
            (drain-perm fuel p.rest p.valid (omega (arith, p.counted, p.valid.counted, v.counted))))
          (Perm.symm p.removed))
]

All-AtMost_zero : (base : ℕ) (l : List Slot) → All (AtMost base 0) l
All-AtMost_zero base [] = tt
All-AtMost_zero base (s ∷ l) = ((λ _. omega arith), All-AtMost_zero base l)

-- Playing out a valid queue, `queue->count` rounds of peek and pop deliver every packet that it holds
-- exactly once, with the sequence numbers in strictly rising order from `next_sequence` on, counted
-- modulo 65536.
pub drain_sorts :
    (q : Playout)
    → IsValid q
    → Perm (drain q.count q) (contents q.packets) × Ascending q.next_sequence 0 (drain q.count q)
drain_sorts q v = (
  drain-perm q.count q v (omega (arith, v.counted)),
  drain-Ascending q.count q q.next_sequence 0 v v.next_in (omega (arith, v.next_in))
      (All-AtMost_zero q.next_sequence q.packets),
)
