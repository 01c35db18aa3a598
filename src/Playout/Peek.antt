-- ===== src/Playout/Peek.antt =====
-- `playout_peek` and `playout_pop` of shared/audio/playout.c.
use mathlib.Core.List.{Perm}
use protable_airplay.Base.{
  ℕ, suc, ◌+◌, ◌%◌, ◌^◌, ◌≤◌, ◌≡◌, refl, ◌∙◌, ◌⊎◌, inl, inr, true, false, ◌&&◌, Option, none, some,
  List, [], ◌∷◌, arith, length, get_elem?, set, length-set, All, Bool-cases,
}
use native.Mathlib.Nat.{le_trans}
use protable_airplay.Playout.{
  Playout, Slot, clear, closer, distance, peek_loop, peek, pop, take_out,
}
use protable_airplay.Playout.Contents.{
  contents, Entry, length-contents, entry, used, holds, All-set, used-set-clear, Distinct-set-clear,
  contents-set-clear, used-le-length, contents-set-clear,
}
use protable_airplay.Playout.Invariant.{IsValid, SlotOk}

-- No valid slot is nearer to `next` than `s`.
abbrev pub AtMost : ℕ → ℕ → Slot → Type 0
AtMost next d t = t.valid ≡ true → d ≤ distance next t

-- `s` stands in `slots`, at index `j` counted from `i`, and is valid.
abbrev pub Stands : List Slot → ℕ → ℕ → Slot → Type 0
Stands slots i j s = (k : ℕ) × (j ≡ i + k) × (get_elem? slots k ≡ some s) × (s.valid ≡ true)

Stands-cons :
    (t : Slot) (rest : List Slot) (i j : ℕ) (s : Slot)
    → Stands rest (i + 1) j s
    → Stands (t ∷ rest) i j s
Stands-cons t rest i j s (k, e, g, v) = (suc k, omega arith, g, v)

AtMost-mono :
    (next a b : ℕ) (slots : List Slot)
    → a ≤ b
    → All (AtMost next b) slots
    → All (AtMost next a) slots
AtMost-mono next a b [] h l = tt
AtMost-mono next a b (t ∷ rest) h l = ((λ v. omega (arith, l.0 v)), AtMost-mono next a b rest h l.1)

-- The loop with a candidate `(j₀, s₀)`: it ends with that one or with a slot of the rest.
record Nearest (slots : List Slot) (i next : ℕ) (first : Option (ℕ × Slot)) (r : Option (ℕ × Slot))
    : Type 0 where
  index : ℕ
  slot : Slot
  found : r ≡ some (index, slot)
  least : All (AtMost next (distance next slot)) slots
  before : (j : ℕ) (s : Slot) → first ≡ some (j, s) → distance next slot ≤ distance next s
  origin : (first ≡ some (index, slot)) ⊎ Stands slots i index slot

Nearest-take :
    (s : Slot) (rest : List Slot) (i next : ℕ) (first r : Option (ℕ × Slot))
    → s.valid ≡ true
    → closer next s first ≡ true
    → Nearest rest (i + 1) next (some (i, s)) r
    → Nearest (s ∷ rest) i next first r
Nearest-take s rest i next first r v c n = record {
  index = n.index;
  slot = n.slot;
  found = n.found;
  least = ((λ _. n.before i s refl), n.least);
  before = λ j f e. le_trans (n.before i s refl) (beats first c j f e);
  origin = from n.origin;
}
  where
    beats :
        (o : Option (ℕ × Slot))
        → closer next s o ≡ true
        → (j : ℕ) (f : Slot) → o ≡ some (j, f)
        → distance next s ≤ distance next f
    beats none h j f e = cc
    beats (some (j', f')) h j f e = ground arith

    from :
        ◌≡◌ {A = Option (ℕ × Slot)} (some (i, s)) (some (n.index, n.slot))
          ⊎ Stands rest (i + 1) n.index n.slot
        → (first ≡ some (n.index, n.slot)) ⊎ Stands (s ∷ rest) i n.index n.slot
    from (inl e) = inr (0, ground arith, ground arith, ground arith)
    from (inr t) = inr (Stands-cons s rest i n.index n.slot t)

Nearest-skip :
    (s : Slot) (rest : List Slot) (i next : ℕ) (first r : Option (ℕ × Slot))
    → (s.valid && closer next s first) ≡ false
    → Nearest rest (i + 1) next first r
    → Nearest (s ∷ rest) i next first r
Nearest-skip s rest i next none r c n = record {
  index = n.index;
  slot = n.slot;
  found = n.found;
  least = ((λ v. ground arith), n.least);
  before = λ j f e. cc;
  origin = from n.origin;
}
  where
    from :
        ◌≡◌ {A = Option (ℕ × Slot)} none (some (n.index, n.slot))
          ⊎ Stands rest (i + 1) n.index n.slot
        → ◌≡◌ {A = Option (ℕ × Slot)} none (some (n.index, n.slot))
          ⊎ Stands (s ∷ rest) i n.index n.slot
    from (inl e) = inl e
    from (inr t) = inr (Stands-cons s rest i n.index n.slot t)
Nearest-skip s rest i next (some (j₀, s₀)) r c n = record {
  index = n.index;
  slot = n.slot;
  found = n.found;
  least = ((λ v. le_trans (n.before j₀ s₀ refl) (ground arith)), n.least);
  before = n.before;
  origin = from n.origin;
}
  where
    from :
        ◌≡◌ {A = Option (ℕ × Slot)} (some (j₀, s₀)) (some (n.index, n.slot))
          ⊎ Stands rest (i + 1) n.index n.slot
        → ◌≡◌ {A = Option (ℕ × Slot)} (some (j₀, s₀)) (some (n.index, n.slot))
          ⊎ Stands (s ∷ rest) i n.index n.slot
    from (inl e) = inl e
    from (inr t) = inr (Stands-cons s rest i n.index n.slot t)

-- The loop finds nothing and no slot is valid, or it finds the nearest.
abbrev LoopFinds : List Slot → ℕ → ℕ → Option (ℕ × Slot) → Option (ℕ × Slot) → Type 0
LoopFinds slots i next first r =
    ((first ≡ none) × (r ≡ none) × (used slots ≡ 0)) ⊎ Nearest slots i next first r

peek_loop-LoopFinds :
    (slots : List Slot) (i next : ℕ) (first : Option (ℕ × Slot))
    → LoopFinds slots i next first (peek_loop slots i next first)
unfolding peek_loop used
peek_loop-LoopFinds [] i next none = inl (refl, refl, refl)
peek_loop-LoopFinds [] i next (some (j, s)) = inr record {
  index = j;
  slot = s;
  found = refl;
  least = tt;
  before = λ j' s' e. ground arith;
  origin = inl refl;
}
peek_loop-LoopFinds (s ∷ rest) i next first = elim (Bool-cases (s.valid && closer next s first)) [
  | inl c ↦
      simp c
        (take (peek_loop-LoopFinds rest (i + 1) next (some (i, s))) (ground arith) (ground arith))
  | inr c ↦ simp c (skip (peek_loop-LoopFinds rest (i + 1) next first) c)
]
  where
    take :
        {r : Option (ℕ × Slot)}
        → LoopFinds rest (i + 1) next (some (i, s)) r
        → s.valid ≡ true
        → closer next s first ≡ true
        → LoopFinds (s ∷ rest) i next first r
    take (inl e) v c = absurd (cc (e.0))
    take (inr n) v c = inr (Nearest-take s rest i next first _ v c n)

    skip :
        {r : Option (ℕ × Slot)}
        → LoopFinds rest (i + 1) next first r
        → (s.valid && closer next s first) ≡ false
        → LoopFinds (s ∷ rest) i next first r
    skip (inl e) c = inl (e.0, e.1, ground arith)
    skip (inr n) c = inr (Nearest-skip s rest i next first _ c n)

-- What `playout_peek` returns: nothing of an empty queue, or a valid slot that is nearest.
abbrev pub IsFirst : Playout → ℕ → Slot → Type 0
IsFirst q j s =
    (get_elem? q.packets j ≡ some s)
    × (s.valid ≡ true)
    × All (AtMost q.next_sequence (distance q.next_sequence s)) q.packets

peek_cases :
    (q : Playout) (r : Option (ℕ × Slot))
    → LoopFinds q.packets 0 q.next_sequence none r
    → ((r ≡ none) × (contents q.packets ≡ []))
      ⊎ ((j : ℕ) × (s : Slot) × (r ≡ some (j, s)) × IsFirst q j s)
peek_cases q r (inl e) = inl (e.1, nothing (contents q.packets) (length-contents q.packets ∙ e.2))
  where
    nothing : (l : List Entry) → length l ≡ 0 → l ≡ []
    nothing [] h = refl
    nothing (x ∷ l) h = absurd (omega arith)
peek_cases q r (inr n) = elim n.origin [
  | inl e ↦ absurd (cc e)
  | inr (k, e, g, v) ↦
      inr (n.index, n.slot, n.found, (rw (let e' : n.index ≡ k = omega arith in e') g, v, n.least))
]

-- `playout_peek` returns NULL and no slot is valid, or it returns a valid slot of the array whose
-- sequence number is the first one counted up from `next_sequence`, modulo 65536.
pub peek_lem :
    (q : Playout)
    → ((peek q ≡ none) × (contents q.packets ≡ []))
      ⊎ ((j : ℕ) × (s : Slot) × (peek q ≡ some (j, s)) × IsFirst q j s)
unfolding peek
peek_lem q = peek_cases q _ (peek_loop-LoopFinds q.packets 0 q.next_sequence none)

-- What popping the valid slot `j` does to a valid queue
pub record Popped (q : Playout) (j : ℕ) (s : Slot) (r : Option Playout) : Type 0 where
  pub rest : Playout
  pub returned : r ≡ some rest
  pub cleared : rest.packets ≡ set q.packets j (clear s)
  pub removed : Perm (contents q.packets) (entry s ∷ contents rest.packets)
  pub forgotten : holds s.header.sequence rest.packets ≡ false
  pub counted : q.count ≡ rest.count + 1
  pub next : rest.next_sequence ≡ (s.header.sequence + 1) % 2 ^ 16
  pub begun : (rest.started ≡ true) × (rest.have_sequence ≡ q.have_sequence)
  pub valid : IsValid rest

-- Popping a valid slot of a valid queue takes exactly its packet out of the contents and its
-- sequence number with it, counts one less, starts playing at the sequence behind it, and keeps the
-- queue valid.
pub pop-Popped :
    (q : Playout) (j : ℕ) (s : Slot)
    → IsValid q
    → get_elem? q.packets j ≡ some s
    → s.valid ≡ true
    → Popped q j s (pop q j)
unfolding pop
pop-Popped q j s v e w = record {
  rest = take_out q j s;
  returned = ground arith;
  cleared = refl;
  removed = contents-set-clear q.packets j s e w;
  forgotten = (Distinct-set-clear q.packets j s e w v.distinct).1;
  counted = one_less;
  next = refl;
  begun = (refl, refl);
  valid = record {
    size = length-set q.packets j (clear s) ∙ v.size;
    counted = omega (arith, one_less, v.counted, used-set-clear q.packets j s e w);
    distinct = (Distinct-set-clear q.packets j s e w v.distinct).0;
    slots = All-set SlotOk q.packets j (clear s) (λ h. cc) v.slots;
    next_in = omega arith;
    known = λ h. omega (arith, v.known h, used-set-clear q.packets j s e w);
  };
}
  where
    one_less : q.count ≡ (take_out q j s).count + 1
    one_less =
        omega (arith, v.counted, used-set-clear q.packets j s e w, used-le-length q.packets, v.size)
