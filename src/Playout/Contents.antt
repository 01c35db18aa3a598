-- ===== src/Playout/Contents.antt =====
-- What a slot array of shared/audio/playout.c holds, and how one write to it changes that.
use mathlib.Core.List.{Perm}
use mathlib.Core.List.Perm
use protable_airplay.Base.{
  ℕ, zero, suc, ◌+◌, ◌≤◌, ◌≡◌, refl, subst, inl, inr, Bool, true, false, ◌&&◌, ◌||◌, some, List, [],
  ◌∷◌, map, arith, ◌==◌, if◌then◌else◌, length, get_elem?, set, Bool-cases, All,
}
use protable_airplay.Rtp.{RtpHeader}
use protable_airplay.Playout.{Slot, clear}

-- A queued packet: its header and its bytes
abbrev pub Entry : Type 0
Entry = RtpHeader × List ℕ

abbrev pub entry : Slot → Entry
entry s = (s.header, s.payload)

-- The packets in the valid slots, in the order of the array
unfoldable pub contents : List Slot → List Entry
contents [] = []
contents (s ∷ rest) = let others = contents rest in if s.valid then entry s ∷ others else others

unfoldable pub used : List Slot → ℕ
used [] = 0
used (s ∷ rest) = if s.valid then used rest + 1 else used rest

-- A valid slot has that sequence number.
unfoldable pub holds : ℕ → List Slot → Bool
holds x [] = false
holds x (s ∷ rest) = (s.valid && s.header.sequence == x) || holds x rest

unfoldable pub Distinct : List Slot → Type 0
Distinct [] = Unit {0}
Distinct (s ∷ rest) = (s.valid ≡ true → holds s.header.sequence rest ≡ false) × Distinct rest

pub length-contents : (l : List Slot) → length (contents l) ≡ used l
unfolding contents used
length-contents [] = refl
length-contents (s ∷ l) = ground (arith, length-contents l)

pub used-le-length : (l : List Slot) → used l ≤ length l
unfolding used
used-le-length [] = omega arith
used-le-length (s ∷ l) = ground (arith, used-le-length l)

pub used-clear : (l : List Slot) → used (map clear l) ≡ 0
unfolding used
used-clear [] = refl
used-clear (s ∷ l) = used-clear l

pub contents-clear : (l : List Slot) → contents (map clear l) ≡ []
unfolding contents
contents-clear [] = refl
contents-clear (s ∷ l) = contents-clear l

pub Distinct-clear : (l : List Slot) → Distinct (map clear l)
unfolding Distinct
Distinct-clear [] = tt
Distinct-clear (s ∷ l) = ((λ h. cc), Distinct-clear l)

pub All-map-clear :
    (P : Slot → Type 0) (l : List Slot) → ((s : Slot) → P (clear s)) → All P (map clear l)
All-map-clear P [] h = tt
All-map-clear P (s ∷ l) h = (h s, All-map-clear P l h)

pub All-set :
    (P : Slot → Type 0) (l : List Slot) (i : ℕ) (s : Slot) → P s → All P l → All P (set l i s)
All-set P [] i s p a = tt
All-set P (t ∷ l) zero s p a = (p, a.1)
All-set P (t ∷ l) (suc i) s p a = (a.0, All-set P l i s p a.1)

pub All-get :
    (P : Slot → Type 0) (l : List Slot) (i : ℕ) (s : Slot) → get_elem? l i ≡ some s → All P l → P s
All-get P [] i s e a = cc
All-get P (t ∷ l) zero s e a = subst P (cc) a.0
All-get P (t ∷ l) (suc i) s e a = All-get P l i s e a.1

module _ (s : Slot) (v : s.valid ≡ true) where
  -- Filling a free slot adds its packet.
  pub contents-set_free :
      (l : List Slot) (i : ℕ) (t : Slot)
      → get_elem? l i ≡ some t
      → t.valid ≡ false
      → Perm (contents (set l i s)) (entry s ∷ contents l)
  unfolding contents
  contents-set_free [] i t e f = cc
  contents-set_free (t' ∷ l) zero t e f = ground (arith, Perm.refl (entry s ∷ contents l))
  contents-set_free (t' ∷ l) (suc i) t e f = elim (Bool-cases t'.valid) [
    | inl w ↦ rw w (
        Perm.trans (Perm.cons (entry t') (contents-set_free l i t e f))
          (Perm.swap (entry s) (entry t') (contents l)))
    | inr w ↦ rw w (contents-set_free l i t e f)
  ]

  pub used-set_free :
      (l : List Slot) (i : ℕ) (t : Slot)
      → get_elem? l i ≡ some t
      → t.valid ≡ false
      → used (set l i s) ≡ used l + 1
  unfolding used
  used-set_free [] i t e f = cc
  used-set_free (t' ∷ l) zero t e f = ground arith
  used-set_free (t' ∷ l) (suc i) t e f = ground (arith, used-set_free l i t e f)

  pub holds-set_free :
      (x : ℕ) (l : List Slot) (i : ℕ) (t : Slot)
      → get_elem? l i ≡ some t
      → t.valid ≡ false
      → holds x (set l i s) ≡ ((s.header.sequence == x) || holds x l)
  unfolding holds
  holds-set_free x [] i t e f = cc
  holds-set_free x (t' ∷ l) zero t e f = ground arith
  holds-set_free x (t' ∷ l) (suc i) t e f = ground (arith, holds-set_free x l i t e f)

  pub Distinct-set_free :
      (l : List Slot) (i : ℕ) (t : Slot)
      → get_elem? l i ≡ some t
      → t.valid ≡ false
      → holds s.header.sequence l ≡ false
      → Distinct l
      → Distinct (set l i s)
  unfolding Distinct holds
  Distinct-set_free [] i t e f h d = cc
  Distinct-set_free (t' ∷ l) zero t e f h d = ground arith
  Distinct-set_free (t' ∷ l) (suc i) t e f h d =
      ground (arith, Distinct-set_free l i t e f, holds-set_free t'.header.sequence l i t e f)

-- Clearing a valid slot takes its packet out, and no other.
pub contents-set-clear :
    (l : List Slot) (i : ℕ) (s : Slot)
    → get_elem? l i ≡ some s
    → s.valid ≡ true
    → Perm (contents l) (entry s ∷ contents (set l i (clear s)))
unfolding contents
contents-set-clear [] i s e v = cc
contents-set-clear (t ∷ l) zero s e v = ground (arith, Perm.refl (entry s ∷ contents l))
contents-set-clear (t ∷ l) (suc i) s e v = elim (Bool-cases t.valid) [
  | inl w ↦ rw w (
      Perm.trans (Perm.cons (entry t) (contents-set-clear l i s e v))
        (Perm.swap (entry s) (entry t) (contents (set l i (clear s)))))
  | inr w ↦ rw w (contents-set-clear l i s e v)
]

pub used-set-clear :
    (l : List Slot) (i : ℕ) (s : Slot)
    → get_elem? l i ≡ some s
    → s.valid ≡ true
    → used l ≡ used (set l i (clear s)) + 1
unfolding used
used-set-clear [] i s e v = cc
used-set-clear (t ∷ l) zero s e v = ground arith
used-set-clear (t ∷ l) (suc i) s e v = ground (arith, used-set-clear l i s e v)

pub holds-set-clear :
    (x : ℕ) (l : List Slot) (i : ℕ) (s : Slot)
    → get_elem? l i ≡ some s
    → s.valid ≡ true
    → holds x l ≡ ((s.header.sequence == x) || holds x (set l i (clear s)))
unfolding holds
holds-set-clear x [] i s e v = cc
holds-set-clear x (t ∷ l) zero s e v = ground arith
holds-set-clear x (t ∷ l) (suc i) s e v = ground (arith, holds-set-clear x l i s e v)

-- The slot that is cleared was the only one with its sequence number.
pub Distinct-set-clear :
    (l : List Slot) (i : ℕ) (s : Slot)
    → get_elem? l i ≡ some s
    → s.valid ≡ true
    → Distinct l
    → Distinct (set l i (clear s)) × (holds s.header.sequence (set l i (clear s)) ≡ false)
unfolding Distinct holds
Distinct-set-clear [] i s e v d = cc
Distinct-set-clear (t ∷ l) zero s e v d = ground arith
Distinct-set-clear (t ∷ l) (suc i) s e v d =
    ground (arith, Distinct-set-clear l i s e v, holds-set-clear t.header.sequence l i s e v)
