-- ===== src/Playout/Search.antt =====
-- The search loop of `playout_push` in shared/audio/playout.c.
use protable_airplay.Base.{
  ℕ, suc, ◌+◌, ◌≡◌, refl, ◌==◌, inl, inr, true, false, Option, none, some, List, [], ◌∷◌, arith,
  length, get_elem?, Bool-cases,
}
use protable_airplay.Playout.{Slot, scan, Scan, vacant, duplicate, or_else}
use protable_airplay.Playout.Contents.{used, holds}

-- What the loop of `playout_push` finds: the sequence is held, or the first free slot is chosen, or
-- every slot is taken.
pub data Scanned (slots : List Slot) (sequence : ℕ) : Scan → Type 0 where
  is_duplicate : holds sequence slots ≡ true → Scanned slots sequence duplicate
  is_full :
      holds sequence slots ≡ false
      → used slots ≡ length slots
      → Scanned slots sequence (vacant none)
  is_free :
      (i : ℕ) (t : Slot)
      → holds sequence slots ≡ false
      → get_elem? slots i ≡ some t
      → t.valid ≡ false
      → Scanned slots sequence (vacant (some i))

-- The same for a loop that stands at index `i`, with a slot chosen or not.
pub data ScannedFrom (slots : List Slot) (sequence i : ℕ) (slot : Option ℕ) : Scan → Type 0 where
  is_duplicate : holds sequence slots ≡ true → ScannedFrom slots sequence i slot duplicate
  is_chosen :
      (j : ℕ)
      → holds sequence slots ≡ false
      → slot ≡ some j
      → ScannedFrom slots sequence i slot (vacant (some j))
  is_full :
      holds sequence slots ≡ false
      → slot ≡ none
      → used slots ≡ length slots
      → ScannedFrom slots sequence i slot (vacant none)
  is_free :
      (j k : ℕ) (t : Slot)
      → holds sequence slots ≡ false
      → slot ≡ none
      → j ≡ i + k
      → get_elem? slots k ≡ some t
      → t.valid ≡ false
      → ScannedFrom slots sequence i slot (vacant (some j))

scan_cons_valid :
    (s : Slot) (rest : List Slot) (x i : ℕ) (slot : Option ℕ) (r : Scan)
    → s.valid ≡ true
    → (s.header.sequence == x) ≡ false
    → ScannedFrom rest x (i + 1) slot r
    → ScannedFrom (s ∷ rest) x i slot r
unfolding holds used
scan_cons_valid s rest x i slot r v n (ScannedFrom.is_duplicate h) =
    ScannedFrom.is_duplicate (ground arith)
scan_cons_valid s rest x i slot r v n (ScannedFrom.is_chosen j h e) =
    ScannedFrom.is_chosen j (ground arith) e
scan_cons_valid s rest x i slot r v n (ScannedFrom.is_full h e u) =
    ScannedFrom.is_full (ground arith) e (ground arith)
scan_cons_valid s rest x i slot r v n (ScannedFrom.is_free j k t h e g f w) =
    ScannedFrom.is_free j (suc k) t (ground arith) e (omega arith) f w

scan_cons_free :
    (s : Slot) (rest : List Slot) (x i : ℕ) (slot : Option ℕ) (r : Scan)
    → s.valid ≡ false
    → ScannedFrom rest x (i + 1) (or_else slot i) r
    → ScannedFrom (s ∷ rest) x i slot r
unfolding holds used
scan_cons_free s rest x i slot r v (ScannedFrom.is_duplicate h) =
    ScannedFrom.is_duplicate (ground arith)
scan_cons_free s rest x i (some j') r v (ScannedFrom.is_chosen j h e) =
    ScannedFrom.is_chosen j (ground arith) e
scan_cons_free s rest x i none r v (ScannedFrom.is_chosen j h e) =
    ScannedFrom.is_free j 0 s (ground arith) refl (ground arith) refl v
scan_cons_free s rest x i (some j') r v (ScannedFrom.is_full h e u) = absurd (cc)
scan_cons_free s rest x i none r v (ScannedFrom.is_full h e u) = absurd (cc)
scan_cons_free s rest x i (some j') r v (ScannedFrom.is_free j k t h e g f w) = absurd (cc)
scan_cons_free s rest x i none r v (ScannedFrom.is_free j k t h e g f w) = absurd (cc)

scan-ScannedFrom :
    (slots : List Slot) (x i : ℕ) (slot : Option ℕ)
    → ScannedFrom slots x i slot (scan slots x i slot)
unfolding scan holds used
scan-ScannedFrom [] x i none = ScannedFrom.is_full refl refl refl
scan-ScannedFrom [] x i (some j) = ScannedFrom.is_chosen j refl refl
scan-ScannedFrom (s ∷ rest) x i slot = elim (Bool-cases s.valid) [
  | inl v ↦ elim (Bool-cases (s.header.sequence == x)) [
    | inl e ↦ simp (v, e) (ScannedFrom.is_duplicate (ground arith))
    | inr n ↦
        simp (v, n) (scan_cons_valid s rest x i slot _ v n (scan-ScannedFrom rest x (i + 1) slot))
  ]
  | inr v ↦
      simp v (scan_cons_free s rest x i slot _ v (scan-ScannedFrom rest x (i + 1) (or_else slot i)))
]

from_start :
    (slots : List Slot) (x : ℕ) (r : Scan) → ScannedFrom slots x 0 none r → Scanned slots x r
from_start slots x r (ScannedFrom.is_duplicate h) = Scanned.is_duplicate h
from_start slots x r (ScannedFrom.is_chosen j h e) = absurd (cc)
from_start slots x r (ScannedFrom.is_full h e u) = Scanned.is_full h u
from_start slots x r (ScannedFrom.is_free j k t h e g f w) =
    Scanned.is_free j t h (rw (let g' : j ≡ k = omega arith in g') f) w

pub scan-Scanned : (slots : List Slot) (x : ℕ) → Scanned slots x (scan slots x 0 none)
scan-Scanned slots x = from_start slots x _ (scan-ScannedFrom slots x 0 none)
