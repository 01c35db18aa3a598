-- ===== src/Bplist/Writer/Bounds.antt =====
-- The writer of shared/protocol/bplist.c stays inside its storage and keeps what it has written.
use protable_airplay.Base.{
  be_bytes, ℕ, ◌^◌, ◌≤◌, ◌<◌, ◌≡◌, refl, ◌⊎◌, inl, inr, true, false, ◌||◌, List, [], ◌∷◌, ltb, leb,
  ◌==◌, length, arith, Bool-cases, length-append,
}
use protable_airplay.Base.Int.{sub64}
use protable_airplay.Bplist.Writer.{
  Writer, used, count, put, append, writer_init, mark, start, fill, add_bytes, add_string, add_data,
  add_uint, add_ref, add_refs, add_array, side_of, pairs, add_dict, add_offsets, trailer, finish,
}

-- The used bytes lie in the storage of `capacity` bytes, and the array of the structure has room for the
-- offsets.
pub record Fits (capacity : ℕ) (w : Writer) : Type 0 where
  pub used_bound : used w ≤ capacity
  pub same_capacity : w.capacity ≡ capacity
  pub capacity_bound : capacity < 2 ^ 64
  pub count_bound : count w ≤ 128

failed-Fits : {c : ℕ} (w : Writer) → Fits c w → Fits c (record w { failed = true })
failed-Fits w v = record {
  used_bound = v.used_bound;
  same_capacity = v.same_capacity;
  capacity_bound = v.capacity_bound;
  count_bound = v.count_bound;
}

put-Fits : {c : ℕ} (w : Writer) (bs : List ℕ) → Fits c w → Fits c (put w bs)
unfolding put
put-Fits w bs v = elim (Bool-cases (w.failed || ltb (sub64 w.capacity (used w)) (length bs))) [
  | inl e ↦ rw e (failed-Fits _ v)
  | inr e ↦ rw e (record {
    used_bound =
        rw (length-append w.written bs)
          (ground (arith, v.used_bound, v.same_capacity, v.capacity_bound));
    same_capacity = v.same_capacity;
    capacity_bound = v.capacity_bound;
    count_bound = v.count_bound;
  })
]

mark-Fits : {c : ℕ} (w : Writer) (kind n : ℕ) → Fits c w → Fits c (mark w kind n)
mark-Fits w kind n v = elim (Bool-cases (leb 15 n)) [
  | inl e ↦ rw e (put-Fits _ _ (put-Fits _ _ (put-Fits w _ v)))
  | inr e ↦ rw e (put-Fits w _ v)
]

start-Fits : {c : ℕ} (w : Writer) (kind n : ℕ) → Fits c w → Fits c (start w kind n).1
unfolding start
start-Fits w kind n v = elim (Bool-cases (w.failed || (count w == 128 || leb (2 ^ 32) (used w)))) [
  | inl e ↦ rw e (failed-Fits _ v)
  | inr e ↦ rw e (
      mark-Fits _ kind n (record {
        used_bound = v.used_bound;
        same_capacity = v.same_capacity;
        capacity_bound = v.capacity_bound;
        count_bound = rw (length-append w.offsets _) (ground (arith, v.count_bound));
      }))
]

fill-Fits : {c : ℕ} (ref : ℕ) (w : Writer) (bs : List ℕ) → Fits c w → Fits c (fill ref w bs).1
unfolding fill
fill-Fits ref w bs v = elim (Bool-cases (w.failed || ltb (sub64 w.capacity (used w)) (length bs))) [
  | inl e ↦ rw e (failed-Fits _ v)
  | inr e ↦ rw e (put-Fits w bs v)
]

add_bytes-Fits :
    {c : ℕ} (w : Writer) (kind : ℕ) (bs : List ℕ) → Fits c w → Fits c (add_bytes w kind bs).1
add_bytes-Fits w kind bs v = fill-Fits _ _ bs (start-Fits w kind (length bs) v)

add_ref-Fits : {c : ℕ} (w : Writer) (ref r : ℕ) → Fits c w → Fits c (add_ref w ref r)
unfolding add_ref
add_ref-Fits w ref r v =
    put-Fits _ _ (elim (Bool-cases (leb ref r)) [ inl e ↦ rw e (failed-Fits _ v) | inr e ↦ rw e v ])

add_refs-Fits : {c : ℕ} (w : Writer) (ref : ℕ) (rs : List ℕ) → Fits c w → Fits c (add_refs w ref rs)
unfolding add_refs
add_refs-Fits w ref [] v = v
add_refs-Fits w ref (r ∷ rs) v = add_refs-Fits (add_ref w ref r) ref rs (add_ref-Fits w ref r v)

add_offsets-Fits : {c : ℕ} (w : Writer) (os : List ℕ) → Fits c w → Fits c (add_offsets w os)
unfolding add_offsets
add_offsets-Fits w [] v = v
add_offsets-Fits w (o ∷ os) v = add_offsets-Fits (append w o 4) os (put-Fits w (be_bytes o 4) v)

-- One call that adds an object
pub data Call : Type 0 where
  string bytes : List ℕ → Call
  number : ℕ → Call
  array : List ℕ → Call
  dict : List (ℕ × ℕ) → Call

abbrev pub call : Writer → Call → ℕ × Writer
call w (string text) = add_string w text
call w (bytes bs) = add_data w bs
call w (number value) = add_uint w value
call w (array refs) = add_array w refs
call w (dict refs) = add_dict w refs

abbrev pub calls : Writer → List Call → Writer
calls w [] = w
calls w (c ∷ cs) = calls (call w c).1 cs

call-Fits : {c : ℕ} (w : Writer) (added : Call) → Fits c w → Fits c (call w added).1
unfolding add_uint add_array add_dict
call-Fits w (string text) v = add_bytes-Fits w 5 text v
call-Fits w (bytes bs) v = add_bytes-Fits w 4 bs v
call-Fits w (number value) v = put-Fits _ _ (start-Fits w 1 3 v)
call-Fits w (array refs) v = add_refs-Fits _ _ refs (start-Fits w 10 (length refs) v)
call-Fits w (dict refs) v =
    add_refs-Fits _ _ (side_of refs true)
      (add_refs-Fits _ _ (side_of refs false) (start-Fits w 13 (pairs refs) v))

pub calls-Fits : {c : ℕ} (w : Writer) (cs : List Call) → Fits c w → Fits c (calls w cs)
calls-Fits w [] v = v
calls-Fits w (c ∷ cs) v = calls-Fits (call w c).1 cs (call-Fits w c v)

pub init-Fits : (capacity : ℕ) → capacity < 2 ^ 64 → Fits capacity (writer_init capacity)
unfolding writer_init
init-Fits capacity h = elim (Bool-cases (ltb capacity 40)) [
  | inl e ↦ rw e (record {
    used_bound = omega arith;
    same_capacity = refl;
    capacity_bound = h;
    count_bound = omega arith;
  })
  | inr e ↦ rw e (record {
    used_bound = ground arith;
    same_capacity = refl;
    capacity_bound = h;
    count_bound = omega arith;
  })
]

finish-Fits : {c : ℕ} (w : Writer) (root : ℕ) → Fits c w → Fits c (finish w root).1
unfolding finish trailer
finish-Fits w root v = elim (Bool-cases (leb (count w) root || w.failed)) [
  | inl e ↦ rw e v
  | inr e ↦ rw e (
      put-Fits _ _ (
        put-Fits _ _ (
          put-Fits _ _
            (put-Fits _ _ (put-Fits _ _ (put-Fits _ _ (add_offsets-Fits w w.offsets v)))))))
]

finish_size :
    (w : Writer) (root : ℕ) → ((finish w root).0 ≡ 0) ⊎ ((finish w root).0 ≡ used (finish w root).1)
unfolding finish
finish_size w root = elim (Bool-cases (leb (count w) root || w.failed)) [
  | inl e ↦ rw e (inl refl)
  | inr e ↦ rw e (elim (Bool-cases (trailer (add_offsets w w.offsets) root (used w)).failed) [
    | inl f ↦ rw f (inl refl)
    | inr f ↦ rw f (inr refl)
  ])
]

-- From a fresh writer on storage of a `size_t` of bytes, whatever objects are added, and whether this
-- succeeds or not: `bplist_finish` leaves all that was written inside the storage and at most 128
-- offsets, and it returns 0 or the number of bytes written.
pub calls-finish :
    (capacity : ℕ) (cs : List Call) (root : ℕ)
    → capacity < 2 ^ 64
    → let (n, w) = finish (calls (writer_init capacity) cs) root in
      (used w ≤ capacity) × (count w ≤ 128) × ((n ≡ 0) ⊎ (n ≡ used w))
calls-finish capacity cs root h = (fits.used_bound, fits.count_bound, finish_size _ root)
  where
    fits : Fits capacity (finish (calls (writer_init capacity) cs) root).1
    fits = finish-Fits _ root (calls-Fits _ cs (init-Fits capacity h))
