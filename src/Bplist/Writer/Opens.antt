-- ===== src/Bplist/Writer/Opens.antt =====
-- The reader opens what the writer of shared/protocol/bplist.c has finished.
use mathlib.Core.List.{append_assoc, append-nil}
use protable_airplay.Base.{
  be_bytes, length-be_bytes, ℕ, ◌+◌, ◌-◌, ◌*◌, ◌/◌, ◌^◌, ◌≤◌, ◌<◌, ◌≡◌, refl, sym, ap, ◌∙◌, inl,
  inr, true, false, ◌||◌, List, [], ◌∷◌, ◌++◌, ltb, leb, ◌==◌, length, take, drop, get_or, arith,
  Bool-cases, length-append, get_or-append_right, ok, read, read_be, read_lem, read_be_lem, be,
  be_loop, be_loop-append_right,
}
use protable_airplay.Base.Int.{sub64}
use protable_airplay.Rtp.Safety.{slice_lem}
use protable_airplay.Bplist.{magic, equal_bytes, bplist_open}
use protable_airplay.Bplist.Writer.Bounds.{Fits}
use protable_airplay.Bplist.Writer.{Writer, used, count, put, append, add_offsets, trailer, finish}

put_offsets : (w : Writer) (bs : List ℕ) → (put w bs).offsets ≡ w.offsets
unfolding put
put_offsets w bs = elim (Bool-cases (w.failed || ltb (sub64 w.capacity (used w)) (length bs))) [
  | inl e ↦ rw e refl
  | inr e ↦ rw e refl
]

-- A write that has not failed
put_lem :
    (w : Writer) (bs : List ℕ)
    → (put w bs).failed ≡ false
    → (w.failed ≡ false) × ((put w bs).written ≡ w.written ++ bs)
unfolding put
put_lem w bs = elim (Bool-cases (w.failed || ltb (sub64 w.capacity (used w)) (length bs))) [
  | inl e ↦ rw e (λ f. cc)
  | inr e ↦ rw e (λ f. (f, refl))
]

-- The three numbers of the trailer behind its sizes
abbrev tail_of : ℕ → ℕ → ℕ → List ℕ
tail_of n root table =
    be_bytes 0 6
    ++ (be_bytes 4 1 ++ (be_bytes 1 1 ++ (be_bytes n 8 ++ (be_bytes root 8 ++ be_bytes table 8))))

be_tail :
    (n root table : ℕ)
    → n < 2 ^ 64
    → root < 2 ^ 64
    → table < 2 ^ 64
    → (be (tail_of n root table) 8 8 ≡ n)
      × (be (tail_of n root table) 16 8 ≡ root)
      × (be (tail_of n root table) 24 8 ≡ table)
unfolding be be_loop be_bytes
be_tail n root table h k l = (omega arith, omega arith, omega arith)

-- The table of offsets
offset_bytes : List ℕ → List ℕ
offset_bytes [] = []
offset_bytes (o ∷ os) = be_bytes o 4 ++ offset_bytes os

length-offset_bytes : (os : List ℕ) → length (offset_bytes os) ≡ length os * 4
unfolding offset_bytes
length-offset_bytes [] = refl
length-offset_bytes (o ∷ os) = omega (
  arith,
  length-append (be_bytes o 4) (offset_bytes os),
  length-be_bytes o 4,
  length-offset_bytes os,
)

add_offsets_lem :
    (w : Writer) (os : List ℕ)
    → (add_offsets w os).failed ≡ false
    → (w.failed ≡ false)
      × ((add_offsets w os).written ≡ w.written ++ offset_bytes os)
      × ((add_offsets w os).offsets ≡ w.offsets)
unfolding add_offsets offset_bytes
add_offsets_lem w [] f = (f, sym (append-nil w.written), refl)
add_offsets_lem w (o ∷ os) f =
    let (g, e, k) = add_offsets_lem (append w o 4) os f in
    let (h, l) = put_lem w (be_bytes o 4) g in
    (
      h,
      e
          ∙ ap (λ bs. bs ++ offset_bytes os) l
          ∙ append_assoc w.written (be_bytes o 4) (offset_bytes os),
      k ∙ put_offsets w (be_bytes o 4),
    )

trailer_lem :
    (w : Writer) (root table : ℕ)
    → (trailer w root table).failed ≡ false
    → (w.failed ≡ false)
      × ((trailer w root table).written ≡ w.written ++ tail_of (count w) root table)
unfolding trailer
trailer_lem w root table f =
    let (f₅, e₅) = put_lem _ (be_bytes table 8) f in
    let (f₄, e₄) = put_lem _ (be_bytes root 8) f₅ in
    let (f₃, e₃) = put_lem _ (be_bytes (count w) 8) f₄ in
    let (f₂, e₂) = put_lem _ (be_bytes 1 1) f₃ in
    let (f₁, e₁) = put_lem _ (be_bytes 4 1) f₂ in
    let (f₀, e₀) = put_lem w (be_bytes 0 6) f₁ in
    (f₀, rw (e₅, e₄, e₃, e₂, e₁, e₀) (simp append_assoc))

-- Reads of the last 32 bytes
tail-read_be :
    (a t : List ℕ) (i n : ℕ)
    → length t ≡ 32
    → i + n ≤ 32
    → read_be (a ++ t) (length (a ++ t) - 32 + i) n ≡ ok (be t i n)
unfolding be
tail-read_be a t i n k h =
    read_be_lem (a ++ t) (length (a ++ t) - 32 + i) n (omega (arith, length-append a t))
    ∙ ap ok (
        ap (λ j. be_loop (a ++ t) j n 0) (omega (arith, length-append a t))
        ∙ be_loop-append_right a t i n 0)

tail-read :
    (a t : List ℕ) (i : ℕ)
    → length t ≡ 32
    → i < 32
    → read (a ++ t) (length (a ++ t) - 32 + i) ≡ ok (get_or t i 0)
tail-read a t i k h =
    read_lem (a ++ t) (length (a ++ t) - 32 + i) (omega (arith, length-append a t))
    ∙ ap ok (
        ap (λ j. get_or (a ++ t) j 0) (omega (arith, length-append a t))
        ∙ get_or-append_right a t i 0)

bplist_open_lem :
    (a t : List ℕ) (n root table : ℕ)
    → 8 ≤ length a
    → length t ≡ 32
    → equal_bytes (take 8 (drop 0 (a ++ t))) magic ≡ true
    → be t 8 8 ≡ n
    → be t 16 8 ≡ root
    → be t 24 8 ≡ table
    → get_or t 6 0 ≡ 4
    → get_or t 7 0 ≡ 1
    → root < n
    → n ≤ 128
    → 8 ≤ table
    → length a ≡ table + n * 4
    → bplist_open (a ++ t)
      ≡ ok (record {
        bytes = a ++ t;
        table = table;
        count = n;
        root = root;
        offset_size = 4;
        ref_size = 1;
      })
unfolding bplist_open
bplist_open_lem a t n root table h k e p q r x y l m o u = simp (
  long,
  slice_lem (a ++ t) 0 8 (omega (arith, sizes)),
  e,
  tail-read_be a t 8 8 k (omega arith) ∙ ap ok p,
  tail-read_be a t 16 8 k (omega arith) ∙ ap ok q,
  tail-read_be a t 24 8 k (omega arith) ∙ ap ok r,
  tail-read a t 6 k (omega arith) ∙ ap ok x,
  tail-read a t 7 k (omega arith) ∙ ap ok y,
  some_objects,
  few_objects,
  root_inside,
  table_start,
  table_inside,
  room,
)
  where
    sizes : length (a ++ t) ≡ length a + 32
    sizes = length-append a t ∙ ap (λ n. length a + n) k

    long : ltb (length (a ++ t)) 40 ≡ false
    long = ground (arith, sizes)

    some_objects : (n == 0) ≡ false
    some_objects = ground arith

    few_objects : leb (2 ^ 32) n ≡ false
    few_objects = ground arith

    root_inside : leb n root ≡ false
    root_inside = ground arith

    table_start : ltb table 8 ≡ false
    table_start = ground arith

    table_inside : ltb (length (a ++ t) - 32) table ≡ false
    table_inside = ground (arith, sizes)

    room : ltb ((length (a ++ t) - 32 - table) / 4) n ≡ false
    room = ground (arith, sizes)

begins_with_magic :
    (w a b rest : List ℕ)
    → w ≡ magic ++ rest
    → equal_bytes (take 8 (drop 0 ((w ++ a) ++ b))) magic ≡ true
unfolding equal_bytes
begins_with_magic w a b rest e = rw e refl

tail_sizes :
    (n root table : ℕ)
    → (length (tail_of n root table) ≡ 32)
      × (get_or (tail_of n root table) 6 0 ≡ 4)
      × (get_or (tail_of n root table) 7 0 ≡ 1)
unfolding be_bytes
tail_sizes n root table = (refl, refl, refl)

finished :
    (w : Writer) (root : ℕ)
    → 0 < (finish w root).0
    → (root < count w)
      × ((finish w root).1.written
          ≡ (w.written ++ offset_bytes w.offsets) ++ tail_of (count w) root (used w))
unfolding finish
finished w root = elim (Bool-cases (leb (count w) root || w.failed)) [
  | inl e ↦ rw e (λ h. absurd (omega arith))
  | inr e ↦ rw e (elim (Bool-cases (trailer (add_offsets w w.offsets) root (used w)).failed) [
    | inl f ↦ rw f (λ h. absurd (omega arith))
    | inr f ↦ rw f (λ h.
        let (g, x) = trailer_lem (add_offsets w w.offsets) root (used w) f in
        let (_, y, z) = add_offsets_lem w w.offsets g in
        (ground arith, x ∙ (λ i. y i ++ tail_of (length (z i)) root (used w))))
  ])
]

-- If `bplist_finish` returns a size, for a writer whose bytes begin with the magic and fit in storage
-- of a `size_t` of bytes, then `bplist_open` accepts what is written: with the table of offsets behind
-- the objects, as many objects as were added, the root asked for, offsets of four bytes and references
-- of one.
pub bplist_open-finish :
    (capacity : ℕ) (w : Writer) (root : ℕ) (rest : List ℕ)
    → Fits capacity w
    → w.written ≡ magic ++ rest
    → 0 < (finish w root).0
    → bplist_open (finish w root).1.written
      ≡ ok (record {
        bytes = (finish w root).1.written;
        table = used w;
        count = count w;
        root = root;
        offset_size = 4;
        ref_size = 1;
      })
bplist_open-finish capacity w root rest v begins h =
    let (inside, e) = finished w root h in
    let (n, r, t) =
      be_tail (count w) root (used w) (omega (arith, v.count_bound))
        (omega (arith, inside, v.count_bound)) (omega (arith, v.used_bound, v.capacity_bound)) in
    let (size, offset_size, ref_size) = tail_sizes (count w) root (used w) in
    rw e (
      bplist_open_lem (w.written ++ offset_bytes w.offsets) (tail_of (count w) root (used w))
        (count w) root (used w) (omega (arith, behind, sizes)) size
        (begins_with_magic w.written (offset_bytes w.offsets) (tail_of (count w) root (used w)) rest
          begins)
        n r t offset_size ref_size inside v.count_bound behind sizes)
  where
    behind : 8 ≤ used w
    behind = omega (arith, ap length begins ∙ length-append magic rest)

    sizes : length (w.written ++ offset_bytes w.offsets) ≡ used w + count w * 4
    sizes =
        length-append w.written (offset_bytes w.offsets)
        ∙ ap (λ n. used w + n) (length-offset_bytes w.offsets)
