-- ===== src/Bplist/Reader.antt =====
-- The reader of shared/protocol/bplist.c reads inside the data that it was opened on.
use native.Mathlib.Nat.{le-div_iff_mul-le, mul-le-mul_right}
use protable_airplay.Base.{
  ℕ, ◌+◌, ◌-◌, ◌*◌, ◌/◌, ◌%◌, ◌^◌, ◌≤◌, ◌<◌, ◌≡◌, refl, inl, inr, true, ◌&&◌, ◌||◌, not, List,
  Option, none, some, ltb, leb, ◌==◌, length, arith, Bool-cases, be, read_be_lem, Returns, Yields,
  yields, of_ok, of_fail, Returns-bind, Returns-guard, Returns-read, Returns-read_be,
}
use protable_airplay.Rtp.Safety.{slice-Returns}
use protable_airplay.Bplist.{
  Bplist, magic, bplist_open, equal_bytes, Object, long_count, count_of, width_of, object,
  object_at, reference,
}

-- The table of offsets lies behind the objects and inside the data, and widths are 1 to 8 bytes.
pub record IsValid (p : Bplist) : Type 0 where
  pub magic_behind : 8 ≤ p.table
  pub offsets_inside : p.table + p.count * p.offset_size ≤ length p.bytes
  pub offset_size_pos : 0 < p.offset_size
  pub ref_size_pos : 0 < p.ref_size
  pub offset_size_bound : p.offset_size ≤ 8
  pub ref_size_bound : p.ref_size ≤ 8
  pub root_bound : p.root < p.count
  pub count_bound : p.count < 2 ^ 32

-- The bytes of the object's elements lie between the magic and the table.
pub record IsObject (p : Bplist) (o : Object) : Type 0 where
  pub start_bound : 9 ≤ o.start
  pub inside : o.start + o.count * width_of p o.kind ≤ p.table

opened-IsValid :
    (buffer : List ℕ) (count root table o r : ℕ)
    → (not (o == 0 || ltb 8 o) && not (r == 0 || ltb 8 r)) ≡ true
    → not (count == 0 || (leb (2 ^ 32) count || leb count root)) ≡ true
    → not (ltb table 8 || ltb (length buffer - 32) table) ≡ true
    → not (ltb ((length buffer - 32 - table) / o) count) ≡ true
    → IsValid (record {
      bytes = buffer;
      table = table;
      count = count;
      root = root;
      offset_size = o;
      ref_size = r;
    })
opened-IsValid buffer count root table o r widths counts tables room = record {
  magic_behind = ground arith;
  offsets_inside = ground (arith, (le-div_iff_mul-le o_pos).0 fits);
  offset_size_pos = o_pos;
  ref_size_pos = ground arith;
  offset_size_bound = ground arith;
  ref_size_bound = ground arith;
  root_bound = ground arith;
  count_bound = ground arith;
}
  where
    o_pos : 0 < o
    o_pos = ground arith

    fits : count ≤ (length buffer - 32 - table) / o
    fits = ground arith

-- What `bplist_open` accepts is a list with its table of offsets inside the data; it reads no byte
-- outside them.
pub bplist_open-Returns :
    (buffer : List ℕ) → Returns (λ p. (p.bytes ≡ buffer) × IsValid p) (bplist_open buffer)
unfolding bplist_open
bplist_open-Returns buffer = Returns-guard _ (not (ltb (length buffer) 40)) _ λ long.
    Returns-bind _ _ _ _ (slice-Returns buffer 0 8 (ground arith)) λ start _.
      Returns-guard _ (equal_bytes start magic) _ λ _.
        Returns-bind _ _ _ _ (Returns-read_be buffer (length buffer - 32 + 8) 8 (ground arith))
          λ count _.
            Returns-bind _ _ _ _ (Returns-read_be buffer (length buffer - 32 + 16) 8 (ground arith))
              λ root _.
                Returns-bind _ _ _ _
                  (Returns-read_be buffer (length buffer - 32 + 24) 8 (ground arith))
                  λ table _.
                    Returns-bind _ _ _ _
                      (Returns-read buffer (length buffer - 32 + 6) (ground arith))
                      λ o _.
                        Returns-bind _ _ _ _
                          (Returns-read buffer (length buffer - 32 + 7) (ground arith))
                          λ r _.
                            Returns-guard _ (not (o == 0 || ltb 8 o) && not (r == 0 || ltb 8 r)) _
                              λ widths.
                                Returns-guard _
                                  (not (count == 0 || (leb (2 ^ 32) count || leb count root))) _
                                  λ counts.
                                    Returns-guard _
                                      (not (ltb table 8 || ltb (length buffer - 32) table)) _
                                      λ tables.
                                        Returns-guard _
                                          (not (ltb ((length buffer - 32 - table) / o) count)) _
                                          λ room. of_ok _ (
                                            refl,
                                            opened-IsValid buffer count root table o r widths counts
                                                tables room,
                                          )

long_count-Returns :
    (p : Bplist) (pos : ℕ)
    → IsValid p
    → 9 ≤ pos
    → Returns (λ (n, start). (9 ≤ start) × (start ≤ p.table)) (long_count p pos)
unfolding long_count
long_count-Returns p pos v h = Returns-guard _ (ltb pos p.table) _ λ k.
    Returns-bind _ _ _ _ (Returns-read p.bytes pos (ground (arith, v.offsets_inside))) λ m _.
      Returns-guard _ (m / 16 == 1 && not (ltb 3 (m % 16))) _ λ e.
        Returns-guard _ (not (ltb (p.table - (pos + 1)) (2 ^ (m % 16)))) _ λ n.
          Returns-bind _ _ _ _
            (Returns-read_be p.bytes (pos + 1) (2 ^ (m % 16)) (ground (arith, v.offsets_inside)))
            λ c _. of_ok _ (omega arith, ground arith)

count_of-Returns :
    (p : Bplist) (marker pos : ℕ)
    → IsValid p
    → 9 ≤ pos
    → pos ≤ p.table
    → Returns (λ (n, start). (9 ≤ start) × (start ≤ p.table)) (count_of p marker pos)
unfolding count_of
count_of-Returns p marker pos v h k = elim (Bool-cases (marker / 16 == 1 || marker / 16 == 2)) [
  | inl e ↦ simp e (Returns-guard _ (not (ltb 3 (marker % 16))) _ λ _. of_ok _ (h, k))
  | inr e ↦ simp e (elim (Bool-cases (marker % 16 == 15)) [
    | inl f ↦ simp f (long_count-Returns p pos v h)
    | inr f ↦ simp f (of_ok _ (h, k))
  ])
]

pub width_of_pos : (p : Bplist) (kind : ℕ) → 0 < p.ref_size → 0 < width_of p kind
width_of_pos p kind h = ground arith

pub row_inside : (ref count width : ℕ) → ref < count → ref * width + width ≤ count * width
row_inside ref count width h = ground (arith, mul-le-mul_right {m = ref + 1} {n = count} width)

-- On a valid list `object` reads inside the data, whatever the reference: it fails, or it finds an
-- object whose elements lie between the magic and the table of offsets.
pub object-Returns : (p : Bplist) (ref : ℕ) → IsValid p → Returns (IsObject p) (object p ref)
unfolding object
object-Returns p ref v = Returns-guard _ (ltb ref p.count) _ λ inside.
    Returns-bind _ _ _ _
      (Returns-read_be p.bytes (p.table + ref * p.offset_size) p.offset_size
        (ground (arith, v.offsets_inside, row_inside ref p.count p.offset_size)))
      λ pos _. Returns-guard _ (not (ltb pos 8 || leb p.table pos)) _ λ k.
        Returns-bind _ _ _ _ (Returns-read p.bytes pos (ground (arith, v.offsets_inside)))
          λ marker _.
            Returns-bind _ _ _ _
              (count_of-Returns p marker (pos + 1) v (ground arith) (ground arith))
              λ (n, start) h.
                Returns-guard _ (not (ltb ((p.table - start) / width_of p (marker / 16)) n)) _
                  λ room. of_ok _ record {
                    start_bound = h.0;
                    inside = omega (
                      arith,
                      h.1,
                      (le-div_iff_mul-le (width_of_pos p (marker / 16) v.ref_size_pos)).0
                          (fits n start (width_of p (marker / 16)) room),
                    );
                  }
  where
    fits : (n start w : ℕ) → not (ltb ((p.table - start) / w) n) ≡ true → n ≤ (p.table - start) / w
    fits n start w room = ground arith

pub object_at-Returns :
    (p : Bplist) (ref : Option ℕ) → IsValid p → Returns (IsObject p) (object_at p ref)
unfolding object_at
object_at-Returns p none v = of_fail
object_at-Returns p (some ref) v = object-Returns p ref v

-- A reference that `object` takes, or none
unfoldable pub InList : Bplist → Option ℕ → Type 0
InList p none = Unit
InList p (some ref) = ref < p.count

pub reference-Yields :
    (p : Bplist) (pos : ℕ)
    → IsValid p
    → pos + p.ref_size ≤ p.table
    → Yields (InList p) (reference p pos)
unfolding reference InList
reference-Yields p pos v h =
    rw (read_be_lem p.bytes pos p.ref_size (ground (arith, v.offsets_inside)))
      (elim (Bool-cases (ltb (be p.bytes pos p.ref_size) p.count)) [
        | inl e ↦ rw e (yields _ (ground arith))
        | inr e ↦ rw e (yields _ tt)
      ])
