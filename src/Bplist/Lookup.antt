-- ===== src/Bplist/Lookup.antt =====
-- The lookups of shared/protocol/bplist.c on a list that `bplist_open` accepted.
use native.Mathlib.Nat.{mul-le-mul_left, mul-le-mul_right}
use protable_airplay.Base.{
  Yields-recover, Yields, yields, Yields-bind, Yields-mono, ℕ, zero, suc, ◌+◌, ◌*◌, ◌≤◌, ◌<◌, ◌≡◌,
  refl, subst, ap, inl, inr, ◌&&◌, ◌||◌, not, List, Option, leb, ◌==◌, length, take, drop, arith,
  Bool-cases, ok, be, Returns, Returns-bind, Returns-value, Returns-mono, Returns-guard,
  Returns-read_be,
}
use protable_airplay.Rtp.Safety.{slice-Returns, slice_lem}
use protable_airplay.Bplist.{
  Bplist, bplist_open, Object, width_of, is_key, get_loop, get, at, children, uint, object_bytes,
}
use protable_airplay.Bplist.Reader.{
  IsValid, IsObject, width_of_pos, object_at-Returns, bplist_open-Returns, InList, row_inside,
  reference-Yields,
}

-- An object whose elements have these many bytes stays in front of the table.
sized :
    (p : Bplist) (o : Object) (kind width : ℕ)
    → IsObject p o
    → o.kind ≡ kind
    → width_of p kind ≡ width
    → o.start + o.count * width ≤ p.table
sized p o kind width h e f = ground (arith, h.inside)

-- Row `j` of `n` pairs of references
pair_inside : (j n w : ℕ) → j < 2 * n → j * w + w ≤ n * (2 * w)
pair_inside j n w h = ground (arith, mul-le-mul_right {m = j + 1} {n = 2 * n} w)

is_key-Yields :
    (p : Bplist) (key : List ℕ) (k : Option ℕ) → IsValid p → Yields (λ _. Unit {0}) (is_key p key k)
unfolding is_key
is_key-Yields p key k v = Yields-recover _ _ _ _ _ (object_at-Returns p k v) tt λ o h.
    elim (Bool-cases (o.kind == 5 && o.count == length key)) [
      | inl e ↦
          rw
            (
              e,
              slice_lem p.bytes o.start o.count (ground (arith, sized p o 5 1 h, v.offsets_inside)),
            )
            (yields _ tt)
      | inr e ↦ rw e (yields _ tt)
    ]

get_loop-Yields :
    (p : Bplist) (key : List ℕ) (pos i left : ℕ)
    → IsValid p
    → pos + (i + left) * (2 * p.ref_size) ≤ p.table
    → Yields (InList p) (get_loop p key pos i left)
unfolding get_loop InList
get_loop-Yields p key pos i zero v h = yields _ tt
get_loop-Yields p key pos i (suc left) v h =
    Yields-bind _ _ _ _
      (reference-Yields p (pos + i * p.ref_size) v
        (ground (arith, pair_inside i (i + suc left) p.ref_size)))
      λ k _. Yields-bind _ _ _ _ (is_key-Yields p key k v) λ found _. elim (Bool-cases found) [
        | inl e ↦ rw e (
            reference-Yields p (pos + (i + suc left + i) * p.ref_size) v
              (ground (arith, pair_inside (i + suc left + i) (i + suc left) p.ref_size)))
        | inr e ↦ rw e (
            get_loop-Yields p key pos (i + 1) left v
              (subst (λ n. pos + n * (2 * p.ref_size) ≤ p.table) (omega arith) h))
      ]

get-Yields :
    (p : Bplist) (dict : Option ℕ) (key : List ℕ) → IsValid p → Yields (InList p) (get p dict key)
unfolding get InList
get-Yields p dict key v = Yields-recover _ _ _ _ _ (object_at-Returns p dict v) tt λ o h.
    elim (Bool-cases (o.kind == 13)) [
      | inl e ↦ rw e (
          get_loop-Yields p key o.start 0 o.count v (
            subst (λ n. o.start + n * (2 * p.ref_size) ≤ p.table) (omega arith)
              (sized p o 13 (2 * p.ref_size) h (ground arith) refl)))
      | inr e ↦ rw e (yields _ tt)
    ]

at-Yields :
    (p : Bplist) (array : Option ℕ) (index : ℕ) → IsValid p → Yields (InList p) (at p array index)
unfolding at InList
at-Yields p array index v = Yields-recover _ _ _ _ _ (object_at-Returns p array v) tt λ o h.
    elim (Bool-cases (not (o.kind == 10) || leb o.count index)) [
      | inl e ↦ rw e (yields _ tt)
      | inr e ↦ rw e (
          reference-Yields p (o.start + index * p.ref_size) v
            (ground (arith, sized p o 10 p.ref_size h, row_inside index o.count p.ref_size)))
    ]

counted : (p : Bplist) (o : Object) → IsValid p → IsObject p o → o.count ≤ p.table
counted p o v h = ground (
  arith,
  h.inside,
  mul-le-mul_left {m = 1} {n = width_of p o.kind} o.count (width_of_pos p o.kind v.ref_size_pos),
)

children-Yields :
    (p : Bplist) (ref : Option ℕ) → IsValid p → Yields (λ n. n ≤ p.table) (children p ref)
unfolding children
children-Yields p ref v = Yields-recover _ _ _ _ _ (object_at-Returns p ref v) (omega arith) λ o h.
    elim (Bool-cases (o.kind == 10 || o.kind == 13)) [
      | inl e ↦ rw e (yields _ (counted p o v h))
      | inr e ↦ rw e (yields _ (omega arith))
    ]

uint-Returns :
    (p : Bplist) (ref : Option ℕ)
    → IsValid p
    → Returns (λ n. (o : Object) × IsObject p o × (n ≡ be p.bytes o.start o.count)) (uint p ref)
unfolding uint
uint-Returns p ref v = Returns-bind _ _ _ _ (object_at-Returns p ref v) λ o h.
    Returns-guard _ (o.kind == 1) _ λ k.
      Returns-mono _ _ _
        (Returns-read_be p.bytes o.start o.count
          (ground (arith, sized p o 1 1 h, v.offsets_inside)))
        λ n e. (o, h, e)

object_bytes-Returns :
    (p : Bplist) (ref : Option ℕ)
    → IsValid p
    → Returns
        (λ bs. (o : Object) × IsObject p o × (bs ≡ take o.count (drop o.start p.bytes)))
        (object_bytes p ref)
unfolding object_bytes
object_bytes-Returns p ref v = Returns-bind _ _ _ _ (object_at-Returns p ref v) λ o h.
    Returns-guard _ (o.kind == 4 || o.kind == 5) _ λ k.
      Returns-mono _ _ _
        (slice-Returns p.bytes o.start o.count
          (ground (arith, sized p o 4 1 h, sized p o 5 1 h, v.offsets_inside)))
        λ bs e. (o, h, e)

-- On a list that `bplist_open` accepted, with any references: `bplist_get` and `bplist_at` return a
-- reference of the list or none, `bplist_count` returns at most the size of the list, `bplist_uint`
-- fails or returns the number that an object's bytes spell, and `bplist_bytes` fails or returns the
-- bytes of an object. None of them reads outside the data.
pub bplist_open-Lookups :
    (buffer : List ℕ) (p : Bplist) (ref : Option ℕ) (key : List ℕ) (index : ℕ)
    → bplist_open buffer ≡ ok p
    → Yields (InList p) (get p ref key)
      × Yields (InList p) (at p ref index)
      × Yields (λ n. n ≤ length buffer) (children p ref)
      × Returns (λ n. (o : Object) × IsObject p o × (n ≡ be buffer o.start o.count)) (uint p ref)
      × Returns
          (λ bs. (o : Object) × IsObject p o × (bs ≡ take o.count (drop o.start buffer)))
          (object_bytes p ref)
bplist_open-Lookups buffer p ref key index e = (
  get-Yields p ref key v,
  at-Yields p ref index v,
  Yields-mono _ _ _ (children-Yields p ref v)
      (λ n h. omega (arith, v.offsets_inside, ap length same)),
  subst (λ b. Returns (λ n. (o : Object) × IsObject p o × (n ≡ be b o.start o.count)) (uint p ref))
      same (uint-Returns p ref v),
  subst
      (λ b.
        Returns (λ bs. (o : Object) × IsObject p o × (bs ≡ take o.count (drop o.start b)))
          (object_bytes p ref))
      same (object_bytes-Returns p ref v),
)
  where
    same : p.bytes ≡ buffer
    same = (Returns-value _ _ p (bplist_open-Returns buffer) e).0

    v : IsValid p
    v = (Returns-value _ _ p (bplist_open-Returns buffer) e).1
