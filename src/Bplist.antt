-- ===== src/Bplist.antt =====
-- shared/protocol/bplist.c: the reader of binary property lists.
-- `BPLIST_NONE` is `none`; every read goes through `read`, which faults outside the data.
pub mod Reader
pub mod Lookup
pub mod Find
pub mod Writer
mod Tests
use protable_airplay.Base.{
  recover, ℕ, zero, suc, ◌+◌, ◌-◌, ◌*◌, ◌/◌, ◌%◌, ◌^◌, Bool, true, false, ◌&&◌, ◌||◌, not, List, [],
  ◌∷◌, Option, none, some, ltb, leb, ◌==◌, if◌then◌else◌, length, take, Result, ok, fail, fault,
  ◌>>=◌, ◌>>◌, guard, read, read_be,
}
use protable_airplay.Rtp.{slice}

-- `bplist_t`
pub record Bplist : Type 0 where
  pub bytes : List ℕ
  pub table : ℕ
  pub count : ℕ
  pub root : ℕ
  pub offset_size : ℕ
  pub ref_size : ℕ

-- "bplist00"
abbrev pub magic : List ℕ
magic = 98 ∷ 112 ∷ 108 ∷ 105 ∷ 115 ∷ 116 ∷ 48 ∷ 48 ∷ []

-- `memcmp` is 0
pub equal_bytes : List ℕ → List ℕ → Bool
equal_bytes [] [] = true
equal_bytes [] (b ∷ bs) = false
equal_bytes (x ∷ xs) [] = false
equal_bytes (x ∷ xs) (b ∷ bs) = x == b && equal_bytes xs bs

-- The size of one offset or of one reference
abbrev is_width : ℕ → Bool
is_width n = not (n == 0 || ltb 8 n)

-- `bplist_open`, with `length buffer` for `size`
pub bplist_open : List ℕ → Result Bplist
bplist_open buffer = do
  guard (not (ltb (length buffer) 40))
  start ← slice buffer 0 8
  guard (equal_bytes start magic)
  let tail = length buffer - 32
  count ← read_be buffer (tail + 8) 8
  root ← read_be buffer (tail + 16) 8
  table ← read_be buffer (tail + 24) 8
  offset_size ← read buffer (tail + 6)
  ref_size ← read buffer (tail + 7)
  guard (is_width offset_size && is_width ref_size)
  guard (not (count == 0 || (leb (2 ^ 32) count || leb count root)))
  guard (not (ltb table 8 || ltb (length buffer - 32) table))
  guard (not (ltb ((length buffer - 32 - table) / offset_size) count))
  ok (record {
    bytes = buffer;
    table = table;
    count = count;
    root = root;
    offset_size = offset_size;
    ref_size = ref_size;
  })

-- What `object` returns through its pointers
pub record Object : Type 0 where
  pub kind : ℕ
  pub start : ℕ
  pub count : ℕ

-- The count that follows a marker whose low bits are 15, and where the object's bytes start
pub long_count : Bplist → ℕ → Result (ℕ × ℕ)
long_count p pos = do
  guard (ltb pos p.table)
  marker ← read p.bytes pos
  guard (marker / 16 == 1 && not (ltb 3 (marker % 16)))
  let size = 2 ^ (marker % 16)
  guard (not (ltb (p.table - (pos + 1)) size))
  n ← read_be p.bytes (pos + 1) size
  ok (n, pos + 1 + size)

-- The count of an object with this marker, whose byte lies before `pos`, and where its bytes start
pub count_of : Bplist → ℕ → ℕ → Result (ℕ × ℕ)
count_of p marker pos =
    if marker / 16 == 1 || marker / 16 == 2
    then (do guard (not (ltb 3 (marker % 16))); ok (2 ^ (marker % 16), pos))
    else (if marker % 16 == 15 then long_count p pos else ok (marker % 16, pos))

-- The bytes of one element
abbrev pub width_of : Bplist → ℕ → ℕ
width_of p kind =
    if kind == 6
    then 2
    else (if kind == 10 then p.ref_size else (if kind == 13 then 2 * p.ref_size else 1))

pub object : Bplist → ℕ → Result Object
object p ref = do
  guard (ltb ref p.count)
  pos ← read_be p.bytes (p.table + ref * p.offset_size) p.offset_size
  guard (not (ltb pos 8 || leb p.table pos))
  marker ← read p.bytes pos
  (n, start) ← count_of p marker (pos + 1)
  guard (not (ltb ((p.table - start) / width_of p (marker / 16)) n))
  ok (record { kind = marker / 16; start = start; count = n })

-- `none` is `BPLIST_NONE`
pub reference : Bplist → ℕ → Result (Option ℕ)
reference p pos = do
  ref ← read_be p.bytes pos p.ref_size
  ok (if ltb ref p.count then some ref else none)

-- `object` of a reference that may be `BPLIST_NONE`, which no count exceeds
pub object_at : Bplist → Option ℕ → Result Object
object_at p none = fail
object_at p (some ref) = object p ref

-- The test on one key of a dictionary
pub is_key : Bplist → List ℕ → Option ℕ → Result Bool
is_key p key k = recover false (object_at p k) λ o.
    if o.kind == 5 && o.count == length key
    then (do text ← slice p.bytes o.start o.count; ok (equal_bytes text key))
    else ok false

-- The loop of `bplist_get` from pair `i` on, with `left` pairs to go; `i + left` is the code's `n`.
pub get_loop : Bplist → List ℕ → ℕ → ℕ → ℕ → Result (Option ℕ)
get_loop p key pos i zero = ok none
get_loop p key pos i (suc left) = do
  k ← reference p (pos + i * p.ref_size)
  found ← is_key p key k
  (let rest = get_loop p key pos (i + 1) left in
      if found then reference p (pos + (i + suc left + i) * p.ref_size) else rest)

pub get : Bplist → Option ℕ → List ℕ → Result (Option ℕ)
get p dict key =
    recover none (object_at p dict)
      λ o. if o.kind == 13 then get_loop p key o.start 0 o.count else ok none

pub at : Bplist → Option ℕ → ℕ → Result (Option ℕ)
at p array index = recover none (object_at p array) λ o.
    if not (o.kind == 10) || leb o.count index
    then ok none
    else reference p (o.start + index * p.ref_size)

pub children : Bplist → Option ℕ → Result ℕ
children p ref =
    recover 0 (object_at p ref) λ o. if o.kind == 10 || o.kind == 13 then ok o.count else ok 0

pub uint : Bplist → Option ℕ → Result ℕ
uint p ref = do o ← object_at p ref; guard (o.kind == 1); read_be p.bytes o.start o.count

-- `bplist_bytes`: the bytes that it points to
pub object_bytes : Bplist → Option ℕ → Result (List ℕ)
object_bytes p ref = do
  o ← object_at p ref
  guard (o.kind == 4 || o.kind == 5)
  slice p.bytes o.start o.count
