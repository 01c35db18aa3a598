-- ===== src/Bplist/Writer.antt =====
-- shared/protocol/bplist.c: the bounded writer of binary property lists.
-- A reference is a number here, with 2 ^ 32 - 1 for `BPLIST_NONE`, since the code compares them.
pub mod Bounds
pub mod Opens
mod Tests
use protable_airplay.Base.{
  be_bytes, ℕ, zero, suc, ◌+◌, ◌*◌, ◌/◌, ◌%◌, ◌^◌, Bool, true, false, ◌||◌, List, [], ◌∷◌, ◌++◌,
  ltb, leb, ◌==◌, if◌then◌else◌, length,
}
use protable_airplay.Base.Int.{sub64}
use protable_airplay.Bplist.{magic}

-- `bplist_writer_t`: `written` is the first `used` bytes of `data`, `offsets` the first `count` entries.
pub record Writer : Type 0 where
  pub written : List ℕ
  pub capacity : ℕ
  pub offsets : List ℕ
  pub failed : Bool

abbrev pub used : Writer → ℕ
used w = length w.written

abbrev pub count : Writer → ℕ
count w = length w.offsets

abbrev pub bplist_none : ℕ
bplist_none = 4294967295

-- The writes of these bytes behind the used ones, where they fit
pub put : Writer → List ℕ → Writer
put w bs =
    if w.failed || ltb (sub64 w.capacity (used w)) (length bs)
    then record w { failed = true }
    else record w { written = w.written ++ bs }

abbrev pub append : Writer → ℕ → ℕ → Writer
append w v n = put w (be_bytes v n)

-- `bplist_writer_init` on storage of `capacity` bytes
pub writer_init : ℕ → Writer
writer_init capacity =
    if ltb capacity 40
    then record { written = []; capacity = capacity; offsets = []; failed = true }
    else record { written = magic; capacity = capacity; offsets = []; failed = false }

-- The marker of an object, with its count behind it if that takes more than four bits
abbrev pub mark : Writer → ℕ → ℕ → Writer
mark w kind n =
    if leb 15 n
    then append (append (append w (kind * 16 + 15) 1) 0x13 1) n 8
    else append w (kind * 16 + n) 1

pub start : Writer → ℕ → ℕ → ℕ × Writer
start w kind n =
    if w.failed || (count w == 128 || leb (2 ^ 32) (used w))
    then (bplist_none, record w { failed = true })
    else (count w, mark (record w { offsets = w.offsets ++ (used w % 2 ^ 32 ∷ []) }) kind n)

-- The end of `bytes`; `put` repeats the test for room, which has passed.
pub fill : ℕ → Writer → List ℕ → ℕ × Writer
fill ref w bs =
    if w.failed || ltb (sub64 w.capacity (used w)) (length bs)
    then (bplist_none, record w { failed = true })
    else (ref, put w bs)

abbrev pub add_bytes : Writer → ℕ → List ℕ → ℕ × Writer
add_bytes w kind bs = let (ref, w') = start w kind (length bs) in fill ref w' bs

abbrev pub add_string : Writer → List ℕ → ℕ × Writer
add_string w text = add_bytes w 5 text

abbrev pub add_data : Writer → List ℕ → ℕ × Writer
add_data w bs = add_bytes w 4 bs

pub add_uint : Writer → ℕ → ℕ × Writer
add_uint w value = let (ref, w') = start w 1 3 in (ref, append w' value 8)

-- The body of the loops over references: one of an object that is not written before fails.
pub add_ref : Writer → ℕ → ℕ → Writer
add_ref w ref r = append (if leb ref r then record w { failed = true } else w) r 1

pub add_refs : Writer → ℕ → List ℕ → Writer
add_refs w ref [] = w
add_refs w ref (r ∷ rs) = add_refs (add_ref w ref r) ref rs

pub add_array : Writer → List ℕ → ℕ × Writer
add_array w refs = let (ref, w') = start w 10 (length refs) in (ref, add_refs w' ref refs)

-- `refs[i * 2 + side]` for all i
pub side_of : List (ℕ × ℕ) → Bool → List ℕ
side_of [] side = []
side_of ((k, v) ∷ refs) side = (if side then v else k) ∷ side_of refs side

pub pairs : List (ℕ × ℕ) → ℕ
pairs [] = 0
pairs (r ∷ refs) = suc (pairs refs)

pub add_dict : Writer → List (ℕ × ℕ) → ℕ × Writer
add_dict w refs =
    let (ref, w') = start w 13 (pairs refs) in
    (ref, add_refs (add_refs w' ref (side_of refs false)) ref (side_of refs true))

pub add_offsets : Writer → List ℕ → Writer
add_offsets w [] = w
add_offsets w (o ∷ os) = add_offsets (append w o 4) os

-- The trailer of `bplist_finish`
pub trailer : Writer → ℕ → ℕ → Writer
trailer w root table =
    append (append (append (append (append (append w 0 6) 4 1) 1 1) (count w) 8) root 8) table 8

pub finish : Writer → ℕ → ℕ × Writer
finish w root =
    if leb (count w) root || w.failed
    then (0, w)
    else (let w' = trailer (add_offsets w w.offsets) root (used w) in
        ((if w'.failed then 0 else used w'), w'))
