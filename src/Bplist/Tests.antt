-- ===== src/Bplist/Tests.antt =====
-- Runs of the reader of shared/protocol/bplist.c on a small list, and uses of its theorems.
use protable_airplay.Base.{
  recover, Yields, ℕ, zero, suc, ◌≤◌, ◌<◌, ◌≡◌, refl, false, List, [], ◌∷◌, ◌++◌, length, take,
  drop, replicate, some, arith, ok, Returns, be, read_be, read, read_be_loop,
}
use protable_airplay.Rtp.{slice}
use protable_airplay.Bplist.{
  Bplist, magic, bplist_open, equal_bytes, Object, long_count, count_of, object, object_at,
  reference, is_key, get_loop, get, at, children, uint, object_bytes,
}
use protable_airplay.Bplist.Reader.{IsValid, IsObject, InList}
use protable_airplay.Bplist.Lookup.{bplist_open-Lookups}
use protable_airplay.Bplist.Find.{key_at}

-- {"a": 7, "b": 300}: a dictionary at 8, the strings at 13 and 15, the numbers at 17 and 19
abbrev small : List ℕ
small =
    magic
    ++ (0xd2 ∷ 1 ∷ 2 ∷ 3 ∷ 4 ∷ 0x51 ∷ 97 ∷ 0x51 ∷ 98 ∷ 0x10 ∷ 7 ∷ 0x11 ∷ 1 ∷ 44 ∷ []
        ++ (8 ∷ 13 ∷ 15 ∷ 17 ∷ 19 ∷ []
            ++ (replicate 6 0
                ++ (1 ∷ 1 ∷ [] ++ (replicate 7 0 ++ (5 ∷ [] ++ (replicate 15 0 ++ (22 ∷ []))))))))

abbrev small_list : Bplist
small_list = record {
  bytes = small;
  table = 22;
  count = 5;
  root = 0;
  offset_size = 1;
  ref_size = 1;
}

small_opens : bplist_open small ≡ ok small_list
unfolding bplist_open slice equal_bytes read read_be read_be_loop
small_opens = refl

small_list-IsValid : IsValid small_list
small_list-IsValid = record {
  magic_behind = omega arith;
  offsets_inside = omega arith;
  offset_size_pos = omega arith;
  ref_size_pos = omega arith;
  offset_size_bound = omega arith;
  ref_size_bound = omega arith;
  root_bound = omega arith;
  count_bound = omega arith;
}

get_of_b : get small_list (some 0) (98 ∷ []) ≡ ok (some 4)
unfolding get object_at object count_of long_count recover get_loop reference is_key slice
    equal_bytes read read_be read_be_loop
get_of_b = refl

value_of_b : uint small_list (some 4) ≡ ok 300
unfolding uint object_at object count_of long_count read read_be read_be_loop
value_of_b = refl

bplist_open-Lookups_example :
    Yields (InList small_list) (get small_list (some 0) (98 ∷ []))
    × Yields (InList small_list) (at small_list (some 0) 0)
    × Yields (λ n. n ≤ length small) (children small_list (some 0))
    × Returns
        (λ n. (o : Object) × IsObject small_list o × (n ≡ be small o.start o.count))
        (uint small_list (some 0))
    × Returns
        (λ bs. (o : Object) × IsObject small_list o × (bs ≡ take o.count (drop o.start small)))
        (object_bytes small_list (some 0))
bplist_open-Lookups_example = bplist_open-Lookups small small_list (some 0) (98 ∷ []) 0 small_opens

abbrev dictionary : Object
dictionary = record { kind = 13; start = 9; count = 2 }

no_key : (k : ℕ) → k < 2 → key_at small_list (99 ∷ []) 9 k ≡ ok false
unfolding key_at object_at object count_of long_count recover reference is_key slice equal_bytes
    read read_be read_be_loop
no_key zero h = refl
no_key (suc zero) h = refl
no_key (suc (suc k)) h = absurd (omega arith)
