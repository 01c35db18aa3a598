-- ===== src/Base/Reads.antt =====
-- Big-endian numbers read from a part of a buffer.
use native.Mathlib.Nat.{add_assoc}
use Prim.Native.Nat.{ℕ, zero, suc, ◌+◌, ◌≤◌}
use mathlib.Core.Path.{◌≡◌, refl}
use mathlib.Core.List.{List, ◌++◌}
use native.Mathlib.Omega.{arith}
use protable_airplay.Base.Lists.{length, take, get_or-append_left, get_or-append_right, get_or-take}
use protable_airplay.Base.Bytes.{be_loop, be}

pub be_loop-append_right :
    (xs ys : List ℕ) (i n v : ℕ) → be_loop (xs ++ ys) (length xs + i) n v ≡ be_loop ys i n v
unfolding be_loop
be_loop-append_right xs ys i zero v = refl
be_loop-append_right xs ys i (suc n) v =
    rw (get_or-append_right xs ys i 0, add_assoc) (be_loop-append_right xs ys (i + 1) n _)

be_loop-append_left :
    (xs ys : List ℕ) (i n v : ℕ) → i + n ≤ length xs → be_loop (xs ++ ys) i n v ≡ be_loop xs i n v
unfolding be_loop
be_loop-append_left xs ys i zero v h = refl
be_loop-append_left xs ys i (suc n) v h =
    rw (get_or-append_left xs ys i 0 (omega arith))
      (be_loop-append_left xs ys (i + 1) n _ (omega arith))

be_loop-take :
    (k : ℕ) (xs : List ℕ) (i n v : ℕ) → i + n ≤ k → be_loop (take k xs) i n v ≡ be_loop xs i n v
unfolding be_loop
be_loop-take k xs i zero v h = refl
be_loop-take k xs i (suc n) v h =
    rw (get_or-take k xs i 0 (omega arith)) (be_loop-take k xs (i + 1) n _ (omega arith))

pub be-append_left : (xs ys : List ℕ) (i n : ℕ) → i + n ≤ length xs → be (xs ++ ys) i n ≡ be xs i n
unfolding be
be-append_left xs ys i n h = be_loop-append_left xs ys i n 0 h

pub be-take : (k : ℕ) (xs : List ℕ) (i n : ℕ) → i + n ≤ k → be (take k xs) i n ≡ be xs i n
unfolding be
be-take k xs i n h = be_loop-take k xs i n 0 h
