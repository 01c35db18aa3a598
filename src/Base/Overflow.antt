-- ===== src/Base/Overflow.antt =====
-- Signed arithmetic of 64 bits. A result out of range is a fault, since C leaves it undefined.
use Prim.Native.Nat.{ℕ, ◌+◌, ◌*◌, ◌^◌, ◌≤◌, ◌<◌}
use mathlib.Core.Path.{◌≡◌}
use mathlib.Core.Bool.{◌||◌}
use native.Mathlib.Nat.{div-le_self}
use native.Mathlib.Omega.{arith}
use protable_airplay.Base.Compare.{ltb, leb, if◌then◌else◌}
use protable_airplay.Base.Bytes.{Result, ok, fault}
use protable_airplay.Base.Int.{ℤ, pos_part, neg_part, ◌+ℤ◌, ◌-ℤ◌, times, quot}

-- An int64_t that was computed exactly
unfoldable pub checked : ℤ → Result ℤ
checked a = if leb (2 ^ 63) (pos_part a) || ltb (2 ^ 63) (neg_part a) then fault else ok a

abbrev pub IsInt64 : ℤ → Type 0
IsInt64 a = (pos_part a < 2 ^ 63) × (neg_part a ≤ 2 ^ 63)

-- The absolute value is at most `n`.
abbrev pub IsWithin : ℕ → ℤ → Type 0
IsWithin n a = (pos_part a ≤ n) × (neg_part a ≤ n)

pub checked_lem : (a : ℤ) → IsInt64 a → checked a ≡ ok a
unfolding checked
checked_lem a h = ground arith

pub checked-fault : (a : ℤ) → 2 ^ 63 ≤ pos_part a → checked a ≡ fault
unfolding checked
checked-fault a h = ground arith

-- The bounds of sums, products and quotients
pub sum-IsWithin : (a b : ℤ) (n m : ℕ) → IsWithin n a → IsWithin m b → IsWithin (n + m) (a +ℤ b)
unfolding ◌+ℤ◌
sum-IsWithin a b n m h k = ground arith

pub difference-IsWithin :
    (a b : ℤ) (n m : ℕ) → IsWithin n a → IsWithin m b → IsWithin (n + m) (a -ℤ b)
unfolding ◌-ℤ◌
difference-IsWithin a b n m h k = ground arith

pub times-IsWithin : (a : ℤ) (n : ℕ) → IsWithin n a → IsWithin (n * 1000000) (times a 1000000)
unfolding times
times-IsWithin a n h = ground arith

pub quot-IsWithin : (a : ℤ) (n d : ℕ) → IsWithin n a → IsWithin n (quot a d)
unfolding quot
quot-IsWithin a n d h = ground (arith, h, div-le_self (pos_part a) d, div-le_self (neg_part a) d)

pub IsWithin-mono : (a : ℤ) (n m : ℕ) → IsWithin n a → n ≤ m → IsWithin m a
IsWithin-mono a n m h k = omega arith
