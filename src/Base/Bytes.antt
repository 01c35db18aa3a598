-- ===== src/Base/Bytes.antt =====
-- Bytes in memory. A read outside a buffer is a fault, which the C standard leaves undefined; a
-- failure is a negative status that the code returns.
use Prim.Native.Nat.{ℕ, zero, suc, ◌+◌, ◌*◌, ◌/◌, ◌%◌, ◌^◌, ◌≤◌, ◌<◌}
use mathlib.Core.Path.{◌≡◌, refl, subst}
use mathlib.Core.Bool.{Bool, true, false}
use mathlib.Core.List.{List, [], ◌∷◌}
use native.Mathlib.Omega.{arith}
use protable_airplay.Base.Lists.{length, get_or, All}

abbrev pub IsByte : ℕ → Type 0
IsByte b = b < 256

pub data Result {ℓ} (A : Type ℓ) : Type ℓ where
  ok : A → Result A
  fail fault : Result A

infixl 5 ◌>>=◌ ◌>>◌
abbrev pub ◌>>=◌ {ℓ κ} : {A : Type ℓ} {B : Type κ} → Result A → (A → Result B) → Result B
ok a >>= f = f a
fail >>= f = fail
fault >>= f = fault

abbrev pub ◌>>◌ {ℓ} : {B : Type ℓ} → Result (Unit {0}) → Result B → Result B
m >> k = m >>= λ _. k

-- `if (!b) return -1;`
abbrev pub guard : Bool → Result (Unit {0})
guard true = ok tt
guard false = fail

-- `data[i]`
unfoldable pub read : List ℕ → ℕ → Result ℕ
read [] i = fault
read (b ∷ bs) zero = ok b
read (b ∷ bs) (suc i) = read bs i

pub read_lem : (bs : List ℕ) (i : ℕ) → i < length bs → read bs i ≡ ok (get_or bs i 0)
unfolding read
read_lem [] i h = absurd (omega arith)
read_lem (b ∷ bs) zero h = refl
read_lem (b ∷ bs) (suc i) h = read_lem bs i (omega arith)

pub get_or-IsByte : (bs : List ℕ) (i : ℕ) → All IsByte bs → IsByte (get_or bs i 0)
get_or-IsByte [] i h = omega arith
get_or-IsByte (b ∷ bs) zero h = h.0
get_or-IsByte (b ∷ bs) (suc i) h = get_or-IsByte bs i h.1

-- `value << 8 | b` on a uint64_t, where `b` is a byte: the low eight bits are free.
abbrev pub shift_in : ℕ → ℕ → ℕ
shift_in value b = value * 256 % 2 ^ 64 + b

-- `while (n--) value = (value << 8) | *p++;` from `p = data + i`
unfoldable pub read_be_loop : List ℕ → ℕ → ℕ → ℕ → Result ℕ
read_be_loop bs i zero value = ok value
read_be_loop bs i (suc n) value = read bs i >>= λ b. read_be_loop bs (i + 1) n (shift_in value b)

-- The same value where all reads are in bounds.
unfoldable pub be_loop : List ℕ → ℕ → ℕ → ℕ → ℕ
be_loop bs i zero value = value
be_loop bs i (suc n) value = be_loop bs (i + 1) n (shift_in value (get_or bs i 0))

pub read_be_loop_lem :
    (bs : List ℕ) (i n value : ℕ)
    → i + n ≤ length bs
    → read_be_loop bs i n value ≡ ok (be_loop bs i n value)
unfolding read_be_loop be_loop
read_be_loop_lem bs i zero value h = refl
read_be_loop_lem bs i (suc n) value h =
    rw (read_lem bs i (omega arith)) (read_be_loop_lem bs (i + 1) n _ (omega arith))

unfoldable pub read_be : List ℕ → ℕ → ℕ → Result ℕ
unfolding read_be_loop
read_be bs i n = read_be_loop bs i n 0

unfoldable pub be : List ℕ → ℕ → ℕ → ℕ
unfolding be_loop
be bs i n = be_loop bs i n 0

pub read_be_lem : (bs : List ℕ) (i n : ℕ) → i + n ≤ length bs → read_be bs i n ≡ ok (be bs i n)
unfolding read_be be
read_be_lem bs i n h = read_be_loop_lem bs i n 0 h

-- The code does not fault, and what it returns satisfies `P`.
pub data Returns {ℓ κ} {A : Type ℓ} (P : A → Type κ) : Result A → Type (ℓ ⊔ κ) where
  of_ok : (a : A) → P a → Returns P (ok a)
  of_fail : Returns P fail

pub Returns-bind {ℓ κ μ ν} :
    {A : Type ℓ} {B : Type κ} (P : A → Type μ) (Q : B → Type ν) (m : Result A) (f : A → Result B)
    → Returns P m
    → ((a : A) → P a → Returns Q (f a))
    → Returns Q (m >>= f)
Returns-bind P Q m f (of_ok a p) h = h a p
Returns-bind P Q m f of_fail h = of_fail

pub Returns-mono {ℓ κ μ} :
    {A : Type ℓ} (P : A → Type κ) (Q : A → Type μ) (m : Result A)
    → Returns P m
    → ((a : A) → P a → Q a)
    → Returns Q m
Returns-mono P Q m (of_ok a p) h = of_ok a (h a p)
Returns-mono P Q m of_fail h = of_fail

pub Returns-guard {κ} :
    {A : Type 0} (Q : A → Type κ) (b : Bool) (m : Result A)
    → (b ≡ true → Returns Q m)
    → Returns Q (guard b >> m)
Returns-guard Q true m h = h refl
Returns-guard Q false m h = of_fail

pub Returns-ne-fault {ℓ κ} :
    {A : Type ℓ} (P : A → Type κ) (m : Result A) → Returns P m → (m ≡ fault) → ⊥
Returns-ne-fault P m (of_ok a p) e = cc
Returns-ne-fault P m of_fail e = cc

pub Returns-value {ℓ κ} :
    {A : Type ℓ} (P : A → Type κ) (m : Result A) (a : A) → Returns P m → m ≡ ok a → P a
Returns-value P m a (of_ok b p) e = subst P (ground arith) p
Returns-value P m a of_fail e = cc

pub Returns-read :
    (bs : List ℕ) (i : ℕ) → i < length bs → Returns (λ b. b ≡ get_or bs i 0) (read bs i)
Returns-read bs i h = rw (read_lem bs i h) (of_ok _ refl)

pub Returns-read_be :
    (bs : List ℕ) (i n : ℕ) → i + n ≤ length bs → Returns (λ v. v ≡ be bs i n) (read_be bs i n)
Returns-read_be bs i n h = rw (read_be_lem bs i n h) (of_ok _ refl)

-- A result that is there: neither a failure nor a fault
pub data Yields {ℓ κ} {A : Type ℓ} (P : A → Type κ) : Result A → Type (ℓ ⊔ κ) where
  yields : (a : A) → P a → Yields P (ok a)

pub Yields-bind {ℓ κ μ ν} :
    {A : Type ℓ} {B : Type κ} (P : A → Type μ) (Q : B → Type ν) (m : Result A) (f : A → Result B)
    → Yields P m
    → ((a : A) → P a → Yields Q (f a))
    → Yields Q (m >>= f)
Yields-bind P Q m f (yields a p) h = h a p

pub Yields-mono {ℓ κ μ} :
    {A : Type ℓ} (P : A → Type κ) (Q : A → Type μ) (m : Result A)
    → Yields P m
    → ((a : A) → P a → Q a)
    → Yields Q m
Yields-mono P Q m (yields a p) h = yields a (h a p)

-- The low `n` bytes of `v`, the highest first
unfoldable pub be_bytes : ℕ → ℕ → List ℕ
be_bytes v zero = []
be_bytes v (suc n) = v / 2 ^ (n * 8) % 256 ∷ be_bytes v n

pub length-be_bytes : (v n : ℕ) → length (be_bytes v n) ≡ n
unfolding be_bytes
length-be_bytes v zero = refl
length-be_bytes v (suc n) = omega (arith, length-be_bytes v n)

-- What a caller does on success, or `other` if the call has failed
unfoldable pub recover {ℓ κ} : {A : Type ℓ} {B : Type κ} → B → Result A → (A → Result B) → Result B
recover other (ok a) f = f a
recover other fail f = ok other
recover other fault f = fault

pub Yields-recover {ℓ κ μ ν} :
    {A : Type ℓ} {B : Type κ} (P : A → Type μ) (Q : B → Type ν) (other : B) (m : Result A)
    (f : A → Result B)
    → Returns P m
    → Q other
    → ((a : A) → P a → Yields Q (f a))
    → Yields Q (recover other m f)
unfolding recover
Yields-recover P Q other m f (of_ok a p) q h = h a p
Yields-recover P Q other m f of_fail q h = yields other q

pub Yields-Returns {ℓ κ μ} :
    {A : Type ℓ} (P : A → Type κ) (Q : A → Type μ) (m : Result A)
    → Yields P m
    → ((a : A) → P a → Q a)
    → Returns Q m
Yields-Returns P Q m (yields a p) h = of_ok a (h a p)

pub Yields-bind_eq {ℓ κ μ ν} :
    {A : Type ℓ} {B : Type κ} (P : A → Type μ) (Q : B → Type ν) (m : Result A) (f : A → Result B)
    → Yields P m
    → ((a : A) → m ≡ ok a → P a → Yields Q (f a))
    → Yields Q (m >>= f)
Yields-bind_eq P Q m f (yields a p) h = h a refl p
