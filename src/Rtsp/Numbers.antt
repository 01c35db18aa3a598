-- ===== src/Rtsp/Numbers.antt =====
-- `parse_uint32` of shared/protocol/rtsp.c and the numbers it reads.
use protable_airplay.Base.{
  ℕ, ◌+◌, ◌-◌, ◌*◌, ◌^◌, ◌≤◌, ◌<◌, ◌≡◌, refl, inl, inr, Bool, true, ◌&&◌, List, [], ◌∷◌, ltb, leb,
  if◌then◌else◌, All, IsByte, arith, Bool-cases, Result, ok, fail,
}
use protable_airplay.Rtsp.{is_empty, uint32_loop, parse_uint32}

abbrev pub all_digits : List ℕ → Bool
all_digits [] = true
all_digits (c ∷ cs) = leb b'0' c && (leb c b'9' && all_digits cs)

-- The number that decimal digits spell behind `value`
abbrev pub decimal : List ℕ → ℕ → ℕ
decimal [] value = value
decimal (c ∷ cs) value = decimal cs (value * 10 + (c - b'0'))

decimal-grows : (cs : List ℕ) (value : ℕ) → value ≤ decimal cs value
decimal-grows [] value = omega arith
decimal-grows (c ∷ cs) value = omega (arith, decimal-grows cs (value * 10 + (c - b'0')))

-- A number of 32 bits, if the text spells one
abbrev pub decimal_uint32 : List ℕ → ℕ → Result ℕ
decimal_uint32 cs value =
    if all_digits cs && ltb (decimal cs value) (2 ^ 32) then ok (decimal cs value) else fail

decimal_uint32-large : (cs : List ℕ) (value : ℕ) → 2 ^ 32 ≤ value → decimal_uint32 cs value ≡ fail
decimal_uint32-large cs value h = ground (arith, decimal-grows cs value)

uint32_loop_lem :
    (cs : List ℕ) (value : ℕ)
    → All IsByte cs
    → value < 2 ^ 32
    → uint32_loop cs value ≡ decimal_uint32 cs value
unfolding uint32_loop
uint32_loop_lem [] value h k = ground arith
uint32_loop_lem (c ∷ cs) value h k = elim (Bool-cases (leb b'0' c && leb c b'9')) [
  | inl e ↦ elim (Bool-cases (ltb (value * 10 + (c - b'0')) (2 ^ 32))) [
    | inl f ↦ ground (arith, uint32_loop_lem cs (value * 10 + (c - b'0')) h.1 (ground arith))
    | inr f ↦ ground (arith, decimal_uint32-large cs (value * 10 + (c - b'0')) (ground arith))
  ]
  | inr e ↦ ground arith
]

-- `parse_uint32` reads exactly the texts that are decimal digits only, at least one, and that spell a
-- number below 2 to the 32, and returns that number.
pub parse_uint32_lem :
    (text : List ℕ)
    → All IsByte text
    → parse_uint32 text ≡ (if is_empty text then fail else decimal_uint32 text 0)
unfolding parse_uint32
parse_uint32_lem [] h = refl
parse_uint32_lem (c ∷ cs) h = uint32_loop_lem (c ∷ cs) 0 h (omega arith)
