-- ===== src/Mdns/Address.antt =====
-- shared/util/network_util.c: IPv4 addresses in text, and texts compared without case.
use protable_airplay.Base.{
  ℕ, zero, suc, ◌+◌, ◌-◌, ◌*◌, Bool, true, false, not, ◌&&◌, ◌||◌, List, [], ◌∷◌, ltb, leb, ◌==◌,
  if◌then◌else◌, Result, ok, fail, ◌>>=◌, ◌>>◌, guard,
}

abbrev pub is_digit : ℕ → Bool
is_digit c = leb b'0' c && leb c b'9'

-- The digits of one number of `net_str_to_ipv4`: its value, how many there are, and what follows
unfoldable pub octet : List ℕ → ℕ → ℕ → Result (ℕ × ℕ × List ℕ)
octet [] value digits = ok (value, digits, [])
octet (c ∷ cs) value digits =
    let value' = value * 10 + (c - b'0') in
    let more = octet cs value' (digits + 1) in
    if is_digit c
    then (if ltb 3 (digits + 1) || ltb 255 value' then fail else more)
    else ok (value, digits, c ∷ cs)

-- What follows a number: a dot, or the end
unfoldable pub dotted : List ℕ → Result (List ℕ)
dotted [] = fail
dotted (c ∷ cs) = if c == b'.' then ok cs else fail

unfoldable pub ended : List ℕ → Result (Unit {0})
ended [] = ok tt
ended (c ∷ cs) = fail

-- `left` is 3 - i. A text has no zero byte, so its end is the empty list.
unfoldable pub octets : ℕ → List ℕ → Result (List ℕ)
octets zero text = do
  (value, digits, rest) ← octet text 0 0
  guard (not (digits == 0))
  end ← ended rest
  ok (value ∷ [])
octets (suc left) text = do
  (value, digits, rest) ← octet text 0 0
  guard (not (digits == 0))
  text' ← dotted rest
  bytes ← octets left text'
  ok (value ∷ bytes)

-- `net_str_to_ipv4`: the four bytes of the address
unfoldable pub str_to_ipv4 : List ℕ → Result (List ℕ)
str_to_ipv4 text = octets 3 text

unfoldable pub ascii_lower : ℕ → ℕ
ascii_lower c = if leb b'A' c && leb c b'Z' then c + 32 else c

-- `net_ascii_casecmp` is 0.
unfoldable pub same_name : List ℕ → List ℕ → Bool
same_name [] [] = true
same_name [] (y ∷ ys) = false
same_name (x ∷ xs) [] = false
same_name (x ∷ xs) (y ∷ ys) = let rest = same_name xs ys in ascii_lower x == ascii_lower y && rest
