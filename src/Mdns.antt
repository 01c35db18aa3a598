-- ===== src/Mdns.antt =====
-- shared/protocol/mdns.c: the names of DNS messages, and the records that announce a service.
-- A text is the list of its bytes without the zero byte at its end. The list `out` is what is written of
-- the buffer, and its length is `position`.
pub mod Address
pub mod Responder
pub mod Names
pub mod RoundTrip
pub mod Packets
pub mod Build
pub mod Answers
pub mod Queries
pub mod Replies
mod Tests
use protable_airplay.Base.{
  ℕ, zero, suc, ◌+◌, ◌-◌, ◌*◌, ◌/◌, ◌%◌, ◌^◌, Bool, true, false, ◌&&◌, ◌||◌, not, Option, none,
  some, List, [], ◌∷◌, ◌++◌, ltb, leb, ◌==◌, if◌then◌else◌, length, take, drop, be_bytes, Result,
  ok, fail, fault, ◌>>=◌, ◌>>◌, guard, read,
}
use protable_airplay.Rtp.{slice}
use protable_airplay.Mdns.Address.{str_to_ipv4}

-- A write of these bytes behind `out`, which must lie in the buffer
pub emit : ℕ → List ℕ → List ℕ → Result (List ℕ)
emit capacity out bs = if ltb capacity (length out + length bs) then fault else ok (out ++ bs)

-- `write_u16` at a place that is written already
pub patch : List ℕ → ℕ → ℕ → Result (List ℕ)
patch out i v =
    if ltb (length out) (i + 2)
    then fault
    else ok (take i out ++ (be_bytes v 2 ++ drop (i + 2) out))

-- The labels that the loop of `write_name` finds
pub push : ℕ → List (List ℕ) → List (List ℕ)
push c [] = (c ∷ []) ∷ []
push c (l ∷ ls) = (c ∷ l) ∷ ls

pub labels : List ℕ → List (List ℕ)
labels [] = []
labels (c ∷ cs) = let rest = labels cs in if c == b'.' then [] ∷ rest else push c rest

pub write_labels : ℕ → List ℕ → List (List ℕ) → Result (List ℕ)
write_labels capacity out [] = ok out
write_labels capacity out (l ∷ ls) = do
  guard (not (length l == 0 || (ltb 63 (length l) || leb capacity (length out + 1 + length l))))
  out' ← emit capacity out (length l ∷ l)
  write_labels capacity out' ls

pub is_empty : List ℕ → Bool
is_empty [] = true
is_empty (c ∷ cs) = false

pub write_name : ℕ → List ℕ → List ℕ → Result (List ℕ)
write_name capacity out name = do
  guard (not (is_empty name))
  out' ← write_labels capacity out (labels name)
  guard (not (leb capacity (length out') || ltb 255 (length out' - length out + 1)))
  emit capacity out' (0 ∷ [])

-- The text in the buffer `name`, up to its first zero byte
pub c_string : List ℕ → List ℕ
c_string [] = []
c_string (c ∷ cs) = if c == 0 then [] else c ∷ c_string cs

-- The end of `decode_name`: a zero byte replaces the last dot, or is all there is.
pub finish_name : ℕ → List ℕ → Result (List ℕ)
finish_name capacity name =
    if ltb capacity 1 then fault else ok (c_string (take (length name - 1) name))

-- A label of at most 63 bytes that lies in the message and for which the buffer has room
abbrev pub fits : List ℕ → ℕ → ℕ → ℕ → List ℕ → Bool
fits bs capacity position label name = not (
    not (label / 64 == 0)
    || (ltb (length bs) (position + 1 + label) || leb capacity (length name + label + 1)))

-- The loop of `decode_name`; `name` is the used part of its buffer, and `next` is 0 until the first pointer.
pub decode_loop : ℕ → List ℕ → ℕ → ℕ → ℕ → List ℕ → Result (ℕ × List ℕ)
decode_loop zero bs capacity position next name = fail
decode_loop (suc steps) bs capacity position next name = do
  guard (ltb position (length bs))
  label ← read bs position
  (let pointer =
        guard (ltb (position + 1) (length bs))
        >> (read bs (position + 1) >>= λ low.
            decode_loop steps bs capacity (label % 64 * 256 + low)
              (if next == 0 then position + 2 else next) name) in
      let plain =
        guard (fits bs capacity position label name)
        >> (slice bs (position + 1) label >>= λ text.
            emit capacity name (text ++ (b'.' ∷ [])) >>= λ name'.
            decode_loop steps bs capacity (position + 1 + label) next name') in
      if label == 0
      then finish_name capacity name
        >>= (λ text. ok (if next == 0 then position + 1 else next, text))
      else if label / 64 == 3
      then pointer
      else plain)

pub decode_name : List ℕ → ℕ → ℕ → Result (ℕ × List ℕ)
decode_name bs offset capacity = decode_loop (length bs) bs capacity offset 0 []

pub record Config : Type 0 where
  pub service_type : List ℕ
  pub instance_name : List ℕ
  pub hostname : List ℕ
  pub port : ℕ
  pub ipv4 : Option (List ℕ)
  pub txt_entries : List (Option (List ℕ))

-- `snprintf` of "%s.%s" into 256 bytes
pub full_name : Config → Result (List ℕ)
full_name c = do
  let name = c.instance_name ++ (b'.' ∷ c.service_type)
  guard (not (leb 256 (length name)))
  ok name

-- `begin_record`; its place is the length of `out`.
pub begin_record : ℕ → List ℕ → ℕ → ℕ → ℕ → Result (List ℕ)
begin_record capacity out kind class ttl = do
  guard (not (ltb capacity (length out + 10)))
  emit capacity out (be_bytes kind 2 ++ (be_bytes class 2 ++ (be_bytes ttl 4 ++ (0 ∷ 0 ∷ []))))

-- The length of a record's data, which ends at the end of `out`
abbrev pub end_record : List ℕ → ℕ → Result (List ℕ)
end_record out place = patch out (place + 8) (length out - (place + 10))

pub pointer_record : Config → ℕ → ℕ → List ℕ → List ℕ → Result (List ℕ)
pointer_record c capacity ttl full out = do
  out₁ ← write_name capacity out c.service_type
  out₂ ← begin_record capacity out₁ 12 1 ttl
  out₃ ← write_name capacity out₂ full
  end_record out₃ (length out₁)

pub service_record : Config → ℕ → ℕ → List ℕ → List ℕ → Result (List ℕ)
service_record c capacity ttl full out = do
  out₁ ← write_name capacity out full
  out₂ ← begin_record capacity out₁ 33 0x8001 ttl
  guard (not (ltb capacity (length out₂ + 6)))
  out₃ ← emit capacity out₂ (0 ∷ 0 ∷ 0 ∷ 0 ∷ be_bytes c.port 2)
  out₄ ← write_name capacity out₃ c.hostname
  end_record out₄ (length out₁)

-- The record and the number of answers that it adds
pub address_record : Config → ℕ → ℕ → List ℕ → List ℕ → Result (List ℕ)
address_record c capacity ttl text out = do
  bytes ← str_to_ipv4 text
  out₁ ← write_name capacity out c.hostname
  out₂ ← begin_record capacity out₁ 1 0x8001 ttl
  guard (not (ltb capacity (length out₂ + 4)))
  out₃ ← emit capacity out₂ bytes
  patch out₃ (length out₁ + 8) 4

pub write_entries : ℕ → List ℕ → List (Option (List ℕ)) → Result (List ℕ)
write_entries capacity out [] = ok out
write_entries capacity out (none ∷ es) = fail
write_entries capacity out (some e ∷ es) = do
  guard (not (ltb 255 (length e) || ltb capacity (length out + 1 + length e)))
  out' ← emit capacity out (length e ∷ e)
  write_entries capacity out' es

pub text_record : Config → ℕ → ℕ → List ℕ → List ℕ → Result (List ℕ)
text_record c capacity ttl full out = do
  out₁ ← write_name capacity out full
  out₂ ← begin_record capacity out₁ 16 0x8001 ttl
  out₃ ← write_entries capacity out₂ c.txt_entries
  end_record out₃ (length out₁)

abbrev pub has_address : Config → Option (List ℕ)
has_address c = elim c.ipv4 [ none ↦ none | some text ↦ if is_empty text then none else some text ]

pub maybe_address : Config → ℕ → ℕ → List ℕ → Result (ℕ × List ℕ)
maybe_address c capacity ttl out = elim (has_address c) [
  | none ↦ ok (2, out)
  | some text ↦ address_record c capacity ttl text out >>= (λ out'. ok (3, out'))
]

pub maybe_text : Config → ℕ → ℕ → List ℕ → ℕ → List ℕ → Result (ℕ × List ℕ)
maybe_text c capacity ttl full answers out =
    if length c.txt_entries == 0
    then ok (answers, out)
    else text_record c capacity ttl full out >>= (λ out'. ok (answers + 1, out'))

abbrev pub header : List ℕ
header = 0 ∷ 0 ∷ 0x84 ∷ 0 ∷ 0 ∷ 0 ∷ 0 ∷ 0 ∷ 0 ∷ 0 ∷ 0 ∷ 0 ∷ []

pub build_packet : Config → ℕ → ℕ → Result (List ℕ)
build_packet c capacity ttl = do
  guard (not (ltb capacity 12))
  out ← emit capacity [] header
  full ← full_name c
  out₁ ← pointer_record c capacity ttl full out
  out₂ ← service_record c capacity ttl full out₁
  (answers, out₃) ← maybe_address c capacity ttl out₂
  (answers', out₄) ← maybe_text c capacity ttl full answers out₃
  patch out₄ 6 answers'
