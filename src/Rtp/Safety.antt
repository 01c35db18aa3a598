-- ===== src/Rtp/Safety.antt =====
-- `rtp_parse_packet` of shared/protocol/rtp.c reads inside the datagram, whatever it holds.
use protable_airplay.Base.{
  ℕ, ◌+◌, ◌*◌, ◌/◌, ◌%◌, ◌-◌, ◌≤◌, ◌≡◌, refl, sym, ap, ◌∙◌, le→ltb_false, List, Bool, true, false,
  ◌||◌, not, length, take, drop, ltb, ◌==◌, ok, be, get_or, arith, Returns, of_ok, Returns-bind,
  Returns-guard, Returns-read, Returns-read_be, Returns-mono, take-all, length-drop, ◌⊎◌, inl, inr,
  Bool-cases, read_lem, read_be_lem,
}
use protable_airplay.Rtp.{
  RtpHeader, RtpPacket, slice, parse_header, extended_size, strip_padding, parse_plain, unwrap,
  parse_packet,
}

-- The header that the twelve bytes spell
abbrev pub header_of : List ℕ → RtpHeader
header_of bs = record {
  version = get_or bs 0 0 / 64 % 4;
  padding = get_or bs 0 0 / 32 % 2;
  extension = get_or bs 0 0 / 16 % 2;
  csrc_count = get_or bs 0 0 % 16;
  marker = get_or bs 1 0 / 128 % 2;
  payload_type = get_or bs 1 0 % 128;
  sequence = be bs 2 2;
  timestamp = be bs 4 4;
  ssrc = be bs 8 4;
}

pub parse_header_lem : (bs : List ℕ) → 12 ≤ length bs → parse_header bs ≡ ok (header_of bs)
unfolding parse_header
parse_header_lem bs h =
    rw (read_lem bs 0 (omega arith), read_lem bs 1 (omega arith), read_be_lem bs 2 2 (omega arith))
      (rw (read_be_lem bs 4 4 (omega arith), read_be_lem bs 8 4 (omega arith)))

pub slice_lem :
    (bs : List ℕ) (from n : ℕ) → from + n ≤ length bs → slice bs from n ≡ ok (take n (drop from bs))
unfolding slice
slice_lem bs from n h = rw (le→ltb_false (length bs) (from + n) h)

pub slice-Returns :
    (bs : List ℕ) (from n : ℕ)
    → from + n ≤ length bs
    → Returns (λ v. v ≡ take n (drop from bs)) (slice bs from n)
slice-Returns bs from n h = rw (slice_lem bs from n h) (of_ok _ refl)

extended_size-Returns :
    (bs : List ℕ) (header : RtpHeader) (size : ℕ)
    → size ≤ length bs
    → Returns (λ n. (size ≤ n) × (n ≤ length bs)) (extended_size bs header size)
unfolding extended_size
extended_size-Returns bs header size h = elim (Bool-cases (header.extension == 0)) [
  | inl e ↦ simp e (of_ok _ (omega arith, h))
  | inr e ↦ simp e (
      Returns-guard _ (not (ltb (length bs) (size + 4))) _ λ g.
        Returns-bind _ _ _ _ (Returns-read_be bs (size + 2) 2 (ground arith)) λ w _.
          Returns-guard _ (not (ltb (length bs) (size + (4 + w * 4)))) _
            λ k. of_ok _ (omega arith, ground arith))
]

strip_padding-Returns :
    (header : RtpHeader) (payload : List ℕ)
    → Returns
        (λ v. (n : ℕ) × (n ≤ length payload) × (v ≡ take n payload))
        (strip_padding header payload)
unfolding strip_padding
strip_padding-Returns header payload = elim (Bool-cases (header.padding == 0)) [
  | inl e ↦ simp e (of_ok _ (length payload, omega arith, sym (take-all _ payload (omega arith))))
  | inr e ↦ simp e (
      Returns-guard _ (not (length payload == 0)) _ λ g.
        Returns-bind _ _ _ _ (Returns-read payload (length payload - 1) (ground arith)) λ w _.
          Returns-guard _ (not (w == 0 || ltb (length payload) w)) _ λ k.
            Returns-mono _ _ _ (slice-Returns payload 0 (length payload - w) (omega arith))
              λ v q. (length payload - w, omega arith, q))
]

-- The packet view: a header of the first twelve bytes, and bytes of the datagram behind it.
pub record Views (bs : List ℕ) (p : RtpPacket) : Type 0 where
  pub header : p.header ≡ header_of bs
  pub version : p.header.version ≡ 2
  pub start : ℕ
  pub size : ℕ
  pub behind_header : 12 + p.header.csrc_count * 4 ≤ start
  pub inside : start + size ≤ length bs
  pub payload : p.payload ≡ take size (drop start bs)

parse_plain-Returns : (bs : List ℕ) → 12 ≤ length bs → Returns (Views bs) (parse_plain bs)
unfolding parse_plain
parse_plain-Returns bs h = rw (parse_header_lem bs h) (
    Returns-guard _ (get_or bs 0 0 / 64 % 4 == 2) _ λ v.
      Returns-guard _ (not (ltb (length bs) (12 + get_or bs 0 0 % 16 * 4))) _ λ f.
        Returns-bind _ _ _ _
          (extended_size-Returns bs (header_of bs) (12 + get_or bs 0 0 % 16 * 4) (ground arith))
          λ n hn. Returns-bind _ _ _ _ (slice-Returns bs n (length bs - n) (omega arith)) λ w hw.
            Returns-bind _ _ _ _ (strip_padding-Returns (header_of bs) w) λ payload (m, hm, e).
              of_ok _ record {
                header = refl;
                version = ground arith;
                start = n;
                size = m;
                behind_header = hn.0;
                inside = omega (arith, ap length (hw ∙ whole n), length-drop n bs, hn.1);
                payload = e ∙ ap (take m) (hw ∙ whole n);
              })
  where
    whole : (n : ℕ) → take (length bs - n) (drop n bs) ≡ drop n bs
    whole n = take-all _ (drop n bs) (omega (arith, length-drop n bs))

-- The datagram begins as a retransmit reply does.
abbrev pub is_wrapped : List ℕ → Bool
is_wrapped bs = get_or bs 1 0 % 128 == 0x56

abbrev pub Unwrapped : List ℕ → List ℕ → Type 0
Unwrapped bs plain =
    ((is_wrapped bs ≡ false) × (plain ≡ bs)) ⊎ ((is_wrapped bs ≡ true) × (plain ≡ drop 4 bs))

unwrap-Returns :
    (bs : List ℕ) → 12 ≤ length bs → Returns (λ v. (12 ≤ length v) × Unwrapped bs v) (unwrap bs)
unfolding unwrap
unwrap-Returns bs h = Returns-bind _ _ _ _ (Returns-read bs 1 (omega arith)) λ kind k.
    elim (Bool-cases (kind % 128 == 0x56)) [
      | inl e ↦ simp e (
          Returns-guard _ (not (ltb (length bs) 16)) _
            λ g. of_ok _ (ground (arith, length-drop 4 bs), inr (rw (← k) e, refl)))
      | inr e ↦ simp e (of_ok _ (h, inl (rw (← k) e, refl)))
    ]

-- What `rtp_parse_packet` returns for a datagram
abbrev pub Parsed : List ℕ → RtpPacket → Type 0
Parsed bs p = (plain : List ℕ) × Unwrapped bs plain × Views plain p

-- On any datagram `rtp_parse_packet` reads no byte outside it, and either fails or returns a version 2
-- packet. Its header is the one that the first twelve bytes spell, its payload is a range of bytes
-- inside the datagram, behind the fixed header and the CSRC list; of a retransmit reply both are
-- taken from what follows the four bytes of the wrapper.
pub parse_packet-Returns : (bs : List ℕ) → Returns (Parsed bs) (parse_packet bs)
unfolding parse_packet
parse_packet-Returns bs = Returns-guard _ (not (ltb (length bs) 12)) _ λ g.
    Returns-bind _ _ _ _ (unwrap-Returns bs (ground arith))
      λ plain (h, e). Returns-mono _ _ _ (parse_plain-Returns plain h) λ p v. (plain, e, v)
