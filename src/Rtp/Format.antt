-- ===== src/Rtp/Format.antt =====
-- The packet format of RFC 3550, and that `rtp_parse_packet` of shared/protocol/rtp.c reads it.
use protable_airplay.Base.{
  ℕ, ◌+◌, ◌*◌, ◌/◌, ◌%◌, ◌^◌, ◌-◌, ◌≤◌, ◌<◌, ◌≡◌, ◌≢◌, sym, ap, ap₂, ◌∙◌, List, [], ◌∷◌, ◌++◌,
  false, ◌||◌, length, take, drop, ltb, ◌==◌, ok, read, read_be, be, be_loop, be_loop-append_right,
  get_or, arith, length-append, length-drop, drop-append_two, take-append, take-all,
  get_or-append_right, read_lem, read_be_lem, le→ltb_false,
}
use mathlib.Core.List.{append-nil, append_assoc}
use protable_airplay.Rtp.{
  RtpHeader, slice, parse_header, extended_size, strip_padding, parse_plain, unwrap, parse_packet,
}
use protable_airplay.Rtp.Safety.{header_of, parse_header_lem}

-- The big-endian bytes of a 16-bit and of a 32-bit number
abbrev pub be16 : ℕ → List ℕ
be16 v = v / 256 % 256 ∷ v % 256 ∷ []

abbrev pub be32 : ℕ → List ℕ
be32 v = v / 0x1000000 % 256 ∷ v / 0x10000 % 256 ∷ v / 256 % 256 ∷ v % 256 ∷ []

-- A header extension: two bytes of the profile's, and a number of words
pub data Extension : Type 0 where
  absent : Extension
  present : ℕ → ℕ → ℕ → List ℕ → Extension

abbrev pub extension_bytes : Extension → List ℕ
extension_bytes absent = []
extension_bytes (present a b words body) = a ∷ b ∷ (be16 words ++ body)

-- Padding: filler, and the number of bytes in all as the last
pub data Padding : Type 0 where
  unpadded : Padding
  padded : List ℕ → Padding

abbrev pub padding_bytes : Padding → List ℕ
padding_bytes unpadded = []
padding_bytes (padded filler) = filler ++ (length filler + 1) ∷ []

abbrev pub FitsExtension : RtpHeader → Extension → Type 0
FitsExtension h absent = h.extension ≡ 0
FitsExtension h (present a b words body) =
    (h.extension ≡ 1) × (words < 2 ^ 16) × (length body ≡ words * 4)

abbrev pub FitsPadding : RtpHeader → Padding → Type 0
FitsPadding h unpadded = h.padding ≡ 0
FitsPadding h (padded filler) = (h.padding ≡ 1) × (length filler < 255)

pub record Fits (h : RtpHeader) (csrc : List ℕ) (e : Extension) (p : Padding) : Type 0 where
  pub version : h.version ≡ 2
  pub csrc_count : h.csrc_count < 16
  pub csrc_length : length csrc ≡ h.csrc_count * 4
  pub marker : h.marker < 2
  pub payload_type : h.payload_type < 128
  pub sequence : h.sequence < 2 ^ 16
  pub timestamp : h.timestamp < 2 ^ 32
  pub ssrc : h.ssrc < 2 ^ 32
  pub extension : FitsExtension h e
  pub padding : FitsPadding h p

abbrev pub fixed_bytes : RtpHeader → List ℕ
fixed_bytes h =
    (h.version * 64 + h.padding * 32 + h.extension * 16 + h.csrc_count)
    ∷ (h.marker * 128 + h.payload_type)
    ∷ (be16 h.sequence ++ (be32 h.timestamp ++ be32 h.ssrc))

unfoldable pub encode : RtpHeader → List ℕ → Extension → List ℕ → Padding → List ℕ
encode h csrc e payload p =
    fixed_bytes h ++ (csrc ++ (extension_bytes e ++ (payload ++ padding_bytes p)))

flags_small :
    (h : RtpHeader) (csrc : List ℕ) (e : Extension) (p : Padding)
    → Fits h csrc e p
    → (h.extension < 2) × (h.padding < 2)
flags_small h csrc absent unpadded f = omega arith
flags_small h csrc absent (padded l) f = omega (arith, f.padding.0, f.extension)
flags_small h csrc (present a b w l') unpadded f = omega (arith, f.padding, f.extension.0)
flags_small h csrc (present a b w l') (padded l) f = omega (arith, f.padding.0, f.extension.0)

header_of-fixed_bytes :
    (h : RtpHeader) (csrc : List ℕ) (e : Extension) (p : Padding) (rest : List ℕ)
    → Fits h csrc e p
    → header_of (fixed_bytes h ++ rest) ≡ h
unfolding be be_loop
header_of-fixed_bytes h csrc e p rest f = λ i. record {
  version = version i;
  padding = padding i;
  extension = extension i;
  csrc_count = csrc_count i;
  marker = marker i;
  payload_type = payload_type i;
  sequence = sequence i;
  timestamp = timestamp i;
  ssrc = ssrc i;
}
  where
    small : (h.extension < 2) × (h.padding < 2)
    small = flags_small h csrc e p f

    version : (header_of (fixed_bytes h ++ rest)).version ≡ h.version
    version = omega (arith, small, f.version, f.csrc_count)

    padding : (header_of (fixed_bytes h ++ rest)).padding ≡ h.padding
    padding = omega (arith, small, f.version, f.csrc_count)

    extension : (header_of (fixed_bytes h ++ rest)).extension ≡ h.extension
    extension = omega (arith, small, f.version, f.csrc_count)

    csrc_count : (header_of (fixed_bytes h ++ rest)).csrc_count ≡ h.csrc_count
    csrc_count = omega (arith, small, f.version, f.csrc_count)

    marker : (header_of (fixed_bytes h ++ rest)).marker ≡ h.marker
    marker = omega (arith, f.marker, f.payload_type)

    payload_type : (header_of (fixed_bytes h ++ rest)).payload_type ≡ h.payload_type
    payload_type = omega (arith, f.marker, f.payload_type)

    sequence : (header_of (fixed_bytes h ++ rest)).sequence ≡ h.sequence
    sequence = omega (arith, f.sequence)

    timestamp : (header_of (fixed_bytes h ++ rest)).timestamp ≡ h.timestamp
    timestamp = omega (arith, f.timestamp)

    ssrc : (header_of (fixed_bytes h ++ rest)).ssrc ≡ h.ssrc
    ssrc = omega (arith, f.ssrc)

extended_size-encode :
    (h : RtpHeader) (pre : List ℕ) (e : Extension) (rest : List ℕ)
    → FitsExtension h e
    → extended_size (pre ++ (extension_bytes e ++ rest)) h (length pre)
      ≡ ok (length pre + length (extension_bytes e))
unfolding extended_size be be_loop
extended_size-encode h pre absent rest f = simp f (ap ok (omega arith))
extended_size-encode h pre (present a b words body) rest f =
    simp (f.0, le→ltb_false (length (pre ++ tail)) (length pre + 4) (omega (arith, size)), count)
      (simp
        (le→ltb_false (length (pre ++ tail)) (length pre + (4 + words * 4))
          (omega (arith, size, f.2)))
        (ap ok (omega (arith, f.2))))
  where
    tail : List ℕ
    tail = a ∷ b ∷ (be16 words ++ (body ++ rest))

    size : length (pre ++ tail) ≡ length pre + (4 + (length body + length rest))
    size = omega (arith, length-append pre tail, length-append body rest)

    count : read_be (pre ++ tail) (length pre + 2) 2 ≡ ok words
    count =
        read_be_lem (pre ++ tail) (length pre + 2) 2 (omega (arith, size))
        ∙ ap ok (be_loop-append_right pre tail 2 2 0 ∙ spelled)
      where
        spelled : be_loop tail 2 2 0 ≡ words
        spelled = omega (arith, f.1)

strip_padding-encode :
    (h : RtpHeader) (payload : List ℕ) (p : Padding)
    → FitsPadding h p
    → strip_padding h (payload ++ padding_bytes p) ≡ ok payload
unfolding strip_padding slice
strip_padding-encode h payload unpadded f = simp f (ap ok (append-nil payload))
strip_padding-encode h payload (padded filler) f =
    simp (f.0, nonempty, last)
      (simp (fits, le→ltb_false (length bs) (0 + (length bs - n)) (omega arith)) (ap ok kept))
  where
    n : ℕ
    n = length filler + 1

    bs : List ℕ
    bs = payload ++ (filler ++ n ∷ [])

    size : length bs ≡ length payload + n
    size = omega (arith, length-append payload (filler ++ n ∷ []), length-append filler (n ∷ []))

    nonempty : (length bs == 0) ≡ false
    nonempty = ground (arith, size)

    fits : (n == 0 || ltb (length bs) n) ≡ false
    fits = ground (arith, size)

    at_last : get_or bs (length bs - 1) 0 ≡ n
    at_last =
        ap₂ (λ l k. get_or l k 0) (sym (append_assoc payload filler (n ∷ [])))
          (omega (arith, size, length-append payload filler))
        ∙ get_or-append_right (payload ++ filler) (n ∷ []) 0 0

    last : read bs (length bs - 1) ≡ ok n
    last = read_lem bs (length bs - 1) (omega (arith, size)) ∙ ap ok at_last

    kept : take (length bs - n) bs ≡ payload
    kept = ap (λ k. take k bs) (omega (arith, size)) ∙ take-append payload (filler ++ n ∷ [])

parse_packet-step :
    (bs plain : List ℕ)
    → 12 ≤ length bs
    → unwrap bs ≡ ok plain
    → parse_packet bs ≡ parse_plain plain
unfolding parse_packet
parse_packet-step bs plain h e = simp (le→ltb_false (length bs) 12 h, e)

-- `parse_plain` steps through its parts.
parse_plain-step :
    (bs : List ℕ) (h : RtpHeader) (size : ℕ) (payload : List ℕ)
    → parse_header bs ≡ ok h
    → h.version ≡ 2
    → 12 + h.csrc_count * 4 ≤ length bs
    → extended_size bs h (12 + h.csrc_count * 4) ≡ ok size
    → size ≤ length bs
    → strip_padding h (drop size bs) ≡ ok payload
    → parse_plain bs ≡ ok (record { header = h; payload = payload })
unfolding parse_plain slice
parse_plain-step bs h size payload a b c d e f =
    simp (a, b, le→ltb_false (length bs) (12 + h.csrc_count * 4) c, d)
      (simp (
        le→ltb_false (length bs) (size + (length bs - size)) (omega arith),
        take-all (length bs - size) (drop size bs) (omega (arith, length-drop size bs)),
        f,
      ))

module _ (h : RtpHeader) (csrc : List ℕ) (e : Extension) (payload : List ℕ) (p : Padding)
    (f : Fits h csrc e p) where
  parse_plain-encode :
      parse_plain (encode h csrc e payload p) ≡ ok (record { header = h; payload = payload })
  unfolding encode
  parse_plain-encode =
      parse_plain-step bs h (length pre + length (extension_bytes e)) payload
        (parse_header_lem bs (omega arith) ∙ ap ok (header_of-fixed_bytes h csrc e p tail f))
        f.version (omega (arith, length-append csrc rest, f.csrc_length))
        (rw (size_of_pre, regroup)
          (extended_size-encode h pre e (payload ++ padding_bytes p) f.extension))
        (omega (
          arith,
          length-append csrc rest,
          length-append (extension_bytes e) (payload ++ padding_bytes p),
        ))
        (rw drops (strip_padding-encode h payload p f.padding))
    where
      rest : List ℕ
      rest = extension_bytes e ++ (payload ++ padding_bytes p)

      tail : List ℕ
      tail = csrc ++ rest

      bs : List ℕ
      bs = fixed_bytes h ++ tail

      pre : List ℕ
      pre = fixed_bytes h ++ csrc

      size_of_pre : 12 + h.csrc_count * 4 ≡ length pre
      size_of_pre = omega (arith, f.csrc_length)

      regroup : bs ≡ pre ++ rest
      regroup = sym (append_assoc (fixed_bytes h) csrc rest)

      drops : drop (length pre + length (extension_bytes e)) bs ≡ payload ++ padding_bytes p
      drops =
          ap (drop (length pre + length (extension_bytes e))) regroup
          ∙ drop-append_two pre (extension_bytes e) (payload ++ padding_bytes p)

  -- `rtp_parse_packet` reads back every packet laid out as RFC 3550 says, with any CSRC list, header
  -- extension, payload and padding, unless its payload type is that of a retransmit reply: it returns
  -- the header and the payload alone.
  pub parse_packet-encode :
      h.payload_type ≢ 0x56
      → parse_packet (encode h csrc e payload p) ≡ ok (record { header = h; payload = payload })
  unfolding unwrap encode read
  parse_packet-encode n =
      parse_packet-step (encode h csrc e payload p) _ (omega arith) (simp direct)
      ∙ parse_plain-encode
    where
      direct : ((h.marker * 128 + h.payload_type) % 128 == 0x56) ≡ false
      direct = ground (arith, f.payload_type, f.marker)

  -- In a retransmit reply, behind any four bytes of which the second says so, it reads the same
  -- packet, then also with that payload type.
  pub parse_packet-wrapped :
      (a b c d : ℕ)
      → b % 128 ≡ 0x56
      → parse_packet (a ∷ b ∷ c ∷ d ∷ encode h csrc e payload p)
        ≡ ok (record { header = h; payload = payload })
  unfolding unwrap encode read
  parse_packet-wrapped a b c d w =
      parse_packet-step (a ∷ b ∷ c ∷ d ∷ encode h csrc e payload p) _ (omega arith) (simp (w, room))
      ∙ parse_plain-encode
    where
      room : ltb (length (a ∷ b ∷ c ∷ d ∷ encode h csrc e payload p)) 16 ≡ false
      room = le→ltb_false _ 16 (omega arith)
