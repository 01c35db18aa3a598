-- ===== src/Rtp.antt =====
-- shared/protocol/rtp.h and the parser of shared/protocol/rtp.c.
pub mod Safety
pub mod Format
pub mod Receiver
pub mod Reception
mod Tests
use protable_airplay.Base.{
  ℕ, ◌+◌, ◌*◌, ◌/◌, ◌%◌, ◌-◌, List, Bool, true, false, ◌||◌, not, length, take, drop, ltb, ◌==◌,
  if◌then◌else◌, Result, ok, fail, fault, ◌>>=◌, ◌>>◌, guard, read, read_be,
}

-- `rtp_header_t`; each field is a number below 2 to the width of its C type.
pub record RtpHeader : Type 0 where
  pub version : ℕ
  pub padding : ℕ
  pub extension : ℕ
  pub csrc_count : ℕ
  pub marker : ℕ
  pub payload_type : ℕ
  pub sequence : ℕ
  pub timestamp : ℕ
  pub ssrc : ℕ

-- `rtp_packet_t`. The borrowed view is the list of its bytes, so `payload_len` is its length.
pub record RtpPacket : Type 0 where
  pub header : RtpHeader
  pub payload : List ℕ

-- The bytes `data[from .. from + n)`, which must lie in the buffer
unfoldable pub slice : List ℕ → ℕ → ℕ → Result (List ℕ)
slice bs from n = if ltb (length bs) (from + n) then fault else ok (take n (drop from bs))

-- The twelve fixed bytes. A shift and a mask of a byte are a quotient and a remainder.
pub parse_header : List ℕ → Result RtpHeader
parse_header bs = do
  flags ← read bs 0
  kind ← read bs 1
  sequence ← read_be bs 2 2
  timestamp ← read_be bs 4 4
  ssrc ← read_be bs 8 4
  ok (record {
    version = flags / 64 % 4;
    padding = flags / 32 % 2;
    extension = flags / 16 % 2;
    csrc_count = flags % 16;
    marker = kind / 128 % 2;
    payload_type = kind % 128;
    sequence = sequence;
    timestamp = timestamp;
    ssrc = ssrc;
  })

-- `header_size`, past the CSRC list and the header extension
pub extended_size : List ℕ → RtpHeader → ℕ → Result ℕ
extended_size bs header size = if header.extension == 0 then ok size else (do
  guard (not (ltb (length bs) (size + 4)))
  words ← read_be bs (size + 2) 2
  let extended = size + (4 + words * 4)
  guard (not (ltb (length bs) extended))
  ok extended)

-- The payload without its padding, whose last byte is its length
pub strip_padding : RtpHeader → List ℕ → Result (List ℕ)
strip_padding header payload = if header.padding == 0 then ok payload else (do
  guard (not (length payload == 0))
  pad ← read payload (length payload - 1)
  guard (not (pad == 0 || ltb (length payload) pad))
  slice payload 0 (length payload - pad))

-- A datagram without the wrapper of a retransmit reply
pub parse_plain : List ℕ → Result RtpPacket
parse_plain bs = do
  header ← parse_header bs
  guard (header.version == 2)
  let fixed = 12 + header.csrc_count * 4
  guard (not (ltb (length bs) fixed))
  size ← extended_size bs header fixed
  view ← slice bs size (length bs - size)
  payload ← strip_padding header view
  ok (record { header = header; payload = payload })

-- `data += 4; len -= 4` for a retransmit reply
pub unwrap : List ℕ → Result (List ℕ)
unwrap bs = do
  kind ← read bs 1
  (if kind % 128 == 0x56 then (do guard (not (ltb (length bs) 16)); ok (drop 4 bs)) else ok bs)

-- `rtp_parse_packet` of a datagram, `len` being the number of its bytes
pub parse_packet : List ℕ → Result RtpPacket
parse_packet bs = do guard (not (ltb (length bs) 12)); plain ← unwrap bs; parse_plain plain
