-- ===== src/Rtp/Tests.antt =====
-- Runs of the parser of shared/protocol/rtp.c, and its theorems at concrete packets.
use protable_airplay.Base.{
  ℕ, ◌≡◌, refl, List, [], ◌∷◌, replicate, ok, fail, read, read_be, read_be_loop, arith, Returns,
  true, false, Endpoint, codes, str_eq, recover,
}
use protable_airplay.Rtp.{
  RtpHeader, slice, parse_header, extended_size, strip_padding, parse_plain, unwrap, parse_packet,
}
use protable_airplay.Rtp.Receiver.{
  Udp, nothing_more, broken, datagram, audio, control, timing, Receiver, is_audio, handle,
  receive_batch, ready, poll, create,
}
use protable_airplay.Rtp.Safety.{Parsed, parse_packet-Returns}
use protable_airplay.Rtp.Format.{
  Extension, present, Padding, padded, Fits, encode, parse_packet-encode,
}

abbrev header : RtpHeader
header = record {
  version = 2;
  padding = 1;
  extension = 1;
  csrc_count = 1;
  marker = 1;
  payload_type = 96;
  sequence = 65535;
  timestamp = 0xdeadbeef;
  ssrc = 7;
}

abbrev csrc : List ℕ
csrc = 1 ∷ 2 ∷ 3 ∷ 4 ∷ []

abbrev extension : Extension
extension = present 0xbe 0xde 1 (5 ∷ 6 ∷ 7 ∷ 8 ∷ [])

abbrev padding : Padding
padding = padded (0 ∷ 0 ∷ [])

fits : Fits header csrc extension padding
fits = omega arith

parse_runs :
    parse_packet (encode header csrc extension (9 ∷ 10 ∷ []) padding)
    ≡ ok (record { header = header; payload = 9 ∷ 10 ∷ [] })
unfolding parse_packet unwrap parse_plain parse_header extended_size strip_padding slice encode read
    read_be
parse_runs = refl

-- An extension that claims more words than the datagram has
parse_long_extension : parse_packet (0x90 ∷ 96 ∷ replicate 16 255) ≡ fail
unfolding parse_packet unwrap parse_plain parse_header extended_size strip_padding slice read
    read_be
parse_long_extension = refl

parse_packet-Returns_example :
    Returns
      (Parsed (0x80 ∷ 0x56 ∷ replicate 14 255))
      (parse_packet (0x80 ∷ 0x56 ∷ replicate 14 255))
parse_packet-Returns_example = parse_packet-Returns (0x80 ∷ 0x56 ∷ replicate 14 255)

parse_packet-encode_example :
    parse_packet (encode header csrc extension (9 ∷ 10 ∷ []) padding)
    ≡ ok (record { header = header; payload = 9 ∷ 10 ∷ [] })
parse_packet-encode_example =
    parse_packet-encode header csrc extension (9 ∷ 10 ∷ []) padding fits (omega arith)

abbrev sender : Endpoint
sender = record { ip = codes "10.0.0.9"; port = 6001 }

abbrev stranger : Endpoint
stranger = record { ip = codes "10.0.0.8"; port = 6001 }

abbrev receiver : Receiver
receiver = record { audio_packet_count = 4; peer_ip = codes "10.0.0.9" }

abbrev controls : List Udp
controls = datagram stranger (128 ∷ 84 ∷ []) ∷ datagram sender (128 ∷ 84 ∷ []) ∷ nothing_more ∷ []

abbrev timings : List Udp
timings = datagram sender [] ∷ datagram sender (128 ∷ 83 ∷ []) ∷ []

-- A packet without payload
abbrev audios : List Udp
audios =
    datagram sender (128 ∷ 96 ∷ replicate 10 0)
    ∷ datagram sender (1 ∷ [])
    ∷ broken
    ∷ datagram sender (128 ∷ 96 ∷ replicate 10 0)
    ∷ []

abbrev silence : RtpHeader
silence = record {
  version = 2;
  padding = 0;
  extension = 0;
  csrc_count = 0;
  marker = 0;
  payload_type = 96;
  sequence = 0;
  timestamp = 0;
  ssrc = 0;
}

one_poll :
    poll receiver (ready true true true) audios controls timings
    ≡ ok (
      false,
      record receiver { audio_packet_count = 6 },
      timing (128 ∷ 83 ∷ []) sender
          ∷ control (128 ∷ 84 ∷ [])
          ∷ audio (record { header = silence; payload = [] })
          ∷ [],
    )
unfolding poll receive_batch handle is_audio recover parse_packet unwrap parse_plain parse_header
    extended_size strip_padding slice read read_be read_be_loop str_eq
one_poll = refl

-- No control socket can be bound.
no_control : create 6000 6001 6002 true false true ≡ fail
unfolding create
no_control = refl
