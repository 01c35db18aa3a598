-- ===== src/Mdns/Tests.antt =====
-- Runs of shared/protocol/mdns.c on concrete records and messages, and uses of its theorems.
use protable_airplay.Base.{
  Endpoint, ℕ, ◌≡◌, refl, true, none, some, List, [], ◌∷◌, ◌++◌, arith, be_bytes, ok, fail, read,
  Yields, recover,
}
use protable_airplay.Rtp.{slice}
use protable_airplay.Mdns.Address.{
  octet, dotted, ended, octets, str_to_ipv4, ascii_lower, same_name,
}
use protable_airplay.Mdns.RoundTrip.{ends_in_dot, decode_name-write_name}
use protable_airplay.Mdns.Answers.{answer, expected}
use protable_airplay.Mdns.Queries.{query_header, handle_packet-query}
use protable_airplay.Mdns.Replies.{Sendable, handle_packet-Yields, handle_packet-build_packet}
use protable_airplay.Mdns.{
  emit, patch, labels, push, write_labels, is_empty, write_name, c_string, finish_name, decode_loop,
  decode_name, Config, full_name, begin_record, pointer_record, service_record, address_record,
  write_entries, text_record, maybe_address, maybe_text, build_packet,
}
use protable_airplay.Mdns.Responder.{fine, send_response, name_matches, reply, handle_packet}

-- "_r._tcp"
abbrev service : List ℕ
service = b'_' ∷ b'r' ∷ b'.' ∷ b'_' ∷ b't' ∷ b'c' ∷ b'p' ∷ []

-- "_R._tcp"
abbrev shouted : List ℕ
shouted = b'_' ∷ b'R' ∷ b'.' ∷ b'_' ∷ b't' ∷ b'c' ∷ b'p' ∷ []

-- "a" of `service`, on the host "h" at 10.0.0.2
abbrev player : Config
player = record {
  service_type = service;
  instance_name = b'a' ∷ [];
  hostname = b'h' ∷ [];
  port = 5000;
  ipv4 = some (b'1' ∷ b'0' ∷ b'.' ∷ b'0' ∷ b'.' ∷ b'0' ∷ b'.' ∷ b'2' ∷ []);
  txt_entries = some (b'x' ∷ b'=' ∷ b'1' ∷ []) ∷ [];
}

-- The bytes of `service` in a message
abbrev service_bytes : List ℕ
service_bytes = 2 ∷ b'_' ∷ b'r' ∷ 4 ∷ b'_' ∷ b't' ∷ b'c' ∷ b'p' ∷ 0 ∷ []

abbrev full_bytes : List ℕ
full_bytes = 1 ∷ b'a' ∷ service_bytes

-- The announcement of `player`: four answers
abbrev announced : List ℕ
announced =
    0
    ∷ 0
    ∷ 0x84
    ∷ 0
    ∷ 0
    ∷ 0
    ∷ 0
    ∷ 4
    ∷ 0
    ∷ 0
    ∷ 0
    ∷ 0
    ∷ (service_bytes
        ++ (0
            ∷ 12
            ∷ 0
            ∷ 1
            ∷ 0
            ∷ 0
            ∷ 0
            ∷ 60
            ∷ 0
            ∷ 11
            ∷ (full_bytes
                ++ (full_bytes
                    ++ (0
                        ∷ 33
                        ∷ 0x80
                        ∷ 1
                        ∷ 0
                        ∷ 0
                        ∷ 0
                        ∷ 60
                        ∷ 0
                        ∷ 9
                        ∷ 0
                        ∷ 0
                        ∷ 0
                        ∷ 0
                        ∷ 19
                        ∷ 136
                        ∷ 1
                        ∷ b'h'
                        ∷ 0
                        ∷ 1
                        ∷ b'h'
                        ∷ 0
                        ∷ 0
                        ∷ 1
                        ∷ 0x80
                        ∷ 1
                        ∷ 0
                        ∷ 0
                        ∷ 0
                        ∷ 60
                        ∷ 0
                        ∷ 4
                        ∷ 10
                        ∷ 0
                        ∷ 0
                        ∷ 2
                        ∷ (full_bytes
                            ++ (0 ∷ 16 ∷ 0x80 ∷ 1 ∷ 0 ∷ 0 ∷ 0 ∷ 60 ∷ 0 ∷ 4 ∷ 3 ∷ b'x' ∷ b'=' ∷ b'1'
                                ∷ [])))))))

built : build_packet player 1500 60 ≡ ok announced
unfolding build_packet emit patch labels push write_labels is_empty write_name full_name
    begin_record pointer_record service_record address_record write_entries text_record
    maybe_address maybe_text octet dotted ended octets str_to_ipv4 be_bytes
built = refl

-- The same packet does not fit in 64 bytes.
no_room : build_packet player 64 60 ≡ fail
unfolding build_packet emit patch labels push write_labels is_empty write_name full_name
    begin_record pointer_record service_record address_record write_entries text_record
    maybe_address maybe_text octet dotted ended octets str_to_ipv4 be_bytes
no_room = refl

-- A name that points to itself
circle : decode_name (0xc0 ∷ 0 ∷ []) 0 256 ≡ fail
unfolding decode_name decode_loop finish_name read slice emit c_string
circle = refl

-- "h" and a pointer to "x"
pointed :
    decode_name (1 ∷ b'x' ∷ 0 ∷ 1 ∷ b'h' ∷ 0xc0 ∷ 0 ∷ 9 ∷ []) 3 256
    ≡ ok (7, b'h' ∷ b'.' ∷ b'x' ∷ [])
unfolding decode_name decode_loop finish_name read slice emit c_string
pointed = refl

-- A number above 255 is no part of an address.
no_address : str_to_ipv4 (b'1' ∷ b'.' ∷ b'2' ∷ b'5' ∷ b'6' ∷ b'.' ∷ b'0' ∷ b'.' ∷ b'0' ∷ []) ≡ fail
unfolding str_to_ipv4 octets octet dotted ended
no_address = refl

same : same_name shouted service ≡ true
unfolding same_name ascii_lower
same = refl

written : write_name 64 [] service ≡ ok service_bytes
unfolding write_name write_labels labels push is_empty emit
written = refl

written_behind : write_name 64 (7 ∷ []) service ≡ ok (7 ∷ service_bytes)
unfolding write_name write_labels labels push is_empty emit
written_behind = refl

decode_name-write_name_example :
    decode_name ((7 ∷ service_bytes) ++ (5 ∷ [])) 1 256 ≡ ok (10, service)
unfolding ends_in_dot
decode_name-write_name_example =
    decode_name-write_name 64 (7 ∷ []) service (7 ∷ service_bytes) (5 ∷ []) written_behind
      (omega arith) refl

-- The query "_R._tcp", PTR, for a direct answer
abbrev asked_name : List ℕ
asked_name = query_header ++ (2 ∷ b'_' ∷ b'R' ∷ 4 ∷ b'_' ∷ b't' ∷ b'c' ∷ b'p' ∷ 0 ∷ [])

asked_written : write_name 512 query_header shouted ≡ ok asked_name
unfolding write_name write_labels labels push is_empty emit
asked_written = refl

abbrev asker : Endpoint
asker = record { ip = b'1' ∷ []; port = 6000 }

handle_packet-query_example :
    handle_packet player (asked_name ++ (be_bytes 12 2 ++ be_bytes 0x8001 2)) (some asker) true
    ≡ expected player shouted 12 0x8001 (some asker) true
unfolding ends_in_dot
handle_packet-query_example =
    handle_packet-query player shouted asked_name 12 0x8001 (some asker) true asked_written
      (omega arith) refl (omega arith) (omega arith)

-- That query is answered directly, with a time to live of 4500 seconds.
direct_answer :
    answer player shouted 12 0x8001 (some asker) true ≡ send_response player asker 4500 true
unfolding name_matches reply recover full_name same_name ascii_lower is_empty
direct_answer = refl

handle_packet-Yields_example :
    Yields Sendable (handle_packet player (asked_name ++ (be_bytes 12 2 ++ be_bytes 1 2)) none true)
handle_packet-Yields_example =
    handle_packet-Yields player (asked_name ++ (be_bytes 12 2 ++ be_bytes 1 2)) none true

handle_packet-build_packet_example : handle_packet player announced none true ≡ ok (fine, none)
handle_packet-build_packet_example =
    handle_packet-build_packet player player 1500 60 announced none true built
