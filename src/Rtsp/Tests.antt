-- ===== src/Rtsp/Tests.antt =====
-- Runs of `parse_request` of shared/protocol/rtsp.c on concrete bytes, and uses of its theorems.
use protable_airplay.Base.{
  ℕ, ◌+◌, ◌≡◌, ◌≢◌, refl, Bool, true, false, Option, none, some, List, [], ◌∷◌, ◌++◌, length, codes,
  str_eq, arith, if◌then◌else◌, replicate, ltb, take, drop, ◌-◌, length-take, length-drop, recover,
  Yields, read, ok, fail, Returns,
}
use protable_airplay.Mdns.Address.{ascii_lower, same_name}
use protable_airplay.Rtsp.Bounds.{Parsed, parse_request-Returns}
use protable_airplay.Rtsp.Framing.{parse_request-append}
use protable_airplay.Rtsp.Server.{
  Client, Instance, Handlers, no_client, handle_request, route, close_client, release, turn,
  serve_loop, serve,
}
use protable_airplay.Rtsp.Clients.{create, place, accept}
use protable_airplay.Rtsp.Serving.{Served, serve-Yields}
use protable_airplay.Rtsp.Records.{
  there, timed_out, got, receive_client, receive_sealed, receive_part, record_length, extend,
  open_whole, Kept, Opens, receive_client-Yields,
}
use protable_airplay.Rtsp.{
  setup, find_method, parse_method, trim_start, trim_end, trim, uint32_loop, parse_uint32,
  headers_end, has_zero, next_line, skip_space, token, request_line, at_colon, known_header,
  header_line, parse_line, lines, complete, parse_request,
}

abbrev setup_bytes : List ℕ
setup_bytes = codes "SETUP /1 RTSP/1.0\r\nCSeq:  7 \r\ncontent-length: 3\r\n\r\nabc"

setup_parsed :
    parse_request (setup_bytes ++ codes "GET")
    ≡ ok (
        some (
          record {
            method = setup;
            uri = codes "/1";
            version = codes "RTSP/1.0";
            cseq = 7;
            headers =
                record { name = codes "CSeq"; value = codes "7" }
                ∷ record { name = codes "content-length"; value = codes "3" }
                ∷ [];
            body = codes "abc";
          },
          length setup_bytes,
        ))
unfolding parse_request complete lines parse_line header_line known_header at_colon request_line
    token skip_space next_line has_zero headers_end parse_uint32 uint32_loop trim trim_end
    trim_start parse_method find_method same_name ascii_lower str_eq
setup_parsed = refl

-- The body is not there yet.
waiting : parse_request (codes "SETUP /1 RTSP/1.0\r\ncontent-length: 3\r\n\r\nab") ≡ ok none
unfolding parse_request complete lines parse_line header_line known_header at_colon request_line
    token skip_space next_line has_zero headers_end parse_uint32 uint32_loop trim trim_end
    trim_start parse_method find_method same_name ascii_lower str_eq
waiting = refl

-- Two lengths
refused :
    parse_request (codes "SETUP /1 RTSP/1.0\r\nContent-Length: 1\r\nContent-Length: 1\r\n\r\na")
    ≡ fail
unfolding parse_request complete lines parse_line header_line known_header at_colon request_line
    token skip_space next_line has_zero headers_end parse_uint32 uint32_loop trim trim_end
    trim_start parse_method find_method same_name ascii_lower str_eq
refused = refl

-- 2 to the 32
too_large : parse_uint32 (codes "4294967296") ≡ fail
unfolding parse_uint32 uint32_loop
too_large = refl

largest : parse_uint32 (codes "4294967295") ≡ ok 4294967295
unfolding parse_uint32 uint32_loop
largest = refl

parse_request-Returns_example : Returns (Parsed setup_bytes) (parse_request setup_bytes)
parse_request-Returns_example = parse_request-Returns setup_bytes

setup_ready : parse_request setup_bytes ≢ ok none
unfolding parse_request complete lines parse_line header_line known_header at_colon request_line
    token skip_space next_line has_zero headers_end parse_uint32 uint32_loop trim trim_end
    trim_start parse_method find_method same_name ascii_lower str_eq
setup_ready e = cc

parse_request-append_example :
    parse_request (setup_bytes ++ codes "GET") ≡ parse_request setup_bytes
parse_request-append_example =
    parse_request-append setup_bytes (codes "GET") (omega arith) setup_ready

-- Handlers that count the requests
abbrev counting : Handlers (Unit {0}) (Unit {0}) ℕ
counting = record {
  call = λ to i r s. (true, record s { stream = record s.stream { others = s.stream.others + 1 } });
  bad_request = λ i s. s;
  pairing_close = λ p. p;
  no_session = tt;
  no_pairing = tt;
}

abbrev connected : Client (Unit {0})
connected = record (no_client counting) { socket = true }

-- Two clients of which the first owns the stream, and the number of requests handled
abbrev serving : ℕ → Instance (Unit {0}) (Unit {0}) ℕ
serving n = record {
  clients = connected ∷ connected ∷ [];
  stream = record {
    session = tt;
    has_session = true;
    recording = true;
    generation = 5;
    others = n;
  };
  owner = some 0;
}

abbrev get_bytes : List ℕ
get_bytes = codes "GET / RTSP/1.0\r\n\r\n"

one_and_a_half :
    serve counting 0 (serving 0) (get_bytes ++ codes "GE") ≡ ok (true, serving 1, codes "GE")
unfolding serve serve_loop turn handle_request route recover parse_request complete lines parse_line
    header_line known_header at_colon request_line token skip_space next_line has_zero headers_end
    parse_uint32 uint32_loop trim trim_end trim_start parse_method find_method same_name ascii_lower
    str_eq
one_and_a_half = refl

-- Bytes that are no request end the connection, and with it the stream.
abbrev after_garbage : Instance (Unit {0}) (Unit {0}) ℕ
after_garbage = close_client counting 0 (serving 0)

garbage : serve counting 0 (serving 0) (codes "x\r\n\r\n") ≡ ok (false, after_garbage, [])
unfolding serve serve_loop turn recover parse_request complete lines parse_line request_line token
    skip_space next_line has_zero headers_end str_eq
garbage = refl

generation_counts : after_garbage.stream.generation ≡ 6
unfolding close_client release
generation_counts = refl

serve-Yields_example :
    Yields
      (Served counting 0 (codes "x\r\n\r\n"))
      (serve counting 0 (serving 0) (codes "x\r\n\r\n"))
serve-Yields_example = serve-Yields counting 0 (serving 0) (codes "x\r\n\r\n")

-- A record of two bytes, 7 and 8, sealed by 16 zero bytes
abbrev sealed : List ℕ
sealed = 2 ∷ 0 ∷ 7 ∷ 8 ∷ replicate 16 0

-- Takes the length and the tag off.
abbrev unseal : ℕ → List ℕ → Option (ℕ × List ℕ)
unseal count record_bytes =
    if ltb (length record_bytes) 18
    then none
    else some (count + 1, take (length record_bytes - 18) (drop 2 record_bytes))

unseal-Opens : Opens unseal
unseal-Opens p q bs plain e = go (ltb (length bs) 18) refl e
  where
    inner : List ℕ
    inner = take (length bs - 18) (drop 2 bs)

    go :
        (c : Bool)
        → ltb (length bs) 18 ≡ c
        → if◌then◌else◌ {A = Option (ℕ × List ℕ)} c none (some (p + 1, inner)) ≡ some (q, plain)
        → length plain + 18 ≡ length bs
    go true f g = cc
    go false f g = ground (arith, same, length-take (length bs - 18) (drop 2 bs), length-drop 2 bs)
      where
        same : length plain ≡ length inner
        same = cc

length_first : receive_client unseal true 0 [] 100 (there sealed) ≡ ok (timed_out, 0, 2 ∷ 0 ∷ [])
unfolding receive_client receive_sealed receive_part record_length extend open_whole read
length_first = refl

then_the_rest :
    receive_client unseal true 0 (2 ∷ 0 ∷ []) 100 (there (drop 2 sealed))
    ≡ ok (got (7 ∷ 8 ∷ []), 1, [])
unfolding receive_client receive_sealed receive_part record_length extend open_whole read
then_the_rest = refl

receive_client-Yields_example :
    Yields (Kept unseal 100) (receive_client unseal true 0 (2 ∷ 0 ∷ []) 100 (there (drop 2 sealed)))
receive_client-Yields_example =
    receive_client-Yields unseal true 0 (2 ∷ 0 ∷ []) 100 (there (drop 2 sealed)) unseal-Opens
      (omega arith)

-- The server has accepted two connections, and the first has asked for something.
abbrev two_clients : Instance (Unit {0}) (Unit {0}) ℕ
two_clients = record (serving 1) {
  owner = none;
  stream = record {
    session = tt;
    has_session = false;
    recording = false;
    generation = 0;
    others = 1;
  };
}

abbrev fresh_server : Instance (Unit {0}) (Unit {0}) ℕ
fresh_server = record {
  clients = no_client counting ∷ no_client counting ∷ [];
  stream = record {
    session = tt;
    has_session = false;
    recording = false;
    generation = 0;
    others = 0;
  };
  owner = none;
}

fresh : create counting 0 true ≡ ok fresh_server
unfolding create
fresh = refl

served :
    serve counting 0 (accept counting (accept counting fresh_server)) get_bytes
    ≡ ok (true, two_clients, [])
unfolding serve serve_loop turn handle_request route recover parse_request complete lines parse_line
    header_line known_header at_colon request_line token skip_space next_line has_zero headers_end
    parse_uint32 uint32_loop trim trim_end trim_start parse_method find_method same_name ascii_lower
    str_eq accept place
served = refl
