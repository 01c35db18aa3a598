-- ===== src/Mdns/Queries.antt =====
-- Queries of one question to `mdns_handle_packet_from` of shared/protocol/mdns.c.
use mathlib.Core.List.{append_assoc}
use protable_airplay.Base.{
  Endpoint, ℕ, ◌+◌, ◌^◌, ◌≤◌, ◌<◌, ◌≡◌, refl, ap, ◌∙◌, Bool, false, Option, List, [], ◌∷◌, ◌++◌,
  ltb, length, All, arith, length-append, be_bytes, length-be_bytes, recover, ok, read_be_lem, be,
  be_loop, shift_in, be_loop-append_right, be-append_left, le→ltb_false, Returns-value,
}
use protable_airplay.Mdns.Names.{label_bytes}
use protable_airplay.Mdns.RoundTrip.{Named, write_name-Returns, ends_in_dot, decode_name-write_name}
use protable_airplay.Mdns.{Config, labels, write_name, decode_name}
use protable_airplay.Mdns.Answers.{answer, expected, answer-expected}
use protable_airplay.Mdns.Responder.{questions, handle_packet}

-- The header of a query with one question
abbrev pub query_header : List ℕ
query_header = 0 ∷ 0 ∷ 0 ∷ 0 ∷ 0 ∷ 1 ∷ 0 ∷ 0 ∷ 0 ∷ 0 ∷ 0 ∷ 0 ∷ []

be-question :
    (out : List ℕ) (kind class : ℕ)
    → kind < 2 ^ 16
    → class < 2 ^ 16
    → (be (out ++ (be_bytes kind 2 ++ be_bytes class 2)) (length out) 2 ≡ kind)
      × (be (out ++ (be_bytes kind 2 ++ be_bytes class 2)) (length out + 2) 2 ≡ class)
unfolding be be_loop be_bytes shift_in
be-question out kind class h k = (
  (λ i. be_loop (out ++ two) (start i) 2 0) ∙ be_loop-append_right out two 0 2 0 ∙ omega arith,
  be_loop-append_right out two 2 2 0 ∙ omega arith,
)
  where
    two : List ℕ
    two = be_bytes kind 2 ++ be_bytes class 2

    start : length out ≡ length out + 0
    start = omega arith

questions-one :
    (c : Config) (bs name : List ℕ) (source : Option Endpoint) (sends : Bool) (position next : ℕ)
    → decode_name bs position 256 ≡ ok (next, name)
    → next + 4 ≤ length bs
    → questions c bs source sends 1 position
      ≡ answer c name (be bs next 2) (be bs (next + 2) 2) source sends
unfolding questions recover
questions-one c bs name source sends position next e h =
    rw
      (
        e,
        le→ltb_false (length bs) (next + 4) h,
        read_be_lem bs next 2 (omega arith),
        read_be_lem bs (next + 2) 2 (omega arith),
      )
      refl

queried : (be query_header 2 2 ≡ 0) × (be query_header 4 2 ≡ 1)
unfolding be be_loop
queried = (refl, refl)

-- A query of one question, with a name without zero bytes that does not end in a dot, is answered exactly if the
-- name is, in any letter case, that of the service's type, of its instance or of the host, the kind is A, PTR,
-- TXT, SRV or any, and the class IN or any. The answer is the packet of records: with a time to live of 4500
-- for the source alone, if the question asks for that and the source has an address and a port; otherwise
-- of 60 for the group 224.0.0.251. A packet that does not fit in 1500 bytes is reported and not sent.
pub handle_packet-query :
    (c : Config) (name out : List ℕ) (kind class : ℕ) (source : Option Endpoint) (sends : Bool)
    → write_name 512 query_header name ≡ ok out
    → All (λ b. 0 < b) name
    → ends_in_dot name ≡ false
    → kind < 2 ^ 16
    → class < 2 ^ 16
    → handle_packet c (out ++ (be_bytes kind 2 ++ be_bytes class 2)) source sends
      ≡ expected c name kind class source sends
unfolding handle_packet
handle_packet-query c name out kind class source sends e nonzero plain h k =
    rw
      (
        long,
        read_be_lem query 2 2 (omega (arith, size)),
        read_be_lem query 4 2 (omega (arith, size)),
        flags,
        count,
      )
      (questions-one c query name source sends 12 (length out)
          (decode_name-write_name 512 query_header name out (be_bytes kind 2 ++ be_bytes class 2) e
            nonzero plain)
          (omega (arith, size, length-append query_header text, ap length w.bytes))
        ∙ ap (λ n. answer c name n (be query (length out + 2) 2) source sends)
            (be-question out kind class h k).0
        ∙ ap (λ n. answer c name kind n source sends) (be-question out kind class h k).1
        ∙ answer-expected c name kind class source sends k)
  where
    query : List ℕ
    query = out ++ (be_bytes kind 2 ++ be_bytes class 2)

    w : Named 512 query_header name out
    w = Returns-value _ _ out (write_name-Returns 512 query_header name) e

    text : List ℕ
    text = label_bytes (labels name) ++ (0 ∷ [])

    size : length query ≡ 16 + length text
    size = omega (
      arith,
      length-append out (be_bytes kind 2 ++ be_bytes class 2),
      length-append (be_bytes kind 2) (be_bytes class 2),
      length-be_bytes kind 2,
      length-be_bytes class 2,
      ap length w.bytes,
      length-append query_header text,
    )

    long : ltb (length query) 12 ≡ false
    long = ground (arith, size)

    split : query ≡ query_header ++ (text ++ (be_bytes kind 2 ++ be_bytes class 2))
    split =
        ap (λ bs. bs ++ (be_bytes kind 2 ++ be_bytes class 2)) w.bytes
        ∙ append_assoc query_header text _

    flags : be query 2 2 ≡ 0
    flags = ap (λ bs. be bs 2 2) split ∙ be-append_left query_header _ 2 2 (omega arith) ∙ queried.0

    count : be query 4 2 ≡ 1
    count = ap (λ bs. be bs 4 2) split ∙ be-append_left query_header _ 4 2 (omega arith) ∙ queried.1
