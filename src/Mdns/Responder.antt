-- ===== src/Mdns/Responder.antt =====
-- shared/protocol/mdns.c: announcements, goodbyes and the answers to queries.
use protable_airplay.Base.{
  Endpoint, ℕ, zero, suc, ◌+◌, ◌/◌, ◌%◌, ◌^◌, Bool, false, ◌&&◌, ◌||◌, not, Option, none, some,
  List, [], ◌∷◌, ltb, ◌==◌, if◌then◌else◌, length, Result, ok, ◌>>=◌, read_be, recover,
}
use protable_airplay.Mdns.Address.{same_name}
use protable_airplay.Mdns.{Config, is_empty, decode_name, full_name, build_packet}

-- `mdns_error_t`
pub data Status : Type 0 where
  fine invalid_arguments overflow socket_error invalid_data : Status

-- A call of net_udp_send
pub record Datagram : Type 0 where
  pub packet : List ℕ
  pub to : Endpoint

-- 224.0.0.251, port 5353
abbrev pub group : Endpoint
group = record {
  ip = b'2' ∷ b'2' ∷ b'4' ∷ b'.' ∷ b'0' ∷ b'.' ∷ b'0' ∷ b'.' ∷ b'2' ∷ b'5' ∷ b'1' ∷ [];
  port = 5353;
}

-- `send_response`: the status, and what was handed to net_udp_send, which sends all of it or not
unfoldable pub send_response : Config → Endpoint → ℕ → Bool → Result (Status × Option Datagram)
send_response c to ttl sends =
    recover (overflow, none) (build_packet c 1500 ttl)
      λ packet.
        ok (if sends then fine else socket_error, some (record { packet = packet; to = to }))

unfoldable pub announce : Config → Bool → Result (Status × Option Datagram)
announce c sends = send_response c group 60 sends

unfoldable pub goodbye : Config → Bool → Result (Status × Option Datagram)
goodbye c sends = send_response c group 0 sends

unfoldable pub name_matches : Config → List ℕ → Result Bool
name_matches c name =
    recover false (full_name c) λ full.
      ok (same_name name c.service_type || (same_name name full || same_name name c.hostname))

abbrev pub is_asked : ℕ → ℕ → Bool
is_asked kind class =
    (kind == 1 || (kind == 12 || (kind == 16 || (kind == 33 || kind == 255))))
    && (class % 2 ^ 15 == 1 || class % 2 ^ 15 == 255)

-- The endpoint to answer to directly, if the question asks for it
abbrev pub direct : ℕ → Option Endpoint → Option Endpoint
direct class none = none
direct class (some e) =
    if class / 2 ^ 15 == 1 && (not (is_empty e.ip) && not (e.port == 0)) then some e else none

unfoldable pub reply : Config → ℕ → Option Endpoint → Bool → Result (Status × Option Datagram)
reply c class source sends = elim (direct class source) [
  | none ↦ announce c sends
  | some e ↦ send_response c e 4500 sends
]

-- The loop over the questions from `position` on
unfoldable pub questions :
    Config → List ℕ → Option Endpoint → Bool → ℕ → ℕ → Result (Status × Option Datagram)
questions c bs source sends zero position = ok (fine, none)
questions c bs source sends (suc n) position =
    recover (invalid_data, none) (decode_name bs position 256)
      λ (next, name).
        let rest = questions c bs source sends n (next + 4) in
        if ltb (length bs) (next + 4) then ok (invalid_data, none) else (do
          kind ← read_be bs next 2
          class ← read_be bs (next + 2) 2
          matches ← name_matches c name
          (if matches && is_asked kind class then reply c class source sends else rest))

-- `mdns_handle_packet_from`; without a source it is `mdns_handle_packet`.
unfoldable pub handle_packet :
    Config → List ℕ → Option Endpoint → Bool → Result (Status × Option Datagram)
handle_packet c bs source sends = if ltb (length bs) 12 then ok (invalid_arguments, none) else (do
  flags ← read_be bs 2 2
  count ← read_be bs 4 2
  (if flags / 2 ^ 15 % 2 == 1 then ok (fine, none) else questions c bs source sends count 12))
