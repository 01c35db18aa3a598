-- ===== src/Mdns/Replies.antt =====
-- The answers of shared/protocol/mdns.c: which packets are answered, and with what.
use protable_airplay.Base.{
  Endpoint, ℕ, zero, suc, ◌+◌, ◌/◌, ◌%◌, ◌^◌, ◌≡◌, refl, sym, ap, ◌∙◌, inl, inr, Bool, false, ◌&&◌,
  Option, none, some, List, [], ◌∷◌, ltb, ◌==◌, length, take, arith, Bool-cases, be-take, ok,
  read_be_lem, be, be_loop, Returns-value, Yields, yields, Yields-bind, Yields-recover,
}
use protable_airplay.Mdns.Names.{decode_name-Returns}
use protable_airplay.Mdns.Packets.{Extends}
use protable_airplay.Mdns.Build.{build_packet-Returns, full_name-Returns}
use protable_airplay.Mdns.{Config, build_packet}
use protable_airplay.Mdns.Responder.{
  Status, fine, overflow, Datagram, group, send_response, announce, name_matches, is_asked, direct,
  reply, questions, handle_packet,
}

-- What is sent fits in the packet buffer and is a response.
abbrev pub Sendable : Status × Option Datagram → Type 0
Sendable (s, none) = Unit {0}
Sendable (s, some d) = Extends 1500 12 d.packet

send_response-Yields :
    (c : Config) (to : Endpoint) (ttl : ℕ) (sends : Bool)
    → Yields Sendable (send_response c to ttl sends)
unfolding send_response
send_response-Yields c to ttl sends =
    Yields-recover _ Sendable (overflow, none) _ _ (build_packet-Returns c 1500 ttl) tt
      λ packet e. yields _ e

reply-Yields :
    (c : Config) (class : ℕ) (source : Option Endpoint) (sends : Bool)
    → Yields Sendable (reply c class source sends)
unfolding reply announce
reply-Yields c class source sends = go (direct class source)
  where
    go :
        (d : Option Endpoint)
        → Yields Sendable (elim d [
          | none ↦ send_response c group 60 sends
          | some e ↦ send_response c e 4500 sends
        ])
    go none = send_response-Yields c group 60 sends
    go (some e) = send_response-Yields c e 4500 sends

name_matches-Yields : (c : Config) (name : List ℕ) → Yields (λ _. Unit {0}) (name_matches c name)
unfolding name_matches
name_matches-Yields c name = Yields-recover _ _ _ _ _ (full_name-Returns c) tt λ full _. yields _ tt

questions-Yields :
    (c : Config) (bs : List ℕ) (source : Option Endpoint) (sends : Bool) (n position : ℕ)
    → Yields Sendable (questions c bs source sends n position)
unfolding questions
questions-Yields c bs source sends zero position = yields _ tt
questions-Yields c bs source sends (suc n) position =
    Yields-recover _ Sendable _ _ _ (decode_name-Returns bs position 256 (omega arith)) tt
      λ (next, name) d. elim (Bool-cases (ltb (length bs) (next + 4))) [
        | inl e ↦ rw e (yields _ tt)
        | inr e ↦
            rw (e, read_be_lem bs next 2 (ground arith), read_be_lem bs (next + 2) 2 (ground arith))
              (Yields-bind _ _ _ _ (name_matches-Yields c name) λ matches _.
                elim (Bool-cases (matches && is_asked (be bs next 2) (be bs (next + 2) 2))) [
                  | inl f ↦ rw f (reply-Yields c (be bs (next + 2) 2) source sends)
                  | inr f ↦ rw f (questions-Yields c bs source sends n (next + 4))
                ])
      ]

-- Whatever the packet, the configuration and the source, `mdns_handle_packet_from` reads and writes inside
-- its buffers, ends, and sends at most one packet: a response that fits in 1500 bytes.
pub handle_packet-Yields :
    (c : Config) (bs : List ℕ) (source : Option Endpoint) (sends : Bool)
    → Yields Sendable (handle_packet c bs source sends)
unfolding handle_packet
handle_packet-Yields c bs source sends = elim (Bool-cases (ltb (length bs) 12)) [
  | inl e ↦ rw e (yields _ tt)
  | inr e ↦
      rw (e, read_be_lem bs 2 2 (ground arith), read_be_lem bs 4 2 (ground arith))
        (elim (Bool-cases (be bs 2 2 / 2 ^ 15 % 2 == 1)) [
          | inl f ↦ rw f (yields _ tt)
          | inr f ↦ rw f (questions-Yields c bs source sends (be bs 4 2) 12)
        ])
]

response_flags : (packet : List ℕ) → take 4 packet ≡ 0 ∷ 0 ∷ 0x84 ∷ 0 ∷ [] → be packet 2 2 ≡ 0x8400
unfolding be be_loop
response_flags packet e = sym (be-take 4 packet 2 2 (omega arith)) ∙ ap (λ bs. be bs 2 2) e

-- No packet that a responder builds, with whatever configuration, is answered by another: announcements and
-- goodbyes do not set off replies.
pub handle_packet-build_packet :
    (c other : Config) (capacity ttl : ℕ) (packet : List ℕ) (source : Option Endpoint)
    (sends : Bool)
    → build_packet c capacity ttl ≡ ok packet
    → handle_packet other packet source sends ≡ ok (fine, none)
unfolding handle_packet
handle_packet-build_packet c other capacity ttl packet source sends e =
    rw
      (
        long,
        read_be_lem packet 2 2 (omega (arith, built.behind)),
        read_be_lem packet 4 2 (omega (arith, built.behind)),
        response_flags packet built.flags,
      )
      refl
  where
    built : Extends capacity 12 packet
    built = Returns-value _ _ packet (build_packet-Returns c capacity ttl) e

    long : ltb (length packet) 12 ≡ false
    long = ground (arith, built.behind)
