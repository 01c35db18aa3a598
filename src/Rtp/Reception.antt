-- ===== src/Rtp/Reception.antt =====
-- What `rtp_receiver_poll` of shared/protocol/rtp.c hands to its callbacks.
use protable_airplay.Base.{
  ℕ, zero, suc, ◌%◌, ◌≡◌, ◌≢◌, refl, ap, inl, inr, ◌⊎◌, Bool, true, false, ◌&&◌, not, List, [], ◌∷◌,
  ◌++◌, ltb, ◌==◌, if◌then◌else◌, length, get_or, str_eq, str_eq→eq, str_eq_refl, arith, Bool-cases,
  Endpoint, Result, ok, fail, fault,
}
use protable_airplay.Rtp.{RtpPacket, parse_packet}
use protable_airplay.Rtp.Receiver.{
  Socket, audio_socket, control_socket, timing_socket, Udp, nothing_more, broken, datagram, Event,
  audio, control, timing, Receiver, Wait, wait_failed, idle, ready,
}

-- The calls for one datagram: an audio packet that the parser accepts, or the datagram as it is
abbrev pub heard_packet : Result RtpPacket → List Event
heard_packet (ok p) = audio p ∷ []
heard_packet fail = []
heard_packet fault = []

abbrev pub is_retransmit : List ℕ → Bool
is_retransmit bs = not (ltb (length bs) 2) && (get_or bs 1 0 % 128 == 0x56)

abbrev pub heard_one : Socket → Endpoint → List ℕ → List Event
heard_one audio_socket peer bs = heard_packet (parse_packet bs)
heard_one control_socket peer bs =
    if is_retransmit bs then heard_packet (parse_packet bs) else control bs ∷ []
heard_one timing_socket peer bs = timing bs peer ∷ []

-- Datagrams that do not count: empty ones, and, once the address of the sender is set, those of any other address
abbrev pub IsForeign : List ℕ → Endpoint → List ℕ → Type 0
IsForeign peer_ip peer bs = (bs ≡ []) ⊎ ((peer_ip ≢ []) × (peer.ip ≢ peer_ip))

pub dec_foreign :
    (peer_ip : List ℕ) (peer : Endpoint) (bs : List ℕ) → Dec (IsForeign peer_ip peer bs)
dec_foreign peer_ip peer [] = yes (inl refl)
dec_foreign [] peer (b ∷ bs) = no λ f. elim f [ inl e ↦ cc | inr e ↦ e.0 refl ]
dec_foreign (c ∷ cs) peer (b ∷ bs) = elim (Bool-cases (str_eq peer.ip (c ∷ cs))) [
  | inl e ↦ no λ f. elim f [ inl g ↦ cc | inr g ↦ g.1 (str_eq→eq peer.ip (c ∷ cs) e) ]
  | inr e ↦ yes (
      inr (
        (λ g. cc),
        λ g. absurd (ground (arith, e, str_eq_refl (c ∷ cs), ap (λ t. str_eq t (c ∷ cs)) g)),
      ))
]

-- The calls for the first `n` datagrams in front of a timeout or an error, without those that do not count
abbrev pub heard : ℕ → Socket → List ℕ → List Udp → List Event
heard zero s peer_ip queue = []
heard (suc n) s peer_ip [] = []
heard (suc n) s peer_ip (nothing_more ∷ queue) = []
heard (suc n) s peer_ip (broken ∷ queue) = []
heard (suc n) s peer_ip (datagram peer bs ∷ queue) =
    let rest = heard n s peer_ip queue in
    elim (dec_foreign peer_ip peer bs) [ yes f ↦ rest | no f ↦ heard_one s peer bs ++ rest ]

-- These calls, and a receiver of which nothing but the count of packets has changed
abbrev Handled : Receiver → List Event → Receiver × List Event → Type 0
Handled r events (r', events') = (r'.peer_ip ≡ r.peer_ip) × (events' ≡ events)

abbrev Batched : ℕ → Socket → Receiver → List Udp → Bool × Receiver × List Event × List Udp → Type 0
Batched n s r queue (fine, r', events, left) =
    (r'.peer_ip ≡ r.peer_ip) × (events ≡ heard n s r.peer_ip queue)

abbrev says : {A : Type 0} → Dec A → Bool
says (yes a) = true
says (no n) = false

-- The calls for a socket in one poll
abbrev pub heard_if : Bool → Socket → List ℕ → List Udp → List Event
heard_if for_it s peer_ip queue = if for_it then heard 32 s peer_ip queue else []

-- What comes of a poll: the calls of timing, then of control, then of audio, for the sockets that are
-- ready. After an error at a socket there is none of a later socket.
abbrev pub Polled :
    Receiver → Wait → List Udp → List Udp → List Udp → Bool × Receiver × List Event → Type 0
Polled r wait_failed audios controls timings (fine, r', events) = (fine ≡ false) × (events ≡ [])
Polled r idle audios controls timings (fine, r', events) = (fine ≡ true) × (events ≡ [])
Polled r (ready a c t) audios controls timings (true, r', events) =
    events
    ≡ heard_if t timing_socket r.peer_ip timings
      ++ (heard_if c control_socket r.peer_ip controls ++ heard_if a audio_socket r.peer_ip audios)
Polled r (ready a c t) audios controls timings (false, r', events) =
    (events ≡ heard_if t timing_socket r.peer_ip timings)
    ⊎ ((events
          ≡ heard_if t timing_socket r.peer_ip timings
            ++ heard_if c control_socket r.peer_ip controls)
        ⊎ (events
            ≡ heard_if t timing_socket r.peer_ip timings
              ++ (heard_if c control_socket r.peer_ip controls
                  ++ heard_if a audio_socket r.peer_ip audios)))
