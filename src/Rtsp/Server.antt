-- ===== src/Rtsp/Server.antt =====
-- shared/protocol/rtsp.c: the clients of the server, the routes of their requests, and the loop over the
-- requests in a receive buffer. The handlers of airplay_rtsp.c and airplay2.c are the record `Handlers`.
use protable_airplay.Base.{
  ℕ, zero, suc, ◌+◌, ◌%◌, ◌^◌, Bool, true, false, ◌&&◌, ◌||◌, not, Option, none, some, List, [],
  ◌∷◌, ◌==◌, ltb, if◌then◌else◌, str_eq, get_or, set, length, take, drop, codes, recover, Result,
  ok, fault, ◌>>=◌,
}
use protable_airplay.Rtsp.{
  Request, unknown, get, post, options, announce, describe, setup, record_method, flush,
  flushbuffered, play, pause, teardown, get_parameter, set_parameter, setpeers, setrateanchortime,
  is_empty, parse_request,
}

-- The calls that `handle_request` makes
pub data Route : Type 0 where
  airplay2_info airplay2_pair_setup airplay2_fairplay_setup airplay2_feedback airplay2_acknowledge :
      Route
  airplay2_setup airplay2_flush_buffered airplay2_record airplay2_set_rate_anchor_time : Route
  airplay_rtsp_post airplay_rtsp_options airplay_rtsp_describe airplay_rtsp_announce
        airplay_rtsp_setup :
      Route
  airplay_rtsp_get_parameter airplay_rtsp_set_parameter airplay_rtsp_flush
        airplay_rtsp_flushbuffered :
      Route
  airplay_rtsp_teardown airplay_rtsp_pause airplay_rtsp_record airplay_rtsp_play not_implemented :
      Route

-- `rtsp_client_t` without its addresses; a flag for each socket that is open
pub record Client (P : Type 0) : Type 0 where
  pub socket : Bool
  pub pairing : P
  pub fairplay_stage : ℕ
  pub encrypted : Bool
  pub http : Bool
  pub record_bytes : List ℕ
  pub event_listener : Bool
  pub event_client : Bool

-- `rtsp_stream_state_t`, of which this file changes four fields
pub record Stream (V W : Type 0) : Type 0 where
  pub session : V
  pub has_session : Bool
  pub recording : Bool
  pub generation : ℕ
  pub others : W

-- `rtsp_instance_t` without the receive buffers; `owner` is the index of the client `stream_owner`.
pub record Instance (P V W : Type 0) : Type 0 where
  pub clients : List (Client P)
  pub stream : Stream V W
  pub owner : Option ℕ

-- What the server calls: a handler for a request of a client, which is true where the code returns 0 or
-- more, `rtsp_send_response` for status 400, `pairing_close`, and the zeroed session.
pub record Handlers (P V W : Type 0) : Type 0 where
  pub call : Route → ℕ → Request → Instance P V W → Bool × Instance P V W
  pub bad_request : ℕ → Instance P V W → Instance P V W
  pub pairing_close : P → P
  pub no_session : V
  pub no_pairing : P

abbrev pub is_plist : List ℕ → Bool
is_plist body = not (ltb (length body) 8) && str_eq (take 8 body) (codes "bplist00")

unfoldable pub post_route : List ℕ → Route
post_route uri =
    if str_eq uri (codes "/pair-setup")
    then airplay2_pair_setup
    else if str_eq uri (codes "/fp-setup")
    then airplay2_fairplay_setup
    else if str_eq uri (codes "/feedback")
    then airplay2_feedback
    else if str_eq uri (codes "/audioMode") || str_eq uri (codes "/command")
    then airplay2_acknowledge
    else airplay_rtsp_post

-- The cases of `handle_request`; `paired` is that the client is encrypted and has an event listener.
unfoldable pub route : Bool → Request → Route
route paired r = elim r.method [
  | get ↦ if str_eq r.uri (codes "/info") then airplay2_info else not_implemented
  | post ↦ post_route r.uri
  | options ↦ airplay_rtsp_options
  | describe ↦ airplay_rtsp_describe
  | announce ↦ airplay_rtsp_announce
  | setup ↦ if is_plist r.body then airplay2_setup else airplay_rtsp_setup
  | get_parameter ↦ airplay_rtsp_get_parameter
  | set_parameter ↦ airplay_rtsp_set_parameter
  | flush ↦ airplay_rtsp_flush
  | flushbuffered ↦ if is_plist r.body then airplay2_flush_buffered else airplay_rtsp_flushbuffered
  | teardown ↦ airplay_rtsp_teardown
  | pause ↦ airplay_rtsp_pause
  | record_method ↦ if paired then airplay2_record else airplay_rtsp_record
  | play ↦ airplay_rtsp_play
  | setpeers ↦ airplay2_acknowledge
  | setrateanchortime ↦ airplay2_set_rate_anchor_time
  | unknown ↦ not_implemented
]

-- What a round of the loop over the requests of a client does next
pub data Turn (P V W : Type 0) : Type 0 where
  waits : Turn P V W
  hangs_up : Instance P V W → Turn P V W
  goes_on : Instance P V W → List ℕ → Turn P V W

module _ {P V W : Type 0} (h : Handlers P V W) where
  -- A client that is not there
  abbrev pub no_client : Client P
  no_client = record {
    socket = false;
    pairing = h.no_pairing;
    fairplay_stage = 0;
    encrypted = false;
    http = false;
    record_bytes = [];
    event_listener = false;
    event_client = false;
  }

  abbrev pub client_at : ℕ → Instance P V W → Client P
  client_at i s = get_or s.clients i no_client

  -- `handle_request` for the client of index `i`
  unfoldable pub handle_request : ℕ → Request → Instance P V W → Bool × Instance P V W
  handle_request i r s =
      let c = client_at i s in
      h.call (route (c.encrypted && c.event_listener) r) i r (record s {
        clients = set s.clients i (record c { http = str_eq r.version (codes "HTTP/1.1") });
      })

  abbrev pub owns : ℕ → Option ℕ → Bool
  owns i none = false
  owns i (some j) = i == j

  -- The end of the stream of its owner
  unfoldable pub release : ℕ → Instance P V W → Instance P V W
  release i s =
      if owns i s.owner
      then record s {
        stream = record s.stream {
          recording = false;
          has_session = false;
          session = h.no_session;
          generation = (s.stream.generation + 1) % 2 ^ 32;
        };
        owner = none;
      }
      else s

  -- `close_client`; its receive buffer becomes empty where it is called.
  unfoldable pub close_client : ℕ → Instance P V W → Instance P V W
  close_client i s =
      let s' = release i s in
      let c = client_at i s' in
      record s' {
        clients = set s'.clients i (record c {
          socket = false;
          event_client = false;
          event_listener = false;
          pairing = h.pairing_close c.pairing;
          fairplay_stage = 0;
          encrypted = false;
          record_bytes = [];
        });
      }

  -- Encryption has begun in this request, and more bytes lie behind it.
  abbrev pub crosses : ℕ → Instance P V W → Instance P V W → List ℕ → Bool
  crosses i s s' rest =
      not (client_at i s).encrypted && ((client_at i s').encrypted && not (is_empty rest))

  -- What follows a result of `parse_request` that is not negative
  abbrev pub answered : ℕ → Instance P V W → List ℕ → Option (Request × ℕ) → Turn P V W
  answered i s bs none = waits
  answered i s bs (some (r, n)) =
      let outcome = handle_request i r s in
      let rest = drop n bs in
      if not outcome.0 || crosses i s outcome.1 rest
      then hangs_up (close_client i outcome.1)
      else goes_on outcome.1 rest

  -- One round of the loop over the requests in the receive buffer of a client
  unfoldable pub turn : ℕ → Instance P V W → List ℕ → Result (Turn P V W)
  turn i s bs =
      recover (hangs_up (close_client i (h.bad_request i s))) (parse_request bs)
        λ parsed. ok (answered i s bs parsed)

  -- Whether the client is still connected, the instance, and what is left in the buffer; `loop` is the
  -- next round.
  abbrev pub continue :
      (Instance P V W → List ℕ → Result (Bool × Instance P V W × List ℕ))
      → Instance P V W
      → List ℕ
      → Turn P V W
      → Result (Bool × Instance P V W × List ℕ)
  continue loop s bs waits = ok (true, s, bs)
  continue loop s bs (hangs_up s') = ok (false, s', [])
  continue loop s bs (goes_on s' rest) = loop s' rest

  -- The loop. A request takes four bytes at least, so as many steps as there are bytes are enough.
  unfoldable pub serve_loop :
      ℕ → ℕ → Instance P V W → List ℕ → Result (Bool × Instance P V W × List ℕ)
  serve_loop steps i s [] = ok (true, s, [])
  serve_loop zero i s (b ∷ bs) = fault
  serve_loop (suc steps) i s (b ∷ bs) =
      turn i s (b ∷ bs) >>= λ t. continue (λ s' rest. serve_loop steps i s' rest) s (b ∷ bs) t

  unfoldable pub serve : ℕ → Instance P V W → List ℕ → Result (Bool × Instance P V W × List ℕ)
  serve i s bs = serve_loop (length bs) i s bs
