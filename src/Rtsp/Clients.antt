-- ===== src/Rtsp/Clients.antt =====
-- shared/protocol/rtsp.c: the start of the server, and new clients.
use protable_airplay.Base.{
  ℕ, Bool, true, false, none, List, [], ◌∷◌, Result, ok, fail, if◌then◌else◌, replicate,
}
use protable_airplay.Rtsp.Server.{Client, Instance, Handlers, no_client}

abbrev pub rtsp_max_clients : ℕ
rtsp_max_clients = 2

module _ {P V W : Type 0} (h : Handlers P V W) where
  -- `rtsp_server_create`, with the part `others` of the stream, if net_tcp_listen succeeds
  unfoldable pub create : W → Bool → Result (Instance P V W)
  create others listens =
      if listens
      then ok (record {
        clients = replicate rtsp_max_clients (no_client h);
        stream = record {
          session = h.no_session;
          has_session = false;
          recording = false;
          generation = 0;
          others = others;
        };
        owner = none;
      })
      else fail

  -- The client of a connection that has been accepted
  abbrev pub accepted_client : Client P
  accepted_client = record (no_client h) { socket = true }

  -- The accepted client in the first free place; without one the connection is closed.
  unfoldable pub place : List (Client P) → List (Client P)
  place [] = []
  place (c ∷ cs) = let rest = place cs in if c.socket then c ∷ rest else accepted_client ∷ cs

  unfoldable pub accept : Instance P V W → Instance P V W
  accept s = record s { clients = place s.clients }
