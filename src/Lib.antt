-- ===== src/Lib.antt =====
-- A model of the portable AirPlay receiver and what is proved of it.
--
-- The program receives audio packets over RTP or over one TCP connection, puts them in sequence order,
-- decrypts and decodes them, and plays them by the sender's clock. The models follow that path.
--
-- - Base: native numbers, lists as C arrays, byte reads (Base/Bytes, Base/Reads) and signed words
--   (Base/Int). `Result` is what a C function with a negative error status returns: `ok`, `fail`, or
--   `fault` for a read or write outside a buffer. A byte is a number below 256 and an array of
--   bytes is a list; unsigned arithmetic that can wrap has its modulus written out.
-- - Rtp: shared/protocol/rtp.c. `parse_packet` is rtp_parse_packet, cut into the header, the extension
--   and the padding. Rtp/Receiver.antt: `create`, `poll` and `close` of the receiver; a socket is
--   the list of what net_udp_recv returns, and the calls of the callbacks are a list of events.
-- - Playout: shared/audio/playout.c, the bounded reorder queue. `push`, `peek`, `pop`, `reset` and
--   `set_floor` are the functions of these names. A pointer to a slot is its index.
-- - Buffered: shared/audio/buffered_audio.c, the TCP transport. `poll` is buffered_audio_poll, and the
--   socket is a list of arrivals, which net_tcp_recv takes in pieces up to its capacity. The packet
--   that the C code hands to its callback is the field `delivered`.
-- - Ntp.antt (shared/sync/ntp_sync.c): the clock of AirPlay 1. Its record is `ntp_sync_t`, its functions
--   are named after the code's without the prefix `ntp_sync_`; `process_packet` is
--   `ntp_sync_process_packet` with `is_reply`, `warn_invalid`, `round_trip`, `is_implausible` and
--   `take_sample` for its parts. The readings of `os_time_us` are arguments. Signed 64-bit quantities
--   are integers: with a clock below 2 ^ 62 no product or sum of the code leaves that range.
-- - Bplist.antt (shared/protocol/bplist.c): the reader of binary property lists. Its record is
--   `bplist_t` without the size, which is the length of the bytes; a reference is an `Option`, with
--   `none` for `BPLIST_NONE`; `children` is `bplist_count` and `object_bytes` is `bplist_bytes`, which
--   returns the bytes that the code points to. `bplist_real` is not modelled: it needs floating point.
-- - Bplist/Writer.antt (shared/protocol/bplist.c): the writer. `written` is the used part of the storage;
--   `put` is the body of `append`, `add_bytes` is `bytes`, and the rest is named after the code. Stored
--   references are compared as numbers, so here `BPLIST_NONE` is 2 ^ 32 - 1.
-- - Ptp.antt (shared/sync/ptp_sync.c): the clock of AirPlay 2. The functions are named after the code's
--   without `ptp_sync_`, and `open_sockets` is `ptp_sync_open`; `packet` is cut into `is_message`,
--   `message`, `sample` and `filter`, and `poll` into one `batch` of receipts for each socket. An int64_t
--   sum out of range is a `fault` (Base/Overflow), since C leaves it undefined.
-- - Mdns.antt, Mdns/Address.antt, Mdns/Responder.antt (shared/protocol/mdns.c and the two functions of
--   shared/util/network_util.c that it calls): `build_packet` is cut into one function for each record,
--   `decode_name` is the loop `decode_loop` with as many steps as the message has bytes, as in the code,
--   and `handle_packet` is mdns_handle_packet_from with its loop `questions`; Mdns/Answers.antt says
--   what a question is owed. The data that a
--   socket takes is the `Datagram` beside the status.
-- - Rtsp.antt (shared/protocol/rtsp.c): `parse_request` and the functions it calls, under their names; the
--   loop over the lines is `lines`, with the bytes of the headers as its steps, and the conversions
--   of `sscanf` are `token` and `skip_space`. Rtsp/Server.antt: `handle_request` with its routes,
--   `close_client`, and the loop over the requests of one client in rtsp_server_poll, which is `serve` with
--   the rounds `turn`. The handlers of airplay_rtsp.c and airplay2.c are the parameter `Handlers`.
--   Rtsp/Records.antt: `receive_client`, with pairing_open as a parameter. Rtsp/Clients.antt:
--   `create` and `accept` of the server. A copy into a text buffer or a new entry of an array that has no
--   room for it is a `fault` (`copied`, `entry`).
-- - Codec.antt (shared/codec/alac_decoder.c, shared/codec/aac_decoder.c): the adapters, with the decoder of
--   shared/codec/alac.c and FDK-AAC as the parameters `AlacLibrary` and `AacLibrary`.
-- - Crypto.antt (shared/crypto/crypto.c): the four functions, with mbedTLS as the parameter `Mbedtls`.
-- - Pipeline.antt (shared/audio/audio_pipeline.h, sdp_session_t of shared/protocol/sdp.h): the state, which is made
--   of the states of the other parts. Its children model shared/audio/audio_pipeline.c: Decode (decryption
--   into a buffer, where `store` faults behind its end, and the three decoders), Packet (a packet on its way to the output), Input (the callbacks of the
--   RTP receiver), Create and Control (creation, configuration, states, volume), Play (the deadlines and the
--   rounds `play_round` of pipeline_play_ready_packets), Poll (audio_pipeline_poll). A function is named after the
--   code's without `audio_pipeline_` or `pipeline_`; `create_pipeline`, `start_pipeline`, `stop_pipeline`,
--   `flush_pipeline`, `close_pipeline` and `poll_pipeline` keep it behind. What on_audio_data is called with and
--   what is sent are returned. The libraries and the arithmetic of float are the parameter `Externals`; the
--   answers of the platform and the readings of the clock are arguments. The loop over the access units
--   of AAC has one turn more than its headers have bits, since each unit takes one bit at least.
--
-- Sizes are those of airplay_config.h: 512 slots, 4096 bytes for a datagram. Recursion is structural:
-- loops run over the list of slots, of bytes or of arrivals. `drain` of Playout/Drain takes the number of
-- rounds, and the count of the queue is enough; `polls` of Buffered/Framing takes the number of polls.
-- `decode_loop` of Mdns, `lines` of Rtsp and `serve_loop` of Rtsp/Server take a number of steps: the
-- length of the message or of the buffer is enough, since a label, a line or a request takes bytes away,
-- and the code's own loop over labels has that bound.
--
-- Not modelled: the socket, clock and audio drivers under platform, logging, and what mbedTLS and
-- FDK-AAC do. Nor are these parts: the RTSP handlers, the responses and the event channels of the
-- RTSP server, the SDP parser, the decoder shared/codec/alac.c, which is a copy of another project,
-- the memory pool of mbedTLS, pairing, authentication, the AirPlay 2 session and the service
-- threads.
pub mod Base
pub mod Rtp
pub mod Playout
pub mod Buffered
pub mod Ntp
pub mod Ptp
pub mod Bplist
pub mod Mdns
pub mod Rtsp
pub mod Codec
pub mod Crypto
pub mod Pipeline
