-- ===== src/Ptp.antt =====
-- shared/sync/ptp_sync.c: the clock of an AirPlay 2 sender, by PTP Sync and Follow_Up messages.
-- The value of each call of os_time_us is an argument.
pub mod Bounds
pub mod Exchange
pub mod Playback
pub mod Limits
mod Tests
use protable_airplay.Base.{
  ℕ, zero, suc, ◌+◌, ◌-◌, ◌*◌, ◌/◌, ◌%◌, ◌^◌, Bool, true, false, ◌&&◌, ◌||◌, not, Option, none,
  some, List, [], ◌∷◌, ltb, leb, ◌==◌, if◌then◌else◌, length, replicate, str_eq, checked, Result,
  ok, fail, fault, ◌>>=◌, ◌>>◌, guard, read, read_be,
}
use protable_airplay.Base.Int.{
  ℤ, pos, negsuc, pos_part, neg_part, ◌+ℤ◌, ◌-ℤ◌, ltb_ℤ, times, quot, signed32, signed64, sub32,
  sub64,
}
use protable_airplay.Rtp.{slice}

-- `ptp_sync_t` without `sync_clock`, which nothing uses. A socket is its handle, and `none` is
-- NET_SOCKET_INIT.
pub record Ptp : Type 0 where
  pub event_socket : Option ℕ
  pub general_socket : Option ℕ
  pub clock_id : ℕ
  pub sync_received_us : ℕ
  pub updated_us : ℕ
  pub offset_us : ℤ
  pub sync_correction : ℤ
  pub sequence : ℕ
  pub domain : ℕ
  pub source_port : List ℕ
  pub pending : Bool
  pub ready : Bool
  pub opened : Bool

abbrev pub init : Ptp
init = record {
  event_socket = none;
  general_socket = none;
  clock_id = 0;
  sync_received_us = 0;
  updated_us = 0;
  offset_us = pos 0;
  sync_correction = pos 0;
  sequence = 0;
  domain = 0;
  source_port = replicate 10 0;
  pending = false;
  ready = false;
  opened = false;
}

-- What net_udp_bind gives for the two ports, and whether net_udp_join succeeds for the two sockets
pub record Network : Type 0 where
  pub event : Option ℕ
  pub general : Option ℕ
  pub event_joins : Bool
  pub general_joins : Bool

-- `ptp_sync_close` closes both sockets and starts anew.
abbrev pub close : Ptp → Ptp
close p = init

-- The sockets that `ptp_sync_open` has bound, and whether they joined the group
bound : Ptp → Option ℕ → Option ℕ → Bool → Bool × Ptp
bound p (some e) (some g) true =
    (true, record p { event_socket = some e; general_socket = some g; opened = true })
bound p (some e) (some g) false = (false, close p)
bound p (some e) none joined = (false, close p)
bound p none g joined = (false, close p)

-- `ptp_sync_open`: whether it succeeds
pub open_sockets : Ptp → Network → Bool × Ptp
unfolding bound
open_sockets p n =
    if p.opened then (true, p) else bound p n.event n.general (n.event_joins && n.general_joins)

pub set_clock : Ptp → ℕ → Ptp
set_clock p clock_id =
    if p.clock_id == clock_id
    then p
    else record p { clock_id = clock_id; pending = false; ready = false }

-- The results -1, 0 and 1 of `ptp_sync_packet`
pub data Outcome : Type 0 where
  invalid ignored accepted : Outcome

-- What `ptp_sync_packet` keeps of a Sync message
abbrev pub begun : Ptp → ℕ → ℕ → ℕ → List ℕ → ℤ → Ptp
begun p sequence domain now source correction = record p {
  sequence = sequence;
  domain = domain;
  sync_received_us = now;
  source_port = source;
  sync_correction = correction;
  pending = true;
}

-- The sample replaces the offset: there is none, it is old, or this one has less delay.
abbrev pub replaces : Ptp → ℤ → ℕ → Bool
replaces p offset now =
    not p.ready || (ltb 2000000 (sub64 now p.updated_us) || ltb_ℤ p.offset_us offset)

pub filter : Ptp → ℤ → ℕ → Result ℤ
filter p offset now = if replaces p offset now then ok offset else (do
  difference ← checked (offset -ℤ p.offset_us)
  checked (p.offset_us +ℤ quot difference 64))

-- The end of `ptp_sync_packet`, with the sum of the corrections
pub sample : Ptp → List ℕ → ℤ → ℕ → Result (Outcome × Ptp)
sample p bs correction now = do
  seconds ← read_be bs 34 6
  nanoseconds ← read_be bs 40 4
  (if leb 1000000000 nanoseconds || ltb 9223372036854 seconds then ok (invalid, p) else (do
    sent ← checked (signed64 ((seconds * 1000000 + nanoseconds / 1000) % 2 ^ 64) +ℤ correction)
    offset ← checked (sent -ℤ signed64 p.sync_received_us)
    offset_us ← filter p offset now
    ok (
      accepted,
      record p { offset_us = offset_us; ready = true; pending = false; updated_us = now },
    )))

-- The Follow_Up that completes the pending Sync
abbrev pub completes : Ptp → ℕ → ℕ → List ℕ → ℕ → Bool
completes p sequence domain source now =
    p.pending
    && (sequence == p.sequence
        && (domain == p.domain
            && (str_eq p.source_port source && not (ltb 1000000 (sub64 now p.sync_received_us)))))

-- A message of the chosen clock: Sync, with its flag for a Follow_Up to come, or Follow_Up
pub message : Ptp → List ℕ → ℕ → ℕ → Result (Outcome × Ptp)
message p bs kind now = do
  sequence ← read_be bs 30 2
  bits ← read_be bs 8 8
  let correction = quot (signed64 bits) 65536000
  domain ← read bs 4
  source ← slice bs 20 10
  (if kind == 0
      then (do
        flags ← read bs 6
        let p' = begun p sequence domain now source correction
        (if flags / 2 % 2 == 1 then ok (ignored, p') else sample p' bs correction now))
      else (if completes p sequence domain source now
          then (do total ← checked (correction +ℤ p.sync_correction); sample p bs total now)
          else ok (ignored, p)))

pub is_message : List ℕ → Result Bool
is_message bs = if ltb (length bs) 44 then ok false else (do
  version ← read bs 1
  size ← read_be bs 2 2
  ok (version % 16 == 2 && not (ltb size 44 || ltb (length bs) size)))

pub packet : Ptp → List ℕ → ℕ → Result (Outcome × Ptp)
packet p bs now = do
  valid ← is_message bs
  (if valid
      then (do
        kind ← read bs 0
        clock ← read_be bs 20 8
        (if (kind % 16 == 0 || kind % 16 == 8) && (not (p.clock_id == 0) && clock == p.clock_id)
            then message p bs (kind % 16) now
            else ok (ignored, p)))
      else ok (invalid, p))

-- What one call of net_udp_recv gives, a datagram with the time of its handling
pub data Receipt : Type 0 where
  timeout error : Receipt
  datagram : List ℕ → ℕ → Receipt

-- The receive loop on one socket: whether it met no error, the state, and what is left to receive. A
-- socket that has nothing more times out.
pub batch : ℕ → Ptp → List Receipt → Result (Bool × Ptp × List Receipt)
batch zero p rs = ok (true, p, rs)
batch (suc n) p [] = ok (true, p, [])
batch (suc n) p (timeout ∷ rs) = ok (true, p, rs)
batch (suc n) p (error ∷ rs) = ok (false, p, rs)
batch (suc n) p (datagram bs now ∷ rs) = packet p bs now >>= λ r. batch n r.1 rs

pub poll : Ptp → List Receipt → List Receipt → Result (Bool × Ptp × List Receipt × List Receipt)
poll p event general = if not p.opened then ok (true, p, event, general) else (do
  (fine, p', event') ← batch 8 p event
  (if fine
      then (do (fine', p'', general') ← batch 8 p' general; ok (fine', p'', event', general'))
      else ok (false, p', event', general)))

-- `airplay_anchor_t`
pub record Anchor : Type 0 where
  pub clock_id : ℕ
  pub network_us : ℕ
  pub rtp_time : ℕ
  pub valid : Bool
  pub playing : Bool

pub anchor : List ℕ → Result Anchor
anchor bs = do
  guard (not (ltb (length bs) 28))
  version ← read bs 0
  kind ← read bs 1
  clock ← read_be bs 20 8
  guard (version / 64 == 2 && (kind % 128 == 0x57 && not (clock == 0)))
  rtp_time ← read_be bs 4 4
  network ← read_be bs 8 8
  ok (record {
    clock_id = clock;
    network_us = network / 1000;
    rtp_time = rtp_time;
    valid = true;
    playing = true;
  })

-- The offset is known, fresh, and that of the anchor's clock.
abbrev pub is_usable : Ptp → Anchor → ℕ → ℕ → Bool
is_usable p a rate now =
    p.ready
    && (a.valid
        && (a.playing
            && (not (rate == 0)
                && (a.clock_id == p.clock_id
                    && not (leb p.updated_us now && ltb 5000000 (now - p.updated_us))))))

-- `ptp_sync_deadline`
pub deadline : Ptp → Anchor → ℕ → ℕ → ℕ → ℕ → Result ℕ
deadline p a timestamp rate latency now = do
  guard (is_usable p a rate now)
  let delta = signed32 (sub32 timestamp a.rtp_time) +ℤ pos latency
  start ← checked (signed64 a.network_us -ℤ p.offset_us)
  local ← checked (start +ℤ quot (times delta 1000000) rate)
  guard (not (ltb_ℤ local (pos 0)))
  ok (pos_part local)
