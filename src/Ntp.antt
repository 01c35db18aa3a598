-- ===== src/Ntp.antt =====
-- shared/sync/ntp_sync.c: the clock of an AirPlay 1 sender, by timing exchanges and control packets.
-- The value of each call of os_time_us is an argument.
pub mod Stamps
pub mod Exchange
pub mod Sampling
pub mod Timeline
pub mod Limits
mod Tests
use protable_airplay.Base.{
  ℕ, ◌+◌, ◌-◌, ◌*◌, ◌/◌, ◌%◌, ◌^◌, Bool, true, false, ◌&&◌, ◌||◌, not, List, [], ◌∷◌, ◌++◌, ltb,
  leb, ◌==◌, if◌then◌else◌, length, replicate, take, drop, Result, ok, fail, fault, ◌>>=◌, ◌>>◌,
  guard, read, read_be,
}
use protable_airplay.Base.Int.{
  ℤ, pos, negsuc, ◌+ℤ◌, ◌-ℤ◌, ltb_ℤ, times, quot, rem, sub_ℕ, signed32, sub32, sub64, signed64,
  to_word,
}
use protable_airplay.Rtp.{slice}

-- `ntp_timestamp_t`
pub record Timestamp : Type 0 where
  pub seconds : ℕ
  pub fraction : ℕ

-- `ntp_sync_t`, with its int flags as booleans
pub record NtpSync : Type 0 where
  pub clock_offset_us : ℤ
  pub rtt_us : ℤ
  pub rtp_base : ℕ
  pub latency_frames : ℕ
  pub ntp_base : Timestamp
  pub request_time : Timestamp
  pub request_local_us : ℕ
  pub next_request_us : ℕ
  pub best_sample_us : ℕ
  pub requests : ℕ
  pub samples : ℕ
  pub synchronized : Bool
  pub anchor_valid : Bool
  pub request_pending : Bool

abbrev zero_time : Timestamp
zero_time = record { seconds = 0; fraction = 0 }

-- `ntp_sync_init` and `ntp_sync_deinit` of a structure that exists
unfoldable pub init : NtpSync
init = record {
  clock_offset_us = pos 0;
  rtt_us = pos 0;
  rtp_base = 0;
  latency_frames = 0;
  ntp_base = zero_time;
  request_time = zero_time;
  request_local_us = 0;
  next_request_us = 0;
  best_sample_us = 0;
  requests = 0;
  samples = 0;
  synchronized = false;
  anchor_valid = false;
  request_pending = false;
}

abbrev pub ntp_epoch_offset : ℕ
ntp_epoch_offset = 2208988800

abbrev pub ntp_packet_size : ℕ
ntp_packet_size = 32

-- `write32`
abbrev pub write32 : ℕ → List ℕ
write32 v = v / 2 ^ 24 % 256 ∷ v / 2 ^ 16 % 256 ∷ v / 2 ^ 8 % 256 ∷ v % 256 ∷ []

pub read_time : List ℕ → ℕ → Result Timestamp
read_time bs i = do
  seconds ← read_be bs i 4
  fraction ← read_be bs (i + 4) 4
  ok (record { seconds = seconds; fraction = fraction })

abbrev pub write_time : Timestamp → List ℕ
write_time t = write32 t.seconds ++ write32 t.fraction

pub from_us : ℕ → Timestamp
from_us us = record {
  seconds = (us / 1000000 + ntp_epoch_offset) % 2 ^ 64 % 2 ^ 32;
  fraction = us % 1000000 * 4294967296 / 1000000 % 2 ^ 32;
}

-- b - a in microseconds
pub diff_us : Timestamp → Timestamp → ℤ
diff_us a b =
    times (signed32 (sub32 b.seconds a.seconds)) 1000000
    +ℤ quot (times (sub_ℕ b.fraction a.fraction) 1000000) 4294967296

-- `ntp_sync_request`: the state with the 32 bytes to send, if it is time to ask again
pub data Request : Type 0 where
  not_due : Request
  due : List ℕ → Request

abbrev pub request_packet : Timestamp → List ℕ
request_packet t = 0x80 ∷ 0xd2 ∷ 0 ∷ 7 ∷ (replicate 20 0 ++ write_time t)

pub request : NtpSync → ℕ → Request × NtpSync
request s now = if ltb now s.next_request_us then (not_due, s) else (
  due (request_packet (from_us now)),
  record s {
    request_local_us = now;
    request_time = from_us now;
    request_pending = true;
    requests = (s.requests + 1) % 2 ^ 32;
    next_request_us =
        (now + (if leb ((s.requests + 1) % 2 ^ 32) 4 then 250000 else 2000000)) % 2 ^ 64;
  },
)

-- The tests on a reply, with `length data` for `len`. `&&` reads no further than it has to.
pub is_reply : NtpSync → List ℕ → Result Bool
is_reply s bs = if ltb (length bs) ntp_packet_size then ok false else (do
  version ← read bs 0
  kind ← read bs 1
  ok (version / 2 ^ 6 == 2 && (kind % 128 == 0x53 && s.request_pending)))

-- The arguments of the warning on a packet that is no reply: they are read in any case.
pub warn_invalid : List ℕ → Result (Unit {0})
warn_invalid bs = do version ← read bs 0; kind ← read bs 1; fail

abbrev pub same_time : Timestamp → Timestamp → Bool
same_time a b = a.seconds == b.seconds && a.fraction == b.fraction

abbrev pub or_zero : ℤ → ℤ
or_zero (pos n) = pos n
or_zero (negsuc n) = pos 0

-- The sample replaces the reference.
abbrev pub is_better : NtpSync → ℤ → ℕ → Bool
is_better s rtt now =
    not s.synchronized
    || (not (ltb_ℤ (s.rtt_us +ℤ pos 500) rtt) || ltb 10000000 (sub64 now s.best_sample_us))

-- The end of `ntp_sync_process_packet`, once the sample is accepted
pub take_sample : NtpSync → ℤ → ℤ → ℕ → NtpSync
take_sample s rtt offset now =
    let counted = record s { request_pending = false; samples = (s.samples + 1) % 2 ^ 32 } in
    if is_better s rtt now
    then record counted {
      clock_offset_us = offset;
      rtt_us = rtt;
      best_sample_us = now;
      synchronized = true;
    }
    else counted

-- The round trip of a sample, and whether the code refuses it. `now - request_local_us` is unsigned and
-- then read as an int64_t.
abbrev pub round_trip : NtpSync → ℕ → ℤ → ℤ
round_trip s now processing = signed64 (sub64 now s.request_local_us) -ℤ processing

abbrev pub is_implausible : ℤ → ℤ → Bool
is_implausible processing rtt =
    ltb_ℤ processing (pos 0) || (ltb_ℤ rtt (negsuc 1) || ltb_ℤ (pos 500000) rtt)

pub process_packet : NtpSync → List ℕ → ℕ → Result NtpSync
process_packet s bs now = do
  valid ← is_reply s bs
  (if valid
      then (do
        origin ← read_time bs 8
        guard (same_time origin s.request_time)
        receive ← read_time bs 16
        transmit ← read_time bs 24
        let processing = diff_us receive transmit
        let rtt = round_trip s now processing
        guard (not (is_implausible processing rtt))
        ok (
            take_sample s (or_zero rtt)
              (quot (diff_us origin receive +ℤ diff_us (from_us now) transmit) 2) now))
      else (warn_invalid bs >> fail))

-- `ntp_sync_reply`; `now` and `later` are the two readings of the clock. It copies the eight bytes at
-- NTP_ORIGIN_TIMESTAMP_OFFSET.
pub reply : List ℕ → ℕ → ℕ → Result (List ℕ)
reply bs now later = do
  guard (not (ltb (length bs) ntp_packet_size))
  version ← read bs 0
  kind ← read bs 1
  guard (version / 2 ^ 6 == 2 && kind % 128 == 0x52)
  two ← read bs 2
  three ← read bs 3
  origin ← slice bs 8 8
  ok (
      0x80
      ∷ 0xd3
      ∷ two
      ∷ three
      ∷ (replicate 4 0 ++ (origin ++ (write_time (from_us now) ++ write_time (from_us later)))))

-- `ntp_sync_control`
pub control : NtpSync → List ℕ → ℕ → Result NtpSync
control s bs rate = do
  guard (not (ltb (length bs) 20))
  version ← read bs 0
  kind ← read bs 1
  guard (version / 2 ^ 6 == 2 && (kind % 128 == 0x54 && not (rate == 0)))
  playing ← read_be bs 4 4
  sending ← read_be bs 16 4
  let latency = sub32 sending playing
  guard (not (ltb (rate * 10) latency))
  base ← read_time bs 8
  ok (record s {
    rtp_base = playing;
    ntp_base = base;
    latency_frames = latency;
    anchor_valid = true;
  })

-- The carry of `ntp_sync_rtp_to_ntp`: seconds and a fraction that may be out of range on either side
pub carry : ℤ → ℤ → ℤ × ℤ
carry seconds fraction =
    let (s, f) =
      if ltb_ℤ fraction (pos 0)
      then (seconds -ℤ pos 1, fraction +ℤ pos 4294967296)
      else (seconds, fraction) in
    if ltb_ℤ f (pos 4294967296) then (s, f) else (s +ℤ pos 1, f -ℤ pos 4294967296)

-- `ntp_sync_rtp_to_ntp`; `now` is read only without an anchor.
pub rtp_to_ntp : NtpSync → ℕ → ℕ → ℕ → Timestamp
rtp_to_ntp s timestamp rate now =
    if not s.anchor_valid || rate == 0
    then from_us now
    else (let delta = quot (times (signed32 (sub32 timestamp s.rtp_base)) 1000000) rate in
        let (seconds, fraction) =
          carry (quot delta 1000000)
            (pos s.ntp_base.fraction +ℤ quot (times (rem delta 1000000) 4294967296) 1000000) in
        record {
          seconds = (s.ntp_base.seconds + to_word 32 seconds) % 2 ^ 32;
          fraction = to_word 32 fraction;
        })

-- `ntp_sync_deadline`; the clock is read once, and once more only without an anchor.
pub deadline : NtpSync → ℕ → ℕ → ℕ → Result ℕ
deadline s timestamp rate now = do
  guard (s.synchronized && (s.anchor_valid && not (rate == 0)))
  let remote = rtp_to_ntp s timestamp rate now
  let delta = diff_us (from_us now) remote -ℤ s.clock_offset_us
  ok (to_word 64 (signed64 now +ℤ delta))
