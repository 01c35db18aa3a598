-- ===== src/Ntp/Exchange.antt =====
-- Timing exchanges of shared/sync/ntp_sync.c: what is accepted, and what a reply holds.
use protable_airplay.Base.{
  ℕ, ◌+◌, ◌/◌, ◌%◌, ◌^◌, ◌≤◌, ◌<◌, ◌≡◌, refl, sym, ap, ◌∙◌, inl, inr, Bool, true, false, ◌&&◌, ◌||◌,
  not, List, [], ◌∷◌, ltb, leb, ◌==◌, if◌then◌else◌, length, arith, Bool-cases, Result, ok, fail,
  fault, ◌>>◌, guard, read, be, get_or, read_lem, read_be_lem,
}
use protable_airplay.Base.Int.{ℤ, pos, negsuc, ◌+ℤ◌, ◌-ℤ◌, ltb_ℤ, quot, signed64, sub64}
use protable_airplay.Ntp.{
  Timestamp, NtpSync, read_time, from_us, diff_us, is_reply, warn_invalid, same_time, or_zero,
  take_sample, round_trip, is_implausible, is_better, process_packet,
}

-- The time stamp that eight bytes spell
abbrev pub time_at : List ℕ → ℕ → Timestamp
time_at bs i = record { seconds = be bs i 4; fraction = be bs (i + 4) 4 }

read_time_lem : (bs : List ℕ) (i : ℕ) → i + 8 ≤ length bs → read_time bs i ≡ ok (time_at bs i)
unfolding read_time
read_time_lem bs i h = rw (read_be_lem bs i 4 (omega arith), read_be_lem bs (i + 4) 4 (omega arith))

-- A packet of at least 32 bytes with the version and the type of a reply
abbrev pub looks_like_reply : List ℕ → Bool
looks_like_reply bs = leb 32 (length bs) && (get_or bs 0 0 / 64 == 2 && get_or bs 1 0 % 128 == 0x53)

keep_if : Bool → Bool → Bool → NtpSync → Result NtpSync
keep_if a b c s = if a && (b && c) then ok s else fail

-- A sample is acceptable if it answers the pending request and its delays are plausible. It counts
-- with half the sum of the offsets at the two ends of the exchange.
pub judged : NtpSync → Bool → Timestamp → Timestamp → Timestamp → ℕ → Result NtpSync
judged s looks origin received sent now =
    let processing = diff_us received sent in
    let rtt = round_trip s now processing in
    keep_if (looks && s.request_pending) (same_time origin s.request_time)
      (not (is_implausible processing rtt))
      (take_sample s (or_zero rtt) (quot (diff_us origin received +ℤ diff_us (from_us now) sent) 2)
        now)

is_reply_lem :
    (s : NtpSync) (bs : List ℕ) → is_reply s bs ≡ ok (looks_like_reply bs && s.request_pending)
unfolding is_reply
is_reply_lem s bs = elim (Bool-cases (ltb (length bs) 32)) [
  | inl e ↦ rw e (ap ok (ground arith))
  | inr e ↦
      rw (e, read_lem bs 0 (ground arith), read_lem bs 1 (ground arith)) (ap ok (ground arith))
]

warn_invalid_lem : (bs : List ℕ) → 2 ≤ length bs → warn_invalid bs ≡ fail
unfolding warn_invalid
warn_invalid_lem bs h = rw (read_lem bs 0 (omega arith), read_lem bs 1 (omega arith))

two_guards :
    {A : Type 0} (a b : Bool) (m : Result A)
    → (guard a >> (guard (not b) >> m)) ≡ (if a && not b then m else fail)
two_guards false b m = refl
two_guards true false m = refl
two_guards true true m = refl

pub process_packet-judged :
    (s : NtpSync) (bs : List ℕ) (now : ℕ)
    → 2 ≤ length bs
    → process_packet s bs now
      ≡ judged s (looks_like_reply bs) (time_at bs 8) (time_at bs 16) (time_at bs 24) now
unfolding process_packet judged keep_if
process_packet-judged s bs now h =
    rw (is_reply_lem s bs) (elim (Bool-cases (looks_like_reply bs && s.request_pending)) [
      | inl e ↦
          simp
            (
              e,
              read_time_lem bs 8 (ground arith),
              read_time_lem bs 16 (ground arith),
              read_time_lem bs 24 (ground arith),
            )
            (two_guards (same_time (time_at bs 8) s.request_time)
              (is_implausible (diff_us (time_at bs 16) (time_at bs 24))
                (round_trip s now (diff_us (time_at bs 16) (time_at bs 24))))
              _)
      | inr e ↦ simp (e, warn_invalid_lem bs h)
    ])

-- A processing time of the peer that is not negative, and a round trip of -2 to 500000 microseconds
abbrev pub is_timely : ℤ → ℤ → Bool
is_timely (pos n) (pos m) = leb m 500000
is_timely (pos n) (negsuc m) = leb m 1
is_timely (negsuc n) rtt = false

abbrev pub at_least_zero : ℤ → ℤ
at_least_zero (pos n) = pos n
at_least_zero (negsuc n) = pos 0

-- The state behind an accepted reply. The reference is replaced by the sample if there is none yet, if the
-- sample's round trip is at most 500 microseconds longer, or if the reference is older than ten seconds.
abbrev pub sampled : NtpSync → ℤ → ℤ → ℕ → NtpSync
sampled s rtt offset now =
    let better =
      not s.synchronized
      || (not (ltb_ℤ (s.rtt_us +ℤ pos 500) rtt) || ltb 10000000 (sub64 now s.best_sample_us)) in
    record s {
      request_pending = false;
      samples = (s.samples + 1) % 2 ^ 32;
      clock_offset_us = if better then offset else s.clock_offset_us;
      rtt_us = if better then rtt else s.rtt_us;
      best_sample_us = if better then now else s.best_sample_us;
      synchronized = better || s.synchronized;
    }

-- What a datagram should do: the times of the four ends of the exchange are that of the request, which the reply
-- returns, those of the peer at bytes 16 and 24, and the present.
abbrev pub judged_reply : NtpSync → List ℕ → ℕ → Result NtpSync
judged_reply s bs now =
    let origin = time_at bs 8 in
    let received = time_at bs 16 in
    let sent = time_at bs 24 in
    let rtt = signed64 (sub64 now s.request_local_us) -ℤ diff_us received sent in
    if looks_like_reply bs
      && (s.request_pending
          && (origin.seconds == s.request_time.seconds
              && (origin.fraction == s.request_time.fraction
                  && is_timely (diff_us received sent) rtt)))
    then ok (
        sampled s (at_least_zero rtt)
          (quot (diff_us origin received +ℤ diff_us (from_us now) sent) 2) now)
    else fail

keep_if_lem :
    (a b c d e : Bool) (s : NtpSync)
    → keep_if (a && b) (c && d) e s ≡ (if a && (b && (c && (d && e))) then ok s else fail)
unfolding keep_if
keep_if_lem false b c d e s = refl
keep_if_lem true false c d e s = refl
keep_if_lem true true false d e s = refl
keep_if_lem true true true false e s = refl
keep_if_lem true true true true e s = refl

is_implausible-is_timely : (p r : ℤ) → not (is_implausible p r) ≡ is_timely p r
is_implausible-is_timely (pos n) (pos m) = ground arith
is_implausible-is_timely (pos n) (negsuc m) = ground arith
is_implausible-is_timely (negsuc n) r = ground arith

or_zero-at_least_zero : (r : ℤ) → or_zero r ≡ at_least_zero r
or_zero-at_least_zero (pos n) = refl
or_zero-at_least_zero (negsuc n) = refl

take_sample-sampled :
    (s : NtpSync) (rtt offset : ℤ) (now : ℕ)
    → take_sample s rtt offset now ≡ sampled s rtt offset now
unfolding take_sample
take_sample-sampled s rtt offset now = elim (Bool-cases (is_better s rtt now)) [
  | inl e ↦ rw e refl
  | inr e ↦ rw e refl
]

-- On a datagram of at least two bytes `ntp_sync_process_packet` reads inside it. It accepts exactly a
-- reply of at least 32 bytes, with a request pending whose time it returns, a processing time of the
-- peer that is not negative and a round trip of -2 to 500000 microseconds. The request is then answered
-- and the sample counted; and the sample becomes the reference, with the halved sum of the two offsets
-- and a negative round trip counted as 0, if there was no reference, if its round trip is at most 500
-- microseconds longer, or if the reference is older than ten seconds.
pub process_packet_lem :
    (s : NtpSync) (bs : List ℕ) (now : ℕ)
    → 2 ≤ length bs
    → process_packet s bs now ≡ judged_reply s bs now
unfolding judged
process_packet_lem s bs now h =
    process_packet-judged s bs now h
    ∙ rw
        (
          is_implausible-is_timely processing (round_trip s now processing),
          or_zero-at_least_zero (round_trip s now processing),
          take_sample-sampled s (at_least_zero (round_trip s now processing))
              (quot
                (diff_us (time_at bs 8) (time_at bs 16) +ℤ diff_us (from_us now) (time_at bs 24)) 2)
              now,
        )
        (keep_if_lem (looks_like_reply bs) s.request_pending (be bs 8 4 == s.request_time.seconds)
          (be bs 12 4 == s.request_time.fraction) _ _)
  where
    processing : ℤ
    processing = diff_us (time_at bs 16) (time_at bs 24)

-- The warning on a packet that is no reply reads two bytes of it: on an empty datagram, or one of a
-- single byte, `ntp_sync_process_packet` reads past its end.
pub process_packet-short :
    (s : NtpSync) (bs : List ℕ) (now : ℕ) → length bs < 2 → process_packet s bs now ≡ fault
unfolding process_packet is_reply warn_invalid read
process_packet-short s [] now h = refl
process_packet-short s (x ∷ []) now h = refl
process_packet-short s (x ∷ y ∷ bs) now h = absurd (omega arith)

take_sample-pending :
    (s : NtpSync) (rtt offset : ℤ) (now : ℕ)
    → (take_sample s rtt offset now).request_pending ≡ false
unfolding take_sample
take_sample-pending s rtt offset now = ground arith

pending_of : Result NtpSync → Bool
pending_of (ok t) = t.request_pending
pending_of fail = false
pending_of fault = false

pending-keep_if :
    (a b c : Bool) (t : NtpSync) → t.request_pending ≡ false → pending_of (keep_if a b c t) ≡ false
unfolding pending_of keep_if
pending-keep_if false b c t h = refl
pending-keep_if true false c t h = refl
pending-keep_if true true false t h = refl
pending-keep_if true true true t h = h

judged-pending :
    (s s' : NtpSync) (looks : Bool) (o r u : Timestamp) (now : ℕ)
    → judged s looks o r u now ≡ ok s'
    → s'.request_pending ≡ false
unfolding judged pending_of
judged-pending s s' looks o r u now e =
    sym (ap pending_of e) ∙ pending-keep_if _ _ _ _ (take_sample-pending s _ _ now)

judged_idle :
    (s : NtpSync) (looks : Bool) (o r u : Timestamp) (now : ℕ)
    → s.request_pending ≡ false
    → judged s looks o r u now ≡ fail
unfolding judged keep_if
judged_idle s false o r u now e = refl
judged_idle s true o r u now e = simp e

pub judged_other :
    (s : NtpSync) (looks : Bool) (o r u : Timestamp) (now : ℕ)
    → same_time o s.request_time ≡ false
    → judged s looks o r u now ≡ fail
unfolding judged keep_if
judged_other s false o r u now e = refl
judged_other s true o r u now e = elim (Bool-cases s.request_pending) [
  | inl f ↦ simp (f, e)
  | inr f ↦ simp f
]

-- An accepted reply answers the request for good: until the next request every packet of at least two
-- bytes is refused, a copy of that reply too.
pub process_packet-once :
    (s s' : NtpSync) (bs again : List ℕ) (now later : ℕ)
    → 2 ≤ length bs
    → process_packet s bs now ≡ ok s'
    → 2 ≤ length again
    → process_packet s' again later ≡ fail
process_packet-once s s' bs again now later h e k =
    process_packet-judged s' again later k
    ∙ judged_idle s' _ _ _ _ later
        (judged-pending s s' _ _ _ _ now (sym (process_packet-judged s bs now h) ∙ e))
