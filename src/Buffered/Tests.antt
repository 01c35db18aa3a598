-- ===== src/Buffered/Tests.antt =====
-- Runs of shared/audio/buffered_audio.c, and its theorems at concrete streams.
use protable_airplay.Base.{
  ℕ, ◌≡◌, refl, List, [], ◌∷◌, ◌++◌, replicate, Result, ok, fail, fault, read, read_be, arith, some,
  none, true, false, inl, be, be_loop, length-replicate,
}
use protable_airplay.Rtp.{slice, RtpPacket}
use protable_airplay.Buffered.{
  Buffered, Arrival, nothing_yet, received, peer, no_peer, poll, accept, accept_new, receive_length,
  receive_record, receive, take_arrival, deliver, packet_of, data_size,
}
use protable_airplay.Buffered.Records.{IsValid, Stepped, decode}
use protable_airplay.Buffered.Poll.{Fine}
use protable_airplay.Buffered.Admission.{Sound, poll-Sound, poll-Polled}
use protable_airplay.Buffered.Framing.{polls, polls-Framed, Run, Ran, decode_all}

-- The sender's address
abbrev sender : List ℕ
sender = 49 ∷ 46 ∷ 50 ∷ []

abbrev connected : Buffered
connected = record {
  listener = some 3;
  client = some 4;
  bytes = replicate data_size 0;
  used = 0;
  discard_sequence = 5;
  discarding = true;
}

-- A record with sequence `n` in its last byte and 24 bytes of payload
abbrev wire : ℕ → List ℕ
wire n = 0 ∷ 38 ∷ 0 ∷ 0 ∷ 1 ∷ n ∷ replicate 32 n

-- Two records, cut in the middle of the first length and of the second record
abbrev cut : List Arrival
cut =
    received (0 ∷ [])
    ∷ nothing_yet
    ∷ received (38 ∷ 0 ∷ 0 ∷ 1 ∷ 9 ∷ replicate 32 9 ++ (0 ∷ 38 ∷ 0 ∷ []))
    ∷ received (0 ∷ 1 ∷ 10 ∷ replicate 32 10)
    ∷ []

connected-IsValid : IsValid connected
connected-IsValid = record {
  size = length-replicate {A = ℕ} data_size 0;
  partial = inl (omega arith);
  unused = λ e. cc;
}

closed_state : Buffered
closed_state = record connected { client = none }

closed_state-IsValid : IsValid closed_state
unfolding closed_state
closed_state-IsValid = record {
  size = length-replicate {A = ℕ} data_size 0;
  partial = inl (omega arith);
  unused = λ e. refl;
}

decode_two :
    decode_all false 0 (wire 9 ∷ wire 10 ∷ [])
    ≡ packet_of 265 0x9090909 0x9090909 (replicate 24 9)
      ∷ packet_of 266 0xa0a0a0a 0xa0a0a0a (replicate 24 10)
      ∷ []
unfolding decode_all decode be be_loop
decode_two = refl

-- A boundary at the first record discards it alone.
decode_behind_boundary :
    decode_all true 265 (wire 9 ∷ wire 10 ∷ [])
    ≡ packet_of 266 0xa0a0a0a 0xa0a0a0a (replicate 24 10) ∷ []
unfolding decode_all decode be be_loop
decode_behind_boundary = refl

poll-Sound_example :
    Stepped
      (Sound closed_state sender (peer 7 sender))
      (λ _ _. ⊥)
      (poll closed_state sender cut (peer 7 sender))
poll-Sound_example = poll-Sound closed_state sender cut (peer 7 sender) closed_state-IsValid

poll-Polled_example : Stepped (Fine connected cut) (λ _ _. ⊥) (poll connected sender cut no_peer)
poll-Polled_example = poll-Polled connected sender cut no_peer connected-IsValid (λ e. cc)

polls-Framed_example : (r : Run) × (polls 6 connected sender cut ≡ ok r) × Ran connected cut r
polls-Framed_example = polls-Framed 6 connected sender cut connected-IsValid (λ e. cc)

delivered_of : Result Run → List RtpPacket
delivered_of (ok (b, s, ps)) = ps
delivered_of fail = []
delivered_of fault = []

polls_run : delivered_of (polls 6 connected sender cut) ≡ decode_all true 5 (wire 9 ∷ wire 10 ∷ [])
unfolding polls decode_all decode be be_loop poll accept accept_new receive_length receive_record
    receive take_arrival deliver read_be read slice delivered_of
polls_run = refl
