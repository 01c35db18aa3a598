-- ===== src/Pipeline/Progress.antt =====
-- What the rounds of shared/audio/audio_pipeline.c may do to a pipeline.
use mathlib.Core.List.{Perm}
use mathlib.Core.List.Perm
use protable_airplay.Base.{
  ℕ, suc, ◌^◌, ◌≤◌, ◌<◌, ◌≡◌, sym, subst, ◌∙◌, Option, none, some, List, [], ◌∷◌, ◌++◌, length, All,
  Result, IsWithin, arith, Yields,
}
use protable_airplay.Base.Int.{ℤ, neg_part, signed64, sub64}
use protable_airplay.Playout.{Playout, Slot}
use protable_airplay.Playout.Contents.{contents, entry, Entry}
use protable_airplay.Playout.Invariant.{IsValid}
use protable_airplay.Ptp.{Ptp, Anchor}
use protable_airplay.Ntp.{NtpSync}
use protable_airplay.Codec.Sizes.{Fits}
use protable_airplay.Pipeline.{Pipeline, Session, Externals, max_audio_buffer_samples}
use protable_airplay.Pipeline.Kept.{Kept}
use protable_airplay.Pipeline.Play.{Reading, listed}
use protable_airplay.Pipeline.Playing.{WentOn}

-- The clocks that a deadline is computed from
abbrev pub Clocks : Type 0
Clocks = Ptp × Anchor × NtpSync × Session × ℕ

abbrev pub clocks : {L H V : Type 0} → Pipeline L H V → Clocks
clocks p = (p.ptp, p.anchor, p.ntp_sync, p.session, p.first_arrival_us)

-- A reading of the platform: times below 2 ^ 60 microseconds, and a delay that fits an int
pub record IsReading (r : Reading) : Type 0 where
  pub now_bound : r.now < 2 ^ 60
  pub later_bound : r.later < 2 ^ 60
  pub delay_bound : IsWithin (2 ^ 31) r.delay

-- A deadline is no longer ago than 2 ^ 62 microseconds.
abbrev pub IsRecent : ℕ → Option ℕ → Type 0
IsRecent now none = Unit {0}
IsRecent now (some d) = neg_part (signed64 (sub64 d now)) ≤ 2 ^ 62

module _ {L H V : Type 0} (x : Externals L H V) where
  -- What the loop asks of `get_deadline`, for the clocks in `Ok`: it returns, and changes nothing that matters.
  abbrev pub Resolves :
      (Clocks → Type 0) → (Pipeline L H V → ℕ → ℕ → ℕ → Result (Pipeline L H V × Option ℕ)) → Type 0
  Resolves Ok deadline =
      (p : Pipeline L H V) (timestamp : ℕ) (r : Reading)
      → Ok (clocks p)
      → IsReading r
      → Yields (λ a. Kept p a.0 × IsRecent r.now a.1) (deadline p timestamp r.now r.later)

  -- What rounds leave as it is
  pub record Same (p q : Pipeline L H V) : Type 0 where
    pub session : q.session ≡ p.session
    pub state : q.state ≡ p.state
    pub buffered : q.buffered ≡ p.buffered
    pub configured : q.configured ≡ p.configured
    pub clock : clocks q ≡ clocks p
    pub timing_peer : q.timing_peer ≡ p.timing_peer

  pub Same-trans : (p q r : Pipeline L H V) → Same p q → Same q r → Same p r
  Same-trans p q r a b = record {
    session = b.session ∙ a.session;
    state = b.state ∙ a.state;
    buffered = b.buffered ∙ a.buffered;
    configured = b.configured ∙ a.configured;
    clock = b.clock ∙ a.clock;
    timing_peer = b.timing_peer ∙ a.timing_peer;
  }

  clocks-eq :
      (p q : Pipeline L H V)
      → q.ptp ≡ p.ptp
      → q.anchor ≡ p.anchor
      → q.ntp_sync ≡ p.ntp_sync
      → q.session ≡ p.session
      → q.first_arrival_us ≡ p.first_arrival_us
      → clocks q ≡ clocks p
  clocks-eq p q a b c d e = λ i. (a i, b i, c i, d i, e i)

  pub Kept-Same : (p q : Pipeline L H V) → Kept p q → Same p q
  Kept-Same p q k = record {
    session = k.session;
    state = k.state;
    buffered = k.buffered;
    configured = k.configured;
    clock = clocks-eq p q k.ptp k.anchor k.ntp_sync k.session k.first_arrival;
    timing_peer = k.timing_peer;
  }

  pub WentOn-Same :
      (p q : Pipeline L H V) (j : ℕ) (s : Slot) (margin : ℤ) (output : Option (List ℤ))
      → WentOn x p j s margin q output
      → Same p q
  WentOn-Same p q j s margin output w = record {
    session = w.kept.0;
    state = w.kept.1;
    buffered = w.kept.2;
    configured = w.kept.3;
    clock = clocks-eq p q w.kept.4 w.kept.5 w.kept.6 w.kept.0 w.kept.8;
    timing_peer = w.kept.7;
  }

  -- Some audio, of at most 2048 samples
  abbrev pub IsOutput : List ℤ → Type 0
  IsOutput out = (0 < length out) × (length out ≤ max_audio_buffer_samples)

  -- What at most `n` rounds do: they take at most `n` packets out of the queue, give at most one output for each, and
  -- leave the rest as it is.
  pub record Progress (n : ℕ) (p q : Pipeline L H V) (outputs : List (List ℤ)) : Type 0 where
    pub taken : List Entry
    pub split : Perm (contents p.playout.packets) (taken ++ contents q.playout.packets)
    pub few : length taken ≤ n
    pub heard : length outputs ≤ length taken
    pub sound : All IsOutput outputs
    pub valid : IsValid q.playout
    pub same : Same p q

  pub nothing_yet :
      (n : ℕ) (p q : Pipeline L H V)
      → IsValid p.playout
      → q.playout ≡ p.playout
      → Same p q
      → Progress n p q []
  nothing_yet n p q v e k = record {
    taken = [];
    split =
        subst (λ (t : Playout). Perm (contents p.playout.packets) (contents t.packets)) (sym e)
          (Perm.refl _);
    few = omega arith;
    heard = omega arith;
    sound = tt;
    valid = subst (λ (t : Playout). IsValid t) (sym e) v;
    same = k;
  }

  listed-IsOutput :
      (o : Option (List ℤ)) (rest : List (List ℤ))
      → Fits max_audio_buffer_samples o
      → All IsOutput rest
      → All IsOutput (listed o ++ rest)
  listed-IsOutput none rest f h = h
  listed-IsOutput (some out) rest f h = (f, h)

  length-listed :
      (o : Option (List ℤ)) (rest : List (List ℤ)) → length (listed o ++ rest) ≤ suc (length rest)
  length-listed none rest = omega arith
  length-listed (some out) rest = omega arith

  pub one_more :
      (n : ℕ) (p q r : Pipeline L H V) (j : ℕ) (s : Slot) (margin : ℤ) (output : Option (List ℤ))
      (outputs : List (List ℤ))
      → WentOn x p j s margin q output
      → Progress n q r outputs
      → Progress (suc n) p r (listed output ++ outputs)
  one_more n p q r j s margin output outputs w g = record {
    taken = entry s ∷ g.taken;
    split = Perm.trans w.removed (Perm.cons (entry s) g.split);
    few = omega (arith, g.few);
    heard = omega (arith, g.heard, length-listed output outputs);
    sound = listed-IsOutput output outputs w.fits g.sound;
    valid = g.valid;
    same = Same-trans p q r (WentOn-Same p q j s margin output w) g.same;
  }

  pub Kept-Progress :
      (n : ℕ) (p p' q : Pipeline L H V) (outputs : List (List ℤ))
      → Kept p p'
      → Progress n p' q outputs
      → Progress n p q outputs
  Kept-Progress n p p' q outputs k g = record {
    taken = g.taken;
    split =
        subst (λ (t : Playout). Perm (contents t.packets) (g.taken ++ contents q.playout.packets))
          k.playout g.split;
    few = g.few;
    heard = g.heard;
    sound = g.sound;
    valid = g.valid;
    same = Same-trans p p' q (Kept-Same p p' k) g.same;
  }
