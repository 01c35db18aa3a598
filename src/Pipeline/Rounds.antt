-- ===== src/Pipeline/Rounds.antt =====
-- The loop of `pipeline_play_ready_packets` in shared/audio/audio_pipeline.c, for any deadline that obeys `Resolves`.
use protable_airplay.Base.{
  ℕ, zero, suc, ◌+◌, ◌≡◌, refl, sym, subst, Bool, true, false, Option, none, some, List, ◌==◌,
  get_elem?, Result, inl, inr, Bool-cases, Yields, yields, Yields-bind, Yields-mono,
}
use protable_airplay.Base.Int.{ℤ, signed64, sub64}
use protable_airplay.Playout.{Slot}
use protable_airplay.Playout.Invariant.{IsValid}
use protable_airplay.Playout.Peek.{peek_lem}
use protable_airplay.Crypto.Bounds.{KeepsLength}
use protable_airplay.Pipeline.{Pipeline, Externals}
use protable_airplay.Pipeline.Packet.{is_playing}
use protable_airplay.Pipeline.Kept.{Kept, Kept-same}
use protable_airplay.Pipeline.Play.{
  Reading, Round, left, failed, went_on, at_deadline, play_round, after_round, play_loop,
}
use protable_airplay.Pipeline.Playing.{WentOn, Scheduled, play_slot-Scheduled}
use protable_airplay.Pipeline.Progress.{
  Clocks, clocks, IsReading, IsRecent, Resolves, Same, Same-trans, Kept-Same, WentOn-Same, Progress,
  nothing_yet, one_more, Kept-Progress,
}

module _ {L H V : Type 0} (x : Externals L H V) where
  -- What a round does, from the queue as the deadline has left it
  abbrev RoundOk : Pipeline L H V → Round L H V → Type 0
  RoundOk p (left q) = Kept p q
  RoundOk p (failed q) = Kept p q
  RoundOk p (went_on q output) =
      (p' : Pipeline L H V) × (j : ℕ) × (s : Slot) × (margin : ℤ) × Kept p p'
      × WentOn x p' j s margin q output

  Scheduled-RoundOk :
      (p p' : Pipeline L H V) (j : ℕ) (s : Slot) (early delay : ℤ) (o : Round L H V)
      → Kept p p'
      → Scheduled x p' j s early delay o
      → RoundOk p o
  Scheduled-RoundOk p p' j s early delay (left q) k h = rw h.0 k
  Scheduled-RoundOk p p' j s early delay (failed q) k h = rw h.0 k
  Scheduled-RoundOk p p' j s early delay (went_on q output) k h = (p', j, s, _, k, h.2)

  at_deadline-Yields :
      (p : Pipeline L H V) (j : ℕ) (s : Slot) (r : Reading) (a : Pipeline L H V × Option ℕ)
      → KeepsLength x.crypto
      → IsReading r
      → IsValid p.playout
      → (p.session.sample_rate == 0) ≡ false
      → get_elem? p.playout.packets j ≡ some s
      → s.valid ≡ true
      → Kept p a.0
      → IsRecent r.now a.1
      → Yields (RoundOk p) (at_deadline x j s r a)
  at_deadline-Yields p j s r (p', none) k i v z g u h d = yields _ h
  at_deadline-Yields p j s r (p', some d) k i v z g u h e =
      Yields-mono _ _ _
        (play_slot-Scheduled x p' j s (signed64 (sub64 d r.now)) r.delay k (rw h.playout v)
          (rw h.playout g) u (rw h.session z) e i.delay_bound)
        (λ o w. Scheduled-RoundOk p p' j s _ _ o h w)

  play_round-Yields :
      (Ok : Clocks → Type 0)
      (deadline : Pipeline L H V → ℕ → ℕ → ℕ → Result (Pipeline L H V × Option ℕ))
      (p : Pipeline L H V) (r : Reading)
      → Resolves x Ok deadline
      → KeepsLength x.crypto
      → IsReading r
      → Ok (clocks p)
      → IsValid p.playout
      → (p.session.sample_rate == 0) ≡ false
      → Yields (RoundOk p) (play_round x deadline p r)
  unfolding play_round
  play_round-Yields Ok deadline p r l k i c v z = elim (peek_lem p.playout) [
    | inl (e, n) ↦ rw e (yields _ (Kept-same p p refl))
    | inr (j, s, e, (g, u, w)) ↦ rw e (
        Yields-bind _ _ _ _ (l p s.header.timestamp r c i)
          λ a (h, d). at_deadline-Yields p j s r a k i v z g u h d)
  ]

  after_round-Yields :
      (n : ℕ) (p : Pipeline L H V) (o : Round L H V)
      (again : Pipeline L H V → Result (Bool × Pipeline L H V × List (List ℤ)))
      → IsValid p.playout
      → RoundOk p o
      → ((q : Pipeline L H V)
          → IsValid q.playout
          → Same x p q
          → Yields (λ r. Progress x n q r.1 r.2) (again q))
      → Yields (λ r. Progress x (suc n) p r.1 r.2) (after_round x o again)
  after_round-Yields n p (left q) again v k h =
      yields _ (nothing_yet x (suc n) p q v k.playout (Kept-Same x p q k))
  after_round-Yields n p (failed q) again v k h =
      yields _ (nothing_yet x (suc n) p q v k.playout (Kept-Same x p q k))
  after_round-Yields n p (went_on q output) again v (p', j, s, m, k, w) h =
      Yields-bind _ _ _ _
        (h q w.valid (Same-trans x p p' q (Kept-Same x p p' k) (WentOn-Same x p' q j s m output w)))
        λ r g.
          yields _
            (Kept-Progress x (suc n) p p' r.1 _ k (one_more x n p' q r.1 j s m output r.2 w g))

  pub play_loop-Progress :
      (Ok : Clocks → Type 0)
      (deadline : Pipeline L H V → ℕ → ℕ → ℕ → Result (Pipeline L H V × Option ℕ)) (n : ℕ)
      (p : Pipeline L H V) (readings : ℕ → Reading) (i : ℕ)
      → Resolves x Ok deadline
      → KeepsLength x.crypto
      → ((m : ℕ) → IsReading (readings m))
      → Ok (clocks p)
      → IsValid p.playout
      → (p.session.sample_rate == 0) ≡ false
      → Yields (λ r. Progress x n p r.1 r.2) (play_loop x n deadline p readings i)
  unfolding play_loop
  play_loop-Progress Ok deadline zero p readings i l k f c v z =
      yields _ (nothing_yet x 0 p p v refl (Kept-Same x p p (Kept-same p p refl)))
  play_loop-Progress Ok deadline (suc n) p readings i l k f c v z =
      elim (Bool-cases (is_playing p.state)) [
        | inr e ↦
            rw e
              (yields _ (nothing_yet x (suc n) p p v refl (Kept-Same x p p (Kept-same p p refl))))
        | inl e ↦ rw e (
            Yields-bind _ _ _ _ (play_round-Yields Ok deadline p (readings i) l k (f i) c v z)
              λ o w. after_round-Yields n p o _ v w λ q u same.
                play_loop-Progress Ok deadline n q readings (i + 1) l k f
                  (subst Ok (sym same.clock) c) u (rw same.session z))
      ]
