-- ===== src/Playout/Boundary.antt =====
-- What the queue of shared/audio/playout.c keeps out: packets already played, and packets before the
-- timestamp of the last RECORD or FLUSH.
use protable_airplay.Base.{
  ℕ, ◌+◌, ◌%◌, ◌^◌, ◌<◌, ◌≡◌, ◌≢◌, refl, sym, subst, ◌∙◌, ◌⊎◌, inl, inr, Bool, true, false, none,
  some, List, [], ◌∷◌, arith, get_elem?, All, Bool-cases,
}
use protable_airplay.Base.Int.{sub16, sub32}
use protable_airplay.Rtp.{RtpPacket}
use protable_airplay.Playout.{
  Playout, Slot, accepted, Scan, vacant, duplicate, filled, push, pop, place, scan, store, reset,
  set_floor, below_floor, is_behind,
}
use protable_airplay.Playout.Contents.{All-set, All-map-clear, used-set-clear}
use protable_airplay.Playout.Invariant.{IsValid}
use protable_airplay.Playout.Peek.{Popped, pop-Popped}
use protable_airplay.Playout.Push.{Pushed, push-Pushed, verdict, is_stale}

near_behind :
    (q : Playout) (p : RtpPacket) (x : ℕ)
    → x < 2 ^ 16
    → p.header.sequence < 2 ^ 16
    → sub16 x p.header.sequence < 2 ^ 15
    → q.next_sequence ≡ (x + 1) % 2 ^ 16
    → is_behind q p ≡ true
unfolding is_behind
near_behind q p x hx hp near e = ground arith

played :
    (q : Playout) (p : RtpPacket)
    → q.have_sequence ≡ true
    → q.started ≡ true
    → is_behind q p ≡ true
    → is_stale q p ≡ true
played q p a b c = simp (a, b, c)

stale-ne-accepted : (q : Playout) (p : RtpPacket) → is_stale q p ≡ true → verdict q p ≢ accepted
unfolding verdict
stale-ne-accepted q p o h = ground arith

-- Once the packet of slot `j` is popped, a packet with its sequence number or one of the 32767 before
-- it is not accepted, and changes nothing.
pub pop-push_stale :
    (q rest : Playout) (j : ℕ) (s : Slot) (p : RtpPacket)
    → IsValid q
    → get_elem? q.packets j ≡ some s
    → s.valid ≡ true
    → s.header.sequence < 2 ^ 16
    → pop q j ≡ some rest
    → p.header.sequence < 2 ^ 16
    → sub16 s.header.sequence p.header.sequence < 2 ^ 15
    → ((push rest p).0 ≢ accepted) × ((push rest p).1 ≡ rest)
pop-push_stale q rest j s p v g w hs e hp near =
    ((λ h. not_accepted (sym pushed.status ∙ h)), pushed.kept not_accepted)
  where
    popped : Popped q j s (pop q j)
    popped = pop-Popped q j s v g w

    same : popped.rest ≡ rest
    same = ground (arith, popped.returned)

    known : q.have_sequence ≡ true
    known = elim (Bool-cases q.have_sequence) [
      | inl h ↦ h
      | inr h ↦ absurd (omega (arith, v.known h, used-set-clear q.packets j s g w))
    ]

    pushed : Pushed rest p (verdict rest p) (push rest p)
    pushed = push-Pushed rest p (subst IsValid same popped.valid) hp

    stale : is_stale rest p ≡ true
    stale =
        played rest p (subst (λ r. r.have_sequence ≡ true) same (popped.begun.1 ∙ known))
          (subst (λ r. r.started ≡ true) same popped.begun.0)
          (near_behind rest p s.header.sequence hs hp near
            (subst (λ r. r.next_sequence ≡ (s.header.sequence + 1) % 2 ^ 16) same popped.next))

    not_accepted : verdict rest p ≢ accepted
    not_accepted = stale-ne-accepted rest p stale

-- A packet at or behind the floor, in the sense of `playout_set_floor`: its timestamp is fewer than
-- 2 ^ 31 ahead, and ahead of it at all if the floor is exclusive.
abbrev pub FromFloor : ℕ → Bool → Slot → Type 0
FromFloor floor exclusive s =
    s.valid ≡ true
    → (sub32 s.header.timestamp floor < 2 ^ 31)
      × (exclusive ≡ true → sub32 s.header.timestamp floor ≢ 0)

record Floored (floor : ℕ) (exclusive : Bool) (q : Playout) : Type 0 where
  pub kept : q.have_floor ≡ true
  pub at : q.timestamp_floor ≡ floor
  pub kind : q.floor_exclusive ≡ exclusive
  pub slots : All (FromFloor floor exclusive) q.packets

unfoldable pub pushes : Playout → List RtpPacket → Playout
pushes q [] = q
pushes q (p ∷ ps) = pushes (push q p).1 ps

at_floor :
    (floor : ℕ) (x : Bool) (q : Playout) (p : RtpPacket)
    → below_floor q p ≡ false
    → Floored floor x q
    → (sub32 p.header.timestamp floor < 2 ^ 31) × (x ≡ true → sub32 p.header.timestamp floor ≢ 0)
unfolding below_floor
at_floor floor x q p b f = (ground arith, λ h e. ground arith)

place-Floored :
    (floor : ℕ) (x : Bool) (q : Playout) (p : RtpPacket) (r : Scan)
    → below_floor q p ≡ false
    → Floored floor x q
    → Floored floor x (place q p r).1
unfolding store
place-Floored floor x q p duplicate b f = f
place-Floored floor x q p (vacant none) b f = f
place-Floored floor x q p (vacant (some i)) b f = record {
  kept = f.kept;
  at = f.at;
  kind = f.kind;
  slots =
      All-set (FromFloor floor x) q.packets i (filled p) (λ _. at_floor floor x q p b f) f.slots;
}

push_cases :
    (q : Playout) (p : RtpPacket)
    → ((push q p).1 ≡ q)
      ⊎ ((below_floor q p ≡ false)
          × ((push q p).1 ≡ (place q p (scan q.packets p.header.sequence 0 none)).1))
unfolding push
push_cases q p = ground arith

push-Floored :
    (floor : ℕ) (x : Bool) (q : Playout) (p : RtpPacket)
    → Floored floor x q
    → Floored floor x (push q p).1
push-Floored floor x q p f = elim (push_cases q p) [
  | inl e ↦ subst (Floored floor x) (sym e) f
  | inr (b, e) ↦ subst (Floored floor x) (sym e) (place-Floored floor x q p _ b f)
]

pushes-Floored :
    (floor : ℕ) (x : Bool) (q : Playout) (ps : List RtpPacket)
    → Floored floor x q
    → Floored floor x (pushes q ps)
unfolding pushes
pushes-Floored floor x q [] f = f
pushes-Floored floor x q (p ∷ ps) f =
    pushes-Floored floor x (push q p).1 ps (push-Floored floor x q p f)

-- After `playout_set_floor` and any packets pushed, every packet in the queue lies at or behind the
-- floor: its timestamp is less than 2 ^ 31 ahead of the floor, modulo 2 ^ 32, and differs from it if
-- the floor is exclusive.
pub set_floor-pushes :
    (q : Playout) (floor : ℕ) (x : Bool) (ps : List RtpPacket)
    → All (FromFloor floor x) (pushes (set_floor q floor x) ps).packets
unfolding set_floor reset
set_floor-pushes q floor x ps =
    (pushes-Floored floor x (set_floor q floor x) ps record {
      kept = refl;
      at = refl;
      kind = refl;
      slots = All-map-clear (FromFloor floor x) q.packets (λ s h. cc);
    }).slots
