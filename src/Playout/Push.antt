-- ===== src/Playout/Push.antt =====
-- `playout_push` of shared/audio/playout.c: its result and its effect on every branch.
use mathlib.Core.List.{Perm}
use protable_airplay.Base.{
  ℕ, ◌^◌, ◌<◌, ◌≡◌, ◌≢◌, refl, sym, ◌∙◌, ◌==◌, ltb, inl, inr, Bool, false, ◌&&◌, ◌||◌, some, ◌∷◌,
  arith, length, get_elem?, set, length-set, Bool-cases, if◌then◌else◌,
}
use protable_airplay.Rtp.{RtpPacket}
use protable_airplay.Playout.{
  Playout, Slot, Status, accepted, ignored, refused, playout_packets, playout_payload_bytes, filled,
  store, push, place, Scan, below_floor, is_behind,
}
use protable_airplay.Playout.Contents.{
  contents, used, holds, All-set, used-set_free, Distinct-set_free, used-le-length,
  contents-set_free,
}
use protable_airplay.Playout.Invariant.{IsValid, SlotOk}
use protable_airplay.Playout.Search.{Scanned, scan-Scanned}

abbrev pub bad_length : RtpPacket → Bool
bad_length p = length p.payload == 0 || ltb playout_payload_bytes (length p.payload)

abbrev pub is_stale : Playout → RtpPacket → Bool
is_stale q p = q.have_sequence && q.started && is_behind q p

-- The result of a push, from what the queue holds
unfoldable pub verdict : Playout → RtpPacket → Status
verdict q p =
    if bad_length p
    then refused
    else if below_floor q p || is_stale q p || holds p.header.sequence q.packets
    then ignored
    else if used q.packets == playout_packets
    then refused
    else accepted

pub record Pushed (q : Playout) (p : RtpPacket) (v : Status) (r : Status × Playout) : Type 0 where
  pub status : r.0 ≡ v
  pub added :
      v ≡ accepted → Perm (contents r.1.packets) ((p.header, p.payload) ∷ contents q.packets)
  pub kept : v ≢ accepted → r.1 ≡ q
  pub valid : IsValid r.1

unchanged :
    (q : Playout) (p : RtpPacket) (s v : Status)
    → v ≡ s
    → s ≢ accepted
    → IsValid q
    → Pushed q p v (s, q)
unchanged q p s v e n i = record {
  status = sym e;
  added = λ f. absurd (n (sym e ∙ f));
  kept = λ _. refl;
  valid = i;
}

store-IsValid :
    (q : Playout) (p : RtpPacket) (i : ℕ) (t : Slot)
    → IsValid q
    → p.header.sequence < 2 ^ 16
    → bad_length p ≡ false
    → holds p.header.sequence q.packets ≡ false
    → get_elem? q.packets i ≡ some t
    → t.valid ≡ false
    → IsValid (store q p i)
unfolding store
store-IsValid q p i t v s b h e f = record {
  size = length-set q.packets i (filled p) ∙ v.size;
  counted = omega (
    arith,
    used-set_free (filled p) refl q.packets i t e f,
    used-le-length (set q.packets i (filled p)),
    length-set q.packets i (filled p),
    v.size,
    v.counted,
  );
  distinct = Distinct-set_free (filled p) refl q.packets i t e f h v.distinct;
  slots =
      All-set SlotOk q.packets i (filled p) (λ _. (s, refl, ground arith, ground arith)) v.slots;
  next_in = ground (arith, v.next_in);
  known = λ h. cc;
}

-- A free slot shows that the queue is not full.
used-lt_of_free :
    (q : Playout) (p : RtpPacket) (i : ℕ) (t : Slot)
    → IsValid q
    → get_elem? q.packets i ≡ some t
    → t.valid ≡ false
    → (used q.packets == playout_packets) ≡ false
used-lt_of_free q p i t v e f = ground (
  arith,
  used-set_free (filled p) refl q.packets i t e f,
  used-le-length (set q.packets i (filled p)),
  length-set q.packets i (filled p),
  v.size,
)

place-Pushed :
    (q : Playout) (p : RtpPacket) (r : Scan)
    → IsValid q
    → p.header.sequence < 2 ^ 16
    → bad_length p ≡ false
    → below_floor q p ≡ false
    → is_stale q p ≡ false
    → Scanned q.packets p.header.sequence r
    → Pushed q p (verdict q p) (place q p r)
unfolding verdict store
place-Pushed q p r v s b f o (Scanned.is_duplicate h) =
    unchanged q p ignored _ (simp (b, f, o, h)) (λ e. cc) v
place-Pushed q p r v s b f o (Scanned.is_full h u) =
    unchanged q p refused _ (simp (b, f, o, h, u, v.size)) (λ e. cc) v
place-Pushed q p r v s b f o (Scanned.is_free i t h e g) =
    simp (b, f, o, h, used-lt_of_free q p i t v e g)
      record {
        status = refl;
        added = λ _. contents-set_free (filled p) refl q.packets i t e g;
        kept = λ n. absurd (n refl);
        valid = store-IsValid q p i t v s b h e g;
      }

pub push-Pushed :
    (q : Playout) (p : RtpPacket)
    → IsValid q
    → p.header.sequence < 2 ^ 16
    → Pushed q p (verdict q p) (push q p)
unfolding push
push-Pushed q p v s = elim (Bool-cases (bad_length p)) [
  | inl b ↦ simp b (unchanged q p refused _ (unfold verdict in simp b) (λ e. cc) v)
  | inr b ↦ elim (Bool-cases (below_floor q p)) [
    | inl f ↦ simp (b, f) (unchanged q p ignored _ (unfold verdict in simp (b, f)) (λ e. cc) v)
    | inr f ↦ elim (Bool-cases (is_stale q p)) [
      | inl o ↦
          simp (b, f, o) (unchanged q p ignored _ (unfold verdict in simp (b, f, o)) (λ e. cc) v)
      | inr o ↦
          simp (b, f, o) (place-Pushed q p _ v s b f o (scan-Scanned q.packets p.header.sequence))
    ]
  ]
]
