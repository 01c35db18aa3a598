-- ===== src/Rtsp/Serving.antt =====
-- The loop over the requests of one client in shared/protocol/rtsp.c.
use protable_airplay.Base.{
  ℕ, zero, suc, ◌≤◌, ◌<◌, ◌≡◌, refl, inl, inr, Bool, true, false, ◌||◌, not, Option, none, some,
  List, [], ◌∷◌, length, drop, get_or, set, arith, Bool-cases, length-drop, Result, Yields, yields,
  Yields-mono, Yields-bind, Yields-recover,
}
use protable_airplay.Rtsp.{Request}
use protable_airplay.Rtsp.Bounds.{Parsed, parse_request-Returns}
use protable_airplay.Rtsp.Server.{
  Client, Instance, Handlers, client_at, no_client, owns, release, handle_request, close_client,
  crosses, Turn, waits, hangs_up, goes_on, answered, turn, continue, serve_loop, serve,
}

module _ {P V W : Type 0} (h : Handlers P V W) where
  -- The client is gone and does not own the stream.
  pub record Closed (i : ℕ) (s : Instance P V W) : Type 0 where
    pub disconnected : (client_at h i s).socket ≡ false
    pub in_clear : (client_at h i s).encrypted ≡ false
    pub released : owns h i s.owner ≡ false

  get_or-set :
      (cs : List (Client P)) (i : ℕ) (c : Client P)
      → c.socket ≡ false
      → c.encrypted ≡ false
      → ((get_or (set cs i c) i (no_client h)).socket ≡ false)
        × ((get_or (set cs i c) i (no_client h)).encrypted ≡ false)
  get_or-set [] i c e f = (refl, refl)
  get_or-set (a ∷ cs) zero c e f = (e, f)
  get_or-set (a ∷ cs) (suc i) c e f = get_or-set cs i c e f

  release_lem : (i : ℕ) (s : Instance P V W) → owns h i (release h i s).owner ≡ false
  unfolding release
  release_lem i s = elim (Bool-cases (owns h i s.owner)) [ inl e ↦ rw e refl | inr e ↦ simp e refl ]

  close_client-Closed : (i : ℕ) (s : Instance P V W) → Closed i (close_client h i s)
  unfolding close_client
  close_client-Closed i s = record {
    disconnected = (get_or-set (release h i s).clients i _ refl refl).0;
    in_clear = (get_or-set (release h i s).clients i _ refl refl).1;
    released = release_lem i s;
  }

  -- A round takes a request off, or waits, or ends with the client gone.
  abbrev pub Turned : ℕ → List ℕ → Turn P V W → Type 0
  Turned i bs waits = Unit {0}
  Turned i bs (hangs_up s) = Closed i s
  Turned i bs (goes_on s rest) = length rest < length bs

  answered-Turned :
      (i : ℕ) (s : Instance P V W) (bs : List ℕ) (parsed : Option (Request × ℕ))
      → Parsed bs parsed
      → Turned i bs (answered h i s bs parsed)
  answered-Turned i s bs none d = tt
  answered-Turned i s bs (some (r, n)) d =
      elim (Bool-cases
        (not (handle_request h i r s).0 || crosses h i s (handle_request h i r s).1 (drop n bs))) [
          | inl e ↦ rw e (close_client-Closed i _)
          | inr e ↦ rw e (omega (arith, length-drop n bs, d.progress, d.inside))
        ]

  pub turn-Yields :
      (i : ℕ) (s : Instance P V W) (bs : List ℕ) → Yields (Turned i bs) (turn h i s bs)
  unfolding turn
  turn-Yields i s bs =
      Yields-recover (Parsed bs) (Turned i bs) _ _ _ (parse_request-Returns bs)
        (close_client-Closed i _) λ parsed d. yields _ (answered-Turned i s bs parsed d)

  -- What is left is no longer than what was there, or the client is gone.
  abbrev pub Served : ℕ → List ℕ → Bool × Instance P V W × List ℕ → Type 0
  Served i bs (true, s, rest) = length rest ≤ length bs
  Served i bs (false, s, rest) = Closed i s × (rest ≡ [])

  Served-mono :
      (i : ℕ) (bs rest : List ℕ) (r : Bool × Instance P V W × List ℕ)
      → length rest < length bs
      → Served i rest r
      → Served i bs r
  Served-mono i bs rest (true, s, left) h d = omega arith
  Served-mono i bs rest (false, s, left) h d = d

  continue-Yields :
      (i : ℕ) (loop : Instance P V W → List ℕ → Result (Bool × Instance P V W × List ℕ))
      (s : Instance P V W) (bs : List ℕ) (t : Turn P V W)
      → Turned i bs t
      → ((s' : Instance P V W) (rest : List ℕ)
          → length rest < length bs
          → Yields (Served i rest) (loop s' rest))
      → Yields (Served i bs) (continue h loop s bs t)
  continue-Yields i loop s bs waits d k = yields _ (omega arith)
  continue-Yields i loop s bs (hangs_up s') d k = yields _ (d, refl)
  continue-Yields i loop s bs (goes_on s' rest) d k =
      Yields-mono (Served i rest) (Served i bs) _ (k s' rest d) λ r e. Served-mono i bs rest r d e

  serve_loop-Yields :
      (steps i : ℕ) (s : Instance P V W) (bs : List ℕ)
      → length bs ≤ steps
      → Yields (Served i bs) (serve_loop h steps i s bs)
  unfolding serve_loop
  serve_loop-Yields steps i s [] k = yields _ (omega arith)
  serve_loop-Yields zero i s (b ∷ bs) k = absurd (omega arith)
  serve_loop-Yields (suc steps) i s (b ∷ bs) k =
      Yields-bind (Turned i (b ∷ bs)) (Served i (b ∷ bs)) _ _ (turn-Yields i s (b ∷ bs)) λ t d.
        continue-Yields i _ s (b ∷ bs) t d
          λ s' rest e. serve_loop-Yields steps i s' rest (omega (arith, e))

  -- Whatever the bytes and the handlers, the loop over the requests in a receive buffer ends, without a
  -- fault. If it returns 1, no more bytes are left than there were. If it returns 0, the client has been dropped:
  -- it is disconnected, not encrypted and not the owner of the stream, and the buffer is empty.
  pub serve-Yields :
      (i : ℕ) (s : Instance P V W) (bs : List ℕ) → Yields (Served i bs) (serve h i s bs)
  unfolding serve
  serve-Yields i s bs = serve_loop-Yields (length bs) i s bs (omega arith)
