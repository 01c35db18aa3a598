-- ===== src/Rtsp/Framing.antt =====
-- How `parse_request` of shared/protocol/rtsp.c finds requests in a stream that arrives in pieces.
use protable_airplay.Base.{
  ℕ, ◌+◌, ◌-◌, ◌≤◌, ◌<◌, ◌≡◌, ◌≢◌, refl, inl, inr, true, false, ◌||◌, not, Option, none, some, List,
  [], ◌∷◌, ◌++◌, ltb, ◌==◌, if◌then◌else◌, length, take, drop, arith, Bool-cases, length-append,
  length-drop, take-append_left, drop-append_left, le→ltb_false, Result, ok, fail, fault, ◌>>=◌,
  ◌>>◌, guard,
}
use protable_airplay.Rtsp.{
  rtsp_rx_buffer_size, is_blank_line, headers_end, Request, Parse, parse_start, lines, complete,
  parse_request,
}

blank_line-long : (bs : List ℕ) → is_blank_line bs ≡ true → 4 ≤ length bs
blank_line-long [] h = cc
blank_line-long (a ∷ []) h = cc
blank_line-long (a ∷ b ∷ []) h = cc
blank_line-long (a ∷ b ∷ c ∷ []) h = cc
blank_line-long (a ∷ b ∷ c ∷ d ∷ bs) h = omega arith

blank_line-append :
    (bs more : List ℕ) → 4 ≤ length bs → is_blank_line (bs ++ more) ≡ is_blank_line bs
blank_line-append [] more h = absurd (omega arith)
blank_line-append (a ∷ []) more h = absurd (omega arith)
blank_line-append (a ∷ b ∷ []) more h = absurd (omega arith)
blank_line-append (a ∷ b ∷ c ∷ []) more h = absurd (omega arith)
blank_line-append (a ∷ b ∷ c ∷ d ∷ bs) more h = refl

-- The end of the headers lies in the buffer, four bytes behind their start at least.
pub headers_end_lem :
    (bs : List ℕ) → 0 < headers_end bs → (4 ≤ headers_end bs) × (headers_end bs ≤ length bs)
unfolding headers_end
headers_end_lem [] h = absurd (omega arith)
headers_end_lem (a ∷ bs) h = elim (Bool-cases (is_blank_line (a ∷ bs))) [
  | inl e ↦ rw e (omega arith, blank_line-long (a ∷ bs) e)
  | inr e ↦ elim (Bool-cases (headers_end bs == 0)) [
    | inl f ↦ absurd (ground arith)
    | inr f ↦
        let ih = headers_end_lem bs (ground arith) in
        rw (e, f) (omega (arith, ih), omega (arith, ih))
  ]
]

headers_end-append :
    (bs more : List ℕ) → 0 < headers_end bs → headers_end (bs ++ more) ≡ headers_end bs
unfolding headers_end
headers_end-append [] more h = absurd (omega arith)
headers_end-append (a ∷ bs) more h = elim (Bool-cases (is_blank_line (a ∷ bs))) [
  | inl e ↦ rw (blank_line-append (a ∷ bs) more (blank_line-long (a ∷ bs) e), e) refl
  | inr e ↦ elim (Bool-cases (headers_end bs == 0)) [
    | inl f ↦ absurd (ground arith)
    | inr f ↦
        rw
          (
            blank_line-append (a ∷ bs) more (omega (arith, headers_end_lem bs (ground arith))),
            headers_end-append bs more (ground arith),
          )
          refl
  ]
]

-- What follows the headers, if they are complete
abbrev pub concluded : List ℕ → ℕ → Parse → Result (Option (Request × ℕ))
concluded bs n p =
    guard (not (p.first_line || ltb (rtsp_rx_buffer_size - n) p.content_length))
    >> (if ltb (length bs - n) p.content_length
        then ok none
        else ok (
            some (
              record p.request { body = take p.content_length (drop n bs) },
              n + p.content_length,
            )))

concluded-append :
    (bs more : List ℕ) (n : ℕ) (p : Parse)
    → n ≤ length bs
    → concluded bs n p ≢ ok none
    → concluded (bs ++ more) n p ≡ concluded bs n p
concluded-append bs more n p h k =
    elim (Bool-cases (not (p.first_line || ltb (rtsp_rx_buffer_size - n) p.content_length))) [
      | inl e ↦ elim (Bool-cases (ltb (length bs - n) p.content_length)) [
        | inl f ↦ absurd (k (rw (e, f) refl))
        | inr f ↦
            rw
              (
                e,
                f,
                le→ltb_false (length (bs ++ more) - n) p.content_length
                    (ground (arith, length-append bs more)),
                drop-append_left n bs more h,
                take-append_left p.content_length (drop n bs) more
                    (ground (arith, length-drop n bs)),
              )
              refl
      ]
      | inr e ↦ rw e refl
    ]

complete-append :
    (bs more : List ℕ) (n : ℕ)
    → n ≤ length bs
    → complete bs n ≢ ok none
    → complete (bs ++ more) n ≡ complete bs n
unfolding complete
complete-append bs more n h k =
    rw (take-append_left n bs more h) (go _ (lines n (take n bs) parse_start) k)
  where
    go :
        (g : Result (Unit {0})) (m : Result Parse)
        → (g >> (m >>= concluded bs n)) ≢ ok none
        → (g >> (m >>= concluded (bs ++ more) n)) ≡ (g >> (m >>= concluded bs n))
    go (ok u) (ok p) k = concluded-append bs more n p h k
    go (ok u) fail k = refl
    go (ok u) fault k = refl
    go fail m k = refl
    go fault m k = refl

-- Bytes that come behind a whole request, or behind one that is refused, change nothing: what
-- `parse_request` returns on a part of the stream that does not fill the buffer is final as soon as it is
-- not 0, so the requests found do not depend on the pieces in which the stream arrives.
pub parse_request-append :
    (bs more : List ℕ)
    → length bs < rtsp_rx_buffer_size
    → parse_request bs ≢ ok none
    → parse_request (bs ++ more) ≡ parse_request bs
unfolding parse_request
parse_request-append bs more h k = elim (Bool-cases (headers_end bs == 0)) [
  | inl e ↦ absurd (k (rw (e, not_full) refl))
  | inr e ↦
      rw (headers_end-append bs more (ground arith), e)
        (complete-append bs more (headers_end bs) (headers_end_lem bs (ground arith)).1
          (λ f. k (rw e f)))
]
  where
    not_full : (length bs == rtsp_rx_buffer_size) ≡ false
    not_full = ground arith
