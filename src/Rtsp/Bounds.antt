-- ===== src/Rtsp/Bounds.antt =====
-- The buffers of `parse_request` of shared/protocol/rtsp.c, and what a request that it returns is like.
use protable_airplay.Base.{
  ℕ, zero, suc, ◌+◌, ◌-◌, ◌*◌, ◌/◌, ◌^◌, ◌≤◌, ◌<◌, ◌≡◌, refl, sym, subst, ap, ◌∙◌, inl, inr, false,
  ◌&&◌, ◌||◌, not, Option, none, some, List, [], ◌∷◌, ◌++◌, ltb, leb, ◌==◌, length, take, drop,
  codes, All, arith, Bool-cases, length-append, length-take, length-drop, drop-take, Returns, of_ok,
  of_fail, Returns-bind, Returns-guard,
}
use protable_airplay.Mdns.Address.{same_name}
use protable_airplay.Rtsp.Framing.{headers_end_lem}
use protable_airplay.Rtsp.{
  rtsp_rx_buffer_size, is_empty, trim, digit_of, uint32_loop, parse_uint32, headers_end, has_zero,
  next_line, skip_space, token, is_version, Header, Request, request_line, at_colon, Parse,
  parse_start, known_header, header_line, parse_line, lines, copied, entry, complete, parse_request,
}

-- The fields of a request fit in the storage that the code has for them.
pub record IsStored (r : Request) : Type 0 where
  pub uri_bound : length r.uri < 256
  pub version_bound : length r.version < 32
  pub cseq_bound : r.cseq < 2 ^ 32
  pub header_bound : length r.headers ≤ 32
  pub each_header :
      All (λ h. (0 < length h.name) × (length h.name < 128) × (length h.value < 256)) r.headers

-- The same for the variables of the loop
pub record IsParse (p : Parse) : Type 0 where
  pub stored : IsStored p.request
  pub size_bound : p.content_length < 2 ^ 32

uint32_loop-Returns :
    (cs : List ℕ) (value : ℕ) → value < 2 ^ 32 → Returns (λ n. n < 2 ^ 32) (uint32_loop cs value)
unfolding uint32_loop
uint32_loop-Returns [] value h = of_ok _ h
uint32_loop-Returns (c ∷ cs) value h =
    elim (Bool-cases (ltb 9 (digit_of c) || ltb ((2 ^ 32 - 1 - digit_of c) / 10) value)) [
      | inl e ↦ rw e of_fail
      | inr e ↦ rw e (uint32_loop-Returns cs (value * 10 + digit_of c) (ground arith))
    ]

parse_uint32-Returns : (text : List ℕ) → Returns (λ n. n < 2 ^ 32) (parse_uint32 text)
unfolding parse_uint32
parse_uint32-Returns text =
    Returns-guard _ (not (is_empty text)) _ λ _. uint32_loop-Returns text 0 (omega arith)

length-token : (n : ℕ) (cs : List ℕ) → length (token n cs).0 ≤ n
unfolding token
length-token zero cs = omega arith
length-token (suc n) [] = omega arith
length-token (suc n) (c ∷ cs) = ground (arith, length-token n cs)

copied-Returns : (n : ℕ) (text : List ℕ) → length text < n → Returns (λ t. t ≡ text) (copied n text)
copied-Returns n text h =
    rw (let e : leb n (length text) ≡ false = ground (arith, h) in e) (of_ok text refl)

entry-Returns : (n m : ℕ) → m < n → Returns (λ _. Unit {0}) (entry n m)
entry-Returns n m h = rw (let e : leb n m ≡ false = ground (arith, h) in e) (of_ok tt tt)

request_line-Returns : (line : List ℕ) → Returns IsStored (request_line line)
unfolding request_line
request_line-Returns line =
    Returns-bind _ _ _ _
      (copied-Returns 64 first.0 (omega (arith, length-token 63 (skip_space line))))
      λ name _. Returns-bind _ _ _ _ (copied-Returns 256 second.0 uri_length) λ uri e.
        Returns-bind _ _ _ _ (copied-Returns 32 third.0 version_length) λ version f.
          Returns-guard _
            (not (is_empty third.0) && (is_empty (skip_space third.1) && is_version third.0)) _
            λ _. of_ok _ (record {
              uri_bound = omega (arith, ap length e, uri_length);
              version_bound = omega (arith, ap length f, version_length);
              cseq_bound = omega arith;
              header_bound = omega arith;
              each_header = tt;
            })
  where
    first : List ℕ × List ℕ
    first = token 63 (skip_space line)

    second : List ℕ × List ℕ
    second = token 255 (skip_space first.1)

    third : List ℕ × List ℕ
    third = token 31 (skip_space second.1)

    uri_length : length second.0 < 256
    uri_length = omega (arith, length-token 255 (skip_space first.1))

    version_length : length third.0 < 32
    version_length = omega (arith, length-token 31 (skip_space second.1))

at_colon-Returns : (line : List ℕ) → Returns (λ _. Unit {0}) (at_colon line)
unfolding at_colon
at_colon-Returns [] = of_fail
at_colon-Returns (c ∷ cs) = elim (Bool-cases (c == b':')) [
  | inl e ↦ rw e (of_ok _ tt)
  | inr e ↦ rw e (Returns-bind _ _ _ _ (at_colon-Returns cs) λ r _. of_ok _ tt)
]

known_header-Returns :
    (name value : List ℕ) (p : Parse) → IsParse p → Returns IsParse (known_header name value p)
unfolding known_header
known_header-Returns name value p v = elim (Bool-cases (same_name name (codes "CSeq"))) [
  | inl e ↦ rw e (
      Returns-bind _ _ _ _ (parse_uint32-Returns value) λ n h. of_ok _ (record {
        stored = record {
          uri_bound = v.stored.uri_bound;
          version_bound = v.stored.version_bound;
          cseq_bound = h;
          header_bound = v.stored.header_bound;
          each_header = v.stored.each_header;
        };
        size_bound = v.size_bound;
      }))
  | inr e ↦ rw e (elim (Bool-cases (same_name name (codes "Content-Length"))) [
    | inl f ↦ rw f (
        Returns-guard _ (not p.has_length) _ λ _.
          Returns-bind _ _ _ _ (parse_uint32-Returns value)
            λ n h. of_ok _ (record { stored = v.stored; size_bound = h }))
    | inr f ↦ rw f (of_ok _ v)
  ])
]

All-snoc :
    (P : Header → Type 0) (hs : List Header) (h : Header) → All P hs → P h → All P (hs ++ (h ∷ []))
All-snoc P [] h ps p = (p, tt)
All-snoc P (g ∷ hs) h ps p = (ps.0, All-snoc P hs h ps.1 p)

header_line-Returns : (line : List ℕ) (p : Parse) → IsParse p → Returns IsParse (header_line line p)
unfolding header_line
header_line-Returns line p v = Returns-bind _ _ _ _ (at_colon-Returns line) λ (before, behind) _.
    Returns-guard _ (not (length p.request.headers == 32)) _ λ room.
      Returns-bind _ _ _ _
        (entry-Returns 32 (length p.request.headers) (ground (arith, room, v.stored.header_bound)))
        λ _ _.
          Returns-guard _
            (not (
              is_empty (trim before)
              || (leb 128 (length (trim before)) || leb 256 (length (trim behind)))))
            _
            λ fits.
              Returns-bind _ _ _ _ (copied-Returns 128 (trim before) (ground (arith, fits)))
                λ name e.
                  Returns-bind _ _ _ _ (copied-Returns 256 (trim behind) (ground (arith, fits)))
                    λ value f. known_header-Returns name value _ (
                      with_header name value (ground (arith, room, v.stored.header_bound)) (
                        subst (λ t. 0 < length t) (sym e)
                            (filled (trim before) (ground (arith, fits))),
                        subst (λ t. length t < 128) (sym e) (ground (arith, fits)),
                        subst (λ t. length t < 256) (sym f) (ground (arith, fits)),
                      ))
  where
    with_header :
        (name value : List ℕ)
        → length p.request.headers < 32
        → (0 < length name) × (length name < 128) × (length value < 256)
        → IsParse (record p {
          request = record p.request {
            headers = p.request.headers ++ (record { name = name; value = value } ∷ []);
          };
        })
    with_header name value room fits = record {
      stored = record {
        uri_bound = v.stored.uri_bound;
        version_bound = v.stored.version_bound;
        cseq_bound = v.stored.cseq_bound;
        header_bound = omega (
          arith,
          room,
          length-append p.request.headers (record { name = name; value = value } ∷ []),
        );
        each_header = All-snoc _ p.request.headers _ v.stored.each_header fits;
      };
      size_bound = v.size_bound;
    }

    filled : (name : List ℕ) → is_empty name ≡ false → 0 < length name
    filled [] h = cc
    filled (c ∷ cs) h = omega arith

parse_line-Returns : (line : List ℕ) (p : Parse) → IsParse p → Returns IsParse (parse_line line p)
unfolding parse_line
parse_line-Returns line p v = elim (Bool-cases p.first_line) [
  | inl e ↦ rw e (
      Returns-bind _ _ _ _ (request_line-Returns line)
        λ r h. of_ok _ (record { stored = h; size_bound = v.size_bound }))
  | inr e ↦ simp e (header_line-Returns line p v)
]

-- A line takes at least its CR LF away.
next_line-Returns : (bs : List ℕ) → Returns (λ r. length r.1 + 2 ≤ length bs) (next_line bs)
unfolding next_line
next_line-Returns [] = of_fail
next_line-Returns (a ∷ []) = of_fail
next_line-Returns (a ∷ b ∷ bs) = elim (Bool-cases (a == 13 && b == 10)) [
  | inl e ↦ rw e (of_ok _ (omega arith))
  | inr e ↦ rw e (Returns-bind _ _ _ _ (next_line-Returns (b ∷ bs)) λ r h. of_ok _ (omega arith))
]

lines-Returns :
    (steps : ℕ) (bs : List ℕ) (p : Parse)
    → length bs ≤ steps
    → IsParse p
    → Returns IsParse (lines steps bs p)
unfolding lines
lines-Returns steps [] p h v = of_ok _ v
lines-Returns zero (b ∷ bs) p h v = absurd (omega arith)
lines-Returns (suc steps) (b ∷ bs) p h v =
    Returns-bind _ _ _ _ (next_line-Returns (b ∷ bs)) λ (line, rest) shorter.
      Returns-guard _ (not (leb 1024 (length line))) _ λ fits.
        Returns-bind _ _ _ _ (copied-Returns 1024 line (ground (arith, fits))) λ text _.
          elim (Bool-cases (is_empty text)) [
            | inl e ↦ rw e (of_ok _ v)
            | inr e ↦ rw e (
                Returns-bind _ _ _ _ (parse_line-Returns text p v)
                  λ p' v'. lines-Returns steps rest p' (omega (arith, h, shorter)) v')
          ]

-- A request that is stored in full, the bytes it takes, which are in the buffer, and its body, their last part
pub record IsRequest (bs : List ℕ) (r : Request) (n : ℕ) : Type 0 where
  pub stored : IsStored r
  pub progress : 4 ≤ n
  pub inside : n ≤ length bs
  pub place : r.body ≡ drop (n - length r.body) (take n bs)

abbrev pub Parsed : List ℕ → Option (Request × ℕ) → Type 0
Parsed bs none = Unit {0}
Parsed bs (some (r, n)) = IsRequest bs r n

body-place :
    (bs : List ℕ) (n c : ℕ)
    → n + c ≤ length bs
    → take c (drop n bs) ≡ drop (n + c - length (take c (drop n bs))) (take (n + c) bs)
body-place bs n c h =
    drop-take n c bs
    ∙ ap (λ k. drop k (take (n + c) bs))
        (omega (arith, length-take c (drop n bs), length-drop n bs))

complete-Returns :
    (bs : List ℕ) (n : ℕ) → 4 ≤ n → n ≤ length bs → Returns (Parsed bs) (complete bs n)
unfolding complete
complete-Returns bs n h k = Returns-guard _ (not (has_zero (take n bs))) _ λ _.
    Returns-bind _ _ _ _
      (lines-Returns n (take n bs) parse_start (omega (arith, length-take n bs)) started)
      λ p v.
        Returns-guard _ (not (p.first_line || ltb (rtsp_rx_buffer_size - n) p.content_length)) _
          λ _. elim (Bool-cases (ltb (length bs - n) p.content_length)) [
            | inl e ↦ rw e (of_ok _ tt)
            | inr e ↦ rw e (
                of_ok _ (record {
                  stored = record {
                    uri_bound = v.stored.uri_bound;
                    version_bound = v.stored.version_bound;
                    cseq_bound = v.stored.cseq_bound;
                    header_bound = v.stored.header_bound;
                    each_header = v.stored.each_header;
                  };
                  progress = omega arith;
                  inside = ground arith;
                  place = body-place bs n p.content_length (ground arith);
                }))
          ]
  where
    started : IsParse parse_start
    started = record {
      stored = record {
        uri_bound = omega arith;
        version_bound = omega arith;
        cseq_bound = omega arith;
        header_bound = omega arith;
        each_header = tt;
      };
      size_bound = omega arith;
    }

-- On any bytes in the buffer `parse_request` stays inside its buffers and ends. A request that it returns
-- is in the buffer as a whole and takes at least four bytes, its words and headers fit in their storage,
-- and its body is the last part of the bytes that it takes.
pub parse_request-Returns : (bs : List ℕ) → Returns (Parsed bs) (parse_request bs)
unfolding parse_request
parse_request-Returns bs = elim (Bool-cases (headers_end bs == 0)) [
  | inl e ↦ rw e (elim (Bool-cases (length bs == rtsp_rx_buffer_size)) [
    | inl f ↦ rw f of_fail
    | inr f ↦ rw f (of_ok _ tt)
  ])
  | inr e ↦ rw e (
      complete-Returns bs (headers_end bs) (headers_end_lem bs (ground arith)).0
        (headers_end_lem bs (ground arith)).1)
]
