-- ===== src/Rtsp.antt =====
-- shared/protocol/rtsp.c: `parse_request` and what it calls. A receive buffer is the list of the bytes in it.
pub mod Numbers
pub mod Bounds
pub mod Framing
pub mod Server
pub mod Serving
pub mod Records
pub mod Clients
mod Tests
use protable_airplay.Base.{
  ℕ, zero, suc, ◌+◌, ◌-◌, ◌*◌, ◌/◌, ◌%◌, ◌^◌, Bool, true, false, ◌&&◌, ◌||◌, not, Option, none,
  some, List, [], ◌∷◌, ◌++◌, ltb, leb, ◌==◌, if◌then◌else◌, str_eq, length, take, drop, codes,
  recover, Result, ok, fail, fault, ◌>>=◌, ◌>>◌, guard,
}
use protable_airplay.Mdns.Address.{same_name}

-- RTSP_RX_BUFFER_SIZE where the target is not an embedded one
abbrev pub rtsp_rx_buffer_size : ℕ
rtsp_rx_buffer_size = 256 * 1024

-- `rtsp_method_t`
pub data Method : Type 0 where
  unknown get post options announce describe setup record_method flush flushbuffered play pause
        teardown :
      Method
  get_parameter set_parameter setpeers setrateanchortime : Method

abbrev methods : List (List ℕ × Method)
methods =
    (codes "GET", get)
    ∷ (codes "POST", post)
    ∷ (codes "OPTIONS", options)
    ∷ (codes "ANNOUNCE", announce)
    ∷ (codes "DESCRIBE", describe)
    ∷ (codes "SETUP", setup)
    ∷ (codes "RECORD", record_method)
    ∷ (codes "FLUSH", flush)
    ∷ (codes "FLUSHBUFFERED", flushbuffered)
    ∷ (codes "PLAY", play)
    ∷ (codes "PAUSE", pause)
    ∷ (codes "TEARDOWN", teardown)
    ∷ (codes "GET_PARAMETER", get_parameter)
    ∷ (codes "SET_PARAMETER", set_parameter)
    ∷ (codes "SETPEERS", setpeers)
    ∷ (codes "SETPEERSX", setpeers)
    ∷ (codes "SETRATEANCHORTIME", setrateanchortime)
    ∷ []

unfoldable pub find_method : List (List ℕ × Method) → List ℕ → Method
find_method [] name = unknown
find_method ((known, m) ∷ ms) name =
    let rest = find_method ms name in if same_name name known then m else rest

unfoldable pub parse_method : List ℕ → Method
parse_method name = find_method methods name

abbrev pub is_empty : List ℕ → Bool
is_empty [] = true
is_empty (c ∷ cs) = false

abbrev pub is_blank : ℕ → Bool
is_blank c = c == b' ' || c == 9

-- `trim`: the loop at the front, and the loop at the end
unfoldable pub trim_start : List ℕ → List ℕ
trim_start [] = []
trim_start (c ∷ cs) = let rest = trim_start cs in if is_blank c then rest else c ∷ cs

unfoldable pub trim_end : List ℕ → List ℕ
trim_end [] = []
trim_end (c ∷ cs) = let rest = trim_end cs in if is_empty rest && is_blank c then [] else c ∷ rest

unfoldable pub trim : List ℕ → List ℕ
trim text = trim_end (trim_start text)

-- The difference to '0' as an unsigned number of 32 bits
abbrev pub digit_of : ℕ → ℕ
digit_of c = (c + 2 ^ 32 - b'0') % 2 ^ 32

unfoldable pub uint32_loop : List ℕ → ℕ → Result ℕ
uint32_loop [] value = ok value
uint32_loop (c ∷ cs) value =
    let rest = uint32_loop cs (value * 10 + digit_of c) in
    if ltb 9 (digit_of c) || ltb ((2 ^ 32 - 1 - digit_of c) / 10) value then fail else rest

unfoldable pub parse_uint32 : List ℕ → Result ℕ
parse_uint32 text = do guard (not (is_empty text)); uint32_loop text 0

-- The four bytes of CR LF CR LF
abbrev pub is_blank_line : List ℕ → Bool
is_blank_line (a ∷ b ∷ c ∷ d ∷ bs) = a == 13 && (b == 10 && (c == 13 && d == 10))
is_blank_line bs = false

-- `headers_end`; 0 if there is no end
unfoldable pub headers_end : List ℕ → ℕ
headers_end [] = 0
headers_end (b ∷ bs) =
    let more = headers_end bs in
    if is_blank_line (b ∷ bs) then 4 else if more == 0 then 0 else suc more

-- `memchr(buffer, '\0', n)` on these bytes
unfoldable pub has_zero : List ℕ → Bool
has_zero [] = false
has_zero (b ∷ bs) = let rest = has_zero bs in b == 0 || rest

-- A line up to its CR LF, and the bytes behind that
unfoldable pub next_line : List ℕ → Result (List ℕ × List ℕ)
next_line [] = fail
next_line (a ∷ []) = fail
next_line (a ∷ b ∷ bs) =
    let more = next_line (b ∷ bs) in
    if a == 13 && b == 10 then ok ([], bs) else more >>= λ (line, rest). ok (a ∷ line, rest)

-- `isspace` in the C locale
abbrev pub is_space : ℕ → Bool
is_space c = c == b' ' || (leb 9 c && leb c 13)

unfoldable pub skip_space : List ℕ → List ℕ
skip_space [] = []
skip_space (c ∷ cs) = let rest = skip_space cs in if is_space c then rest else c ∷ cs

-- At most `n` bytes up to a space, and what follows: `sscanf` of "%<n>s" behind the space
unfoldable pub token : ℕ → List ℕ → List ℕ × List ℕ
token zero cs = ([], cs)
token (suc n) [] = ([], [])
token (suc n) (c ∷ cs) =
    let more = token n cs in if is_space c then ([], c ∷ cs) else (c ∷ more.0, more.1)

-- `rtsp_header_t`
pub record Header : Type 0 where
  pub name : List ℕ
  pub value : List ℕ

-- `rtsp_request_t`
pub record Request : Type 0 where
  pub method : Method
  pub uri : List ℕ
  pub version : List ℕ
  pub cseq : ℕ
  pub headers : List Header
  pub body : List ℕ

abbrev pub no_request : Request
no_request = record { method = unknown; uri = []; version = []; cseq = 0; headers = []; body = [] }

abbrev pub is_version : List ℕ → Bool
is_version version = str_eq (take 5 version) (codes "RTSP/") || str_eq version (codes "HTTP/1.1")

-- A copy of a text with its zero byte into a buffer, which must have room for both
abbrev pub copied : ℕ → List ℕ → Result (List ℕ)
copied capacity text = if leb capacity (length text) then fault else ok text

-- The next entry of an array, which must have one
abbrev pub entry : ℕ → ℕ → Result (Unit {0})
entry capacity n = if leb capacity n then fault else ok tt

-- The request line: three words, each in a buffer of its own, and nothing behind them. If the third word is not
-- empty, no other is.
unfoldable pub request_line : List ℕ → Result Request
request_line line =
    let first = token 63 (skip_space line) in
    let second = token 255 (skip_space first.1) in
    let third = token 31 (skip_space second.1) in
    (do
      name ← copied 64 first.0
      uri ← copied 256 second.0
      version ← copied 32 third.0
      guard (not (is_empty third.0) && (is_empty (skip_space third.1) && is_version third.0))
      ok (record no_request { method = parse_method name; uri = uri; version = version }))

-- A line up to its first colon, and what follows it
unfoldable pub at_colon : List ℕ → Result (List ℕ × List ℕ)
at_colon [] = fail
at_colon (c ∷ cs) =
    let more = at_colon cs in
    if c == b':' then ok ([], cs) else more >>= λ (name, value). ok (c ∷ name, value)

-- The variables of the loop over the lines
pub record Parse : Type 0 where
  pub request : Request
  pub first_line : Bool
  pub has_length : Bool
  pub content_length : ℕ

abbrev pub parse_start : Parse
parse_start = record {
  request = no_request;
  first_line = true;
  has_length = false;
  content_length = 0;
}

-- The fields that a header sets beside its own entry
unfoldable pub known_header : List ℕ → List ℕ → Parse → Result Parse
known_header name value p =
    let cseq =
      parse_uint32 value >>= λ n. ok (record p { request = record p.request { cseq = n } }) in
    let size =
      guard (not p.has_length)
      >> (parse_uint32 value >>= λ n. ok (record p { has_length = true; content_length = n })) in
    if same_name name (codes "CSeq")
    then cseq
    else if same_name name (codes "Content-Length")
    then size
    else ok p

unfoldable pub header_line : List ℕ → Parse → Result Parse
header_line line p = do
  (before, behind) ← at_colon line
  guard (not (length p.request.headers == 32))
  header ← entry 32 (length p.request.headers)
  guard (
      not (
        is_empty (trim before)
        || (leb 128 (length (trim before)) || leb 256 (length (trim behind)))))
  name ← copied 128 (trim before)
  value ← copied 256 (trim behind)
  known_header name value (record p {
    request = record p.request {
      headers = p.request.headers ++ (record { name = name; value = value } ∷ []);
    };
  })

unfoldable pub parse_line : List ℕ → Parse → Result Parse
parse_line line p =
    if p.first_line
    then request_line line >>= (λ r. ok (record p { request = r; first_line = false }))
    else header_line line p

-- The loop over the lines of the headers. A line takes two bytes at least, so as many steps as there are
-- bytes are enough.
unfoldable pub lines : ℕ → List ℕ → Parse → Result Parse
lines steps [] p = ok p
lines zero (b ∷ bs) p = fault
lines (suc steps) (b ∷ bs) p = do
  (line, rest) ← next_line (b ∷ bs)
  guard (not (leb 1024 (length line)))
  text ← copied 1024 line
  (if is_empty text then ok p else (do p' ← parse_line text p; lines steps rest p'))

-- What `parse_request` does with complete headers of `n` bytes
unfoldable pub complete : List ℕ → ℕ → Result (Option (Request × ℕ))
complete bs n = do
  guard (not (has_zero (take n bs)))
  p ← lines n (take n bs) parse_start
  guard (not (p.first_line || ltb (rtsp_rx_buffer_size - n) p.content_length))
  (if ltb (length bs - n) p.content_length
      then ok none
      else ok (
          some
            (record p.request { body = take p.content_length (drop n bs) }, n + p.content_length)))

-- `parse_request`: -1 is a failure, 0 is `none`, and 1 is the request with the number of bytes it takes.
unfoldable pub parse_request : List ℕ → Result (Option (Request × ℕ))
parse_request bs =
    if headers_end bs == 0
    then (if length bs == rtsp_rx_buffer_size then fail else ok none)
    else complete bs (headers_end bs)
