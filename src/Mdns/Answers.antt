-- ===== src/Mdns/Answers.antt =====
-- What a responder of shared/protocol/mdns.c owes a question, and that its loop does so.
use protable_airplay.Base.{
  Endpoint, ℕ, ◌/◌, ◌%◌, ◌^◌, ◌<◌, ◌≡◌, refl, ap, ap₂, ◌∙◌, Bool, true, false, ◌&&◌, ◌||◌, not,
  Option, none, some, map, leb, ltb, ◌==◌, str_eq, codes, Bool-cases, inl, inr, fail, fault, List,
  [], ◌∷◌, ◌++◌, if◌then◌else◌, length, arith, recover, Result, ok, ◌>>=◌,
}
use protable_airplay.Mdns.Address.{ascii_lower, same_name}
use protable_airplay.Mdns.{Config, is_empty, full_name, build_packet}
use protable_airplay.Mdns.Responder.{
  Status, fine, overflow, socket_error, Datagram, group, is_asked, reply, announce, send_response,
  name_matches,
}

-- What the loop does for the only question
abbrev pub answer :
    Config → List ℕ → ℕ → ℕ → Option Endpoint → Bool → Result (Status × Option Datagram)
answer c name kind class source sends = name_matches c name >>= λ matches.
    if matches && is_asked kind class then reply c class source sends else ok (fine, none)

-- The names that a responder answers to, in lower case: the type of the service, its instance and the host. None, if
-- the name of the instance does not fit in 255 bytes.
abbrev pub names_of : Config → List (List ℕ)
names_of c =
    let full = c.instance_name ++ (b'.' ∷ c.service_type) in
    if leb 256 (length full)
    then []
    else map (map ascii_lower) (c.service_type ∷ full ∷ c.hostname ∷ [])

abbrev pub has_name : List ℕ → List (List ℕ) → Bool
has_name name [] = false
has_name name (n ∷ ns) = str_eq name n || has_name name ns

abbrev pub has_number : ℕ → List ℕ → Bool
has_number n [] = false
has_number n (m ∷ ms) = n == m || has_number n ms

-- A, PTR, TXT, SRV or any kind, of class IN or of any; the top bit of the class is no part of it.
abbrev pub is_for_us : Config → List ℕ → ℕ → ℕ → Bool
is_for_us c name kind class =
    has_name (map ascii_lower name) (names_of c)
    && (has_number kind (1 ∷ 12 ∷ 16 ∷ 33 ∷ 255 ∷ []) && has_number (class % 2 ^ 15) (1 ∷ 255 ∷ []))

-- Where the answer goes, and the time to live of its records: to a source with an address and a port if the top bit
-- of the class asks for that, and else to the group
abbrev pub destination : ℕ → Option Endpoint → Endpoint × ℕ
destination class none = (record { ip = codes "224.0.0.251"; port = 5353 }, 60)
destination class (some e) =
    if leb (2 ^ 15) class && (ltb 0 (length e.ip) && ltb 0 e.port)
    then (e, 4500)
    else (record { ip = codes "224.0.0.251"; port = 5353 }, 60)

-- The packet is sent, if it could be built.
abbrev pub sent : Endpoint → Bool → Result (List ℕ) → Result (Status × Option Datagram)
sent to sends fail = ok (overflow, none)
sent to sends fault = fault
sent to sends (ok packet) =
    ok (if sends then fine else socket_error, some (record { packet = packet; to = to }))

abbrev pub expected :
    Config → List ℕ → ℕ → ℕ → Option Endpoint → Bool → Result (Status × Option Datagram)
expected c name kind class source sends =
    if is_for_us c name kind class
    then sent (destination class source).0 sends (build_packet c 1500 (destination class source).1)
    else ok (fine, none)

same_name-str_eq : (a b : List ℕ) → same_name a b ≡ str_eq (map ascii_lower a) (map ascii_lower b)
unfolding same_name str_eq
same_name-str_eq [] [] = refl
same_name-str_eq [] (y ∷ ys) = refl
same_name-str_eq (x ∷ xs) [] = refl
same_name-str_eq (x ∷ xs) (y ∷ ys) = elim (Bool-cases (ascii_lower x == ascii_lower y)) [
  | inl e ↦ rw e (same_name-str_eq xs ys)
  | inr e ↦ rw e refl
]

or_false : (a b c : Bool) → (a || (b || c)) ≡ (a || (b || (c || false)))
or_false true b c = refl
or_false false true c = refl
or_false false false true = refl
or_false false false false = refl

name_matches-has_name :
    (c : Config) (name : List ℕ)
    → name_matches c name ≡ ok (has_name (map ascii_lower name) (names_of c))
unfolding name_matches full_name recover
name_matches-has_name c name =
    elim (Bool-cases (leb 256 (length (c.instance_name ++ (b'.' ∷ c.service_type))))) [
      | inl e ↦ rw e refl
      | inr e ↦
          rw
            (
              e,
              same_name-str_eq name c.service_type,
              same_name-str_eq name (c.instance_name ++ (b'.' ∷ c.service_type)),
              same_name-str_eq name c.hostname,
            )
            (ap ok (
              or_false (at c.service_type) (at (c.instance_name ++ (b'.' ∷ c.service_type)))
                (at c.hostname)))
    ]
  where
    at : List ℕ → Bool
    at text = str_eq (map ascii_lower name) (map ascii_lower text)

send_response-sent :
    (c : Config) (to : Endpoint) (ttl : ℕ) (sends : Bool)
    → send_response c to ttl sends ≡ sent to sends (build_packet c 1500 ttl)
unfolding send_response recover
send_response-sent c to ttl sends = go (build_packet c 1500 ttl)
  where
    go :
        (m : Result (List ℕ))
        → recover
            (overflow, none)
            m
            (λ packet.
              ok (if sends then fine else socket_error, some (record { packet = packet; to = to })))
          ≡ sent to sends m
    go (ok packet) = refl
    go fail = refl
    go fault = refl

usable_source :
    (class : ℕ) (e : Endpoint)
    → class < 2 ^ 16
    → (class / 2 ^ 15 == 1 && (not (is_empty e.ip) && not (e.port == 0)))
      ≡ (leb (2 ^ 15) class && (ltb 0 (length e.ip) && ltb 0 e.port))
unfolding is_empty
usable_source class e h =
    ap₂ ◌&&◌ (let f : (class / 2 ^ 15 == 1) ≡ leb (2 ^ 15) class = ground arith in f)
      (ap₂ ◌&&◌ (filled e.ip) (let f : not (e.port == 0) ≡ ltb 0 e.port = ground arith in f))
  where
    filled : (t : List ℕ) → not (is_empty t) ≡ ltb 0 (length t)
    filled [] = refl
    filled (x ∷ t) = ground arith

reply-sent :
    (c : Config) (class : ℕ) (source : Option Endpoint) (sends : Bool)
    → class < 2 ^ 16
    → reply c class source sends
      ≡ sent (destination class source).0 sends (build_packet c 1500 (destination class source).1)
unfolding reply announce
reply-sent c class none sends h = send_response-sent c group 60 sends
reply-sent c class (some e) sends h =
    ap (λ b. answer_to (if b then some e else none)) (usable_source class e h)
    ∙ go (leb (2 ^ 15) class && (ltb 0 (length e.ip) && ltb 0 e.port))
  where
    answer_to : Option Endpoint → Result (Status × Option Datagram)
    answer_to d = elim d [
      | none ↦ send_response c group 60 sends
      | some e' ↦ send_response c e' 4500 sends
    ]

    go :
        (b : Bool)
        → answer_to (if b then some e else none) ≡ (
            let to : Endpoint × ℕ = if b then (e, 4500) else (group, 60) in
            sent to.0 sends (build_packet c 1500 to.1))
    go true = send_response-sent c e 4500 sends
    go false = send_response-sent c group 60 sends

pub answer-expected :
    (c : Config) (name : List ℕ) (kind class : ℕ) (source : Option Endpoint) (sends : Bool)
    → class < 2 ^ 16
    → answer c name kind class source sends ≡ expected c name kind class source sends
answer-expected c name kind class source sends h =
    rw (name_matches-has_name c name, reply-sent c class source sends h, asked) refl
  where
    asked : is_asked kind class ≡ (
        has_number kind (1 ∷ 12 ∷ 16 ∷ 33 ∷ 255 ∷ []) && has_number (class % 2 ^ 15) (1 ∷ 255 ∷ []))
    asked = ground arith
