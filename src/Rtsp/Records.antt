-- ===== src/Rtsp/Records.antt =====
-- `receive_client` of shared/protocol/rtsp.c: plain bytes, or one record of an encrypted connection.
use protable_airplay.Base.{
  ℕ, ◌+◌, ◌-◌, ◌*◌, ◌≤◌, ◌<◌, ◌≡◌, refl, inl, inr, Bool, true, false, ◌||◌, Option, none, some,
  List, [], ◌∷◌, ◌++◌, ltb, ◌==◌, if◌then◌else◌, length, take, get_or, arith, Bool-cases,
  length-append, length-take, le→ltb_false, Result, ok, fault, ◌>>=◌, read, read_lem, Yields,
  yields,
}

abbrev pub pair_record_max : ℕ
pair_record_max = 1024

-- What waits at the socket of a client; no bytes are the end of the stream.
pub data Incoming : Type 0 where
  nothing_yet broken : Incoming
  there : List ℕ → Incoming

-- What `receive_client` returns: NET_TIMEOUT, NET_ERROR, 0, or bytes
pub data Receive : Type 0 where
  timed_out failed ended : Receive
  got : List ℕ → Receive

-- The length that the first two bytes of a record spell, the lower first
unfoldable pub record_length : List ℕ → Result ℕ
record_length record_bytes =
    read record_bytes 0 >>= λ low. read record_bytes 1 >>= λ high. ok (low + high * 256)

-- `net_tcp_recv` into the record, which has room for the longest one; whether a whole record is there
unfoldable pub extend : List ℕ → ℕ → List ℕ → Result (List ℕ)
extend record_bytes need bs =
    let more = take (need - length record_bytes) bs in
    if ltb (pair_record_max + 18) (length record_bytes + length more)
    then fault
    else ok (record_bytes ++ more)

module _ {P : Type 0} (open_record : P → List ℕ → Option (P × List ℕ)) where
  -- `pairing_open` on a whole record, and the plain bytes at `out`
  unfoldable pub open_whole : P → List ℕ → ℕ → Result (Receive × P × List ℕ)
  open_whole pairing record_bytes capacity = elim (open_record pairing record_bytes) [
    | none ↦ ok (failed, pairing, [])
    | some (pairing', plain) ↦
        if ltb capacity (length plain) then fault else ok (got plain, pairing', [])
  ]

  -- The part behind the choice of `need`
  unfoldable pub receive_part : P → List ℕ → ℕ → ℕ → Incoming → Result (Receive × P × List ℕ)
  receive_part pairing record_bytes need capacity nothing_yet =
      ok (timed_out, pairing, record_bytes)
  receive_part pairing record_bytes need capacity broken = ok (failed, pairing, record_bytes)
  receive_part pairing record_bytes need capacity (there []) = ok (ended, pairing, record_bytes)
  receive_part pairing record_bytes need capacity (there (b ∷ bs)) =
      extend record_bytes need (b ∷ bs) >>= λ longer.
      if need == 2 || ltb (length longer) need
      then ok (timed_out, pairing, longer)
      else open_whole pairing longer capacity

  -- The encrypted branch: the receipt, the pairing and the part of a record that is there
  unfoldable pub receive_sealed : P → List ℕ → ℕ → Incoming → Result (Receive × P × List ℕ)
  receive_sealed pairing record_bytes capacity pending =
      if ltb (length record_bytes) 2
      then receive_part pairing record_bytes 2 capacity pending
      else record_length record_bytes >>= λ size.
          if size == 0 || (ltb pair_record_max size || ltb capacity size)
          then ok (failed, pairing, record_bytes)
          else receive_part pairing record_bytes (size + 18) capacity pending

  abbrev pub receive_plain : ℕ → Incoming → Receive
  receive_plain capacity nothing_yet = timed_out
  receive_plain capacity broken = failed
  receive_plain capacity (there []) = ended
  receive_plain capacity (there (b ∷ bs)) = got (take capacity (b ∷ bs))

  unfoldable pub receive_client : Bool → P → List ℕ → ℕ → Incoming → Result (Receive × P × List ℕ)
  receive_client encrypted pairing record_bytes capacity pending =
      if encrypted
      then receive_sealed pairing record_bytes capacity pending
      else ok (receive_plain capacity pending, pairing, record_bytes)

  -- The bytes that a record with this beginning has, or its length field
  abbrev pub wanted : List ℕ → ℕ
  wanted record_bytes =
      if ltb (length record_bytes) 2
      then 2
      else get_or record_bytes 0 0 + get_or record_bytes 1 0 * 256 + 18

  -- A part of a record, and bytes for which `out` has room
  abbrev pub Kept : ℕ → Receive × P × List ℕ → Type 0
  Kept capacity (got bs, pairing, record_bytes) =
      (length record_bytes < wanted record_bytes) × (length bs ≤ capacity)
  Kept capacity (timed_out, pairing, record_bytes) = length record_bytes < wanted record_bytes
  Kept capacity (failed, pairing, record_bytes) = length record_bytes < wanted record_bytes
  Kept capacity (ended, pairing, record_bytes) = length record_bytes < wanted record_bytes

  -- `pairing_open` takes the length and the tag off.
  abbrev pub Opens : Type 0
  Opens =
      (p q : P) (record_bytes plain : List ℕ)
      → open_record p record_bytes ≡ some (q, plain)
      → length plain + 18 ≡ length record_bytes

  open_whole-Yields :
      (p : P) (record_bytes : List ℕ) (capacity : ℕ)
      → Opens
      → length record_bytes ≤ capacity + 18
      → Yields (Kept capacity) (open_whole p record_bytes capacity)
  unfolding open_whole
  open_whole-Yields p record_bytes capacity opens h =
      go (open_record p record_bytes) (λ q plain e. opens p q record_bytes plain e)
    where
      go :
          (o : Option (P × List ℕ))
          → ((q : P) (plain : List ℕ)
              → o ≡ some (q, plain)
              → length plain + 18 ≡ length record_bytes)
          → Yields (Kept capacity) (elim o [
            | none ↦ ok (failed, p, [])
            | some (pairing', plain) ↦
                if ltb capacity (length plain) then fault else ok (got plain, pairing', [])
          ])
      go none k = yields _ (omega arith)
      go (some (q, plain)) k =
          rw (le→ltb_false capacity (length plain) (omega (arith, k q plain refl)))
            (yields _ (omega arith, omega (arith, k q plain refl)))

  extend_lem :
      (record_bytes : List ℕ) (need : ℕ) (bs : List ℕ)
      → length record_bytes < need
      → need ≤ pair_record_max + 18
      → extend record_bytes need bs ≡ ok (record_bytes ++ take (need - length record_bytes) bs)
  unfolding extend
  extend_lem record_bytes need bs h k =
      rw
        (le→ltb_false (pair_record_max + 18)
          (length record_bytes + length (take (need - length record_bytes) bs))
          (omega (arith, length-take (need - length record_bytes) bs)))
        refl

  -- The length field of a longer part is the same.
  wanted-append : (xs ys : List ℕ) → 2 ≤ length xs → wanted (xs ++ ys) ≡ wanted xs
  wanted-append [] ys h = absurd (omega arith)
  wanted-append (x ∷ []) ys h = absurd (omega arith)
  wanted-append (x ∷ y ∷ xs) ys h = ground (arith, length-append xs ys)

  receive_part-Yields :
      (p : P) (record_bytes : List ℕ) (need capacity : ℕ) (pending : Incoming)
      → Opens
      → length record_bytes < wanted record_bytes
      → need ≡ wanted record_bytes
      → need ≤ pair_record_max + 18
      → need ≤ capacity + 18
      → Yields (Kept capacity) (receive_part p record_bytes need capacity pending)
  unfolding receive_part
  receive_part-Yields p record_bytes need capacity nothing_yet opens h e k l = yields _ h
  receive_part-Yields p record_bytes need capacity broken opens h e k l = yields _ h
  receive_part-Yields p record_bytes need capacity (there []) opens h e k l = yields _ h
  receive_part-Yields p record_bytes need capacity (there (b ∷ bs)) opens h e k l =
      rw (extend_lem record_bytes need (b ∷ bs) (omega arith) k)
        (elim (Bool-cases (need == 2 || ltb (length longer) need)) [
          | inl f ↦ rw f (yields _ (waits f))
          | inr f ↦ rw f (open_whole-Yields p longer capacity opens (omega (arith, size)))
        ])
    where
      longer : List ℕ
      longer = record_bytes ++ take (need - length record_bytes) (b ∷ bs)

      size : length longer ≤ need
      size = omega (
        arith,
        length-append record_bytes (take (need - length record_bytes) (b ∷ bs)),
        length-take (need - length record_bytes) (b ∷ bs),
      )

      waits : (need == 2 || ltb (length longer) need) ≡ true → length longer < wanted longer
      waits f = elim (Bool-cases (ltb (length record_bytes) 2)) [
        | inl g ↦ ground (arith, size)
        | inr g ↦
            ground
              (arith, size, wanted-append record_bytes (take (need - length record_bytes) (b ∷ bs)))
      ]

  receive_sealed-Yields :
      (p : P) (record_bytes : List ℕ) (capacity : ℕ) (pending : Incoming)
      → Opens
      → length record_bytes < wanted record_bytes
      → Yields (Kept capacity) (receive_sealed p record_bytes capacity pending)
  unfolding receive_sealed record_length
  receive_sealed-Yields p record_bytes capacity pending opens h =
      elim (Bool-cases (ltb (length record_bytes) 2)) [
        | inl e ↦ rw e (
            receive_part-Yields p record_bytes 2 capacity pending opens h (ground arith)
              (omega arith) (omega arith))
        | inr e ↦
            rw (e, read_lem record_bytes 0 (ground arith), read_lem record_bytes 1 (ground arith))
              (elim (Bool-cases
                (invalid (get_or record_bytes 0 0 + get_or record_bytes 1 0 * 256))) [
                  | inl f ↦ rw f (yields _ h)
                  | inr f ↦ rw f (
                      receive_part-Yields p record_bytes
                        (get_or record_bytes 0 0 + get_or record_bytes 1 0 * 256 + 18) capacity
                        pending opens h (ground arith) (ground arith) (ground arith))
                ])
      ]
    where
      invalid : ℕ → Bool
      invalid size = size == 0 || (ltb pair_record_max size || ltb capacity size)

  -- If `pairing_open` returns 18 bytes less than it is given, `receive_client` always returns, with no byte
  -- outside the record of the client or the receive buffer, however the records are cut into pieces; the
  -- part of a record that it keeps is never a whole one, so the next call asks for at least one byte.
  pub receive_client-Yields :
      (encrypted : Bool) (p : P) (record_bytes : List ℕ) (capacity : ℕ) (pending : Incoming)
      → Opens
      → length record_bytes < wanted record_bytes
      → Yields (Kept capacity) (receive_client encrypted p record_bytes capacity pending)
  unfolding receive_client
  receive_client-Yields true p record_bytes capacity pending opens h =
      receive_sealed-Yields p record_bytes capacity pending opens h
  receive_client-Yields false p record_bytes capacity nothing_yet opens h = yields _ h
  receive_client-Yields false p record_bytes capacity broken opens h = yields _ h
  receive_client-Yields false p record_bytes capacity (there []) opens h = yields _ h
  receive_client-Yields false p record_bytes capacity (there (b ∷ bs)) opens h =
      yields _ (h, omega (arith, length-take capacity (b ∷ bs)))
