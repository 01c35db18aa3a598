-- ===== src/Mdns/RoundTrip.antt =====
-- `decode_name` of shared/protocol/mdns.c on what `write_name` wrote.
use mathlib.Core.List.{append_assoc, append-nil}
use protable_airplay.Base.{
  ℕ, zero, suc, ◌+◌, ◌-◌, ◌/◌, ◌≤◌, ◌<◌, ◌≡◌, refl, sym, ap, ◌∙◌, inl, inr, Bool, true, false, ◌||◌,
  not, List, [], ◌∷◌, ◌++◌, ltb, leb, ◌==◌, if◌then◌else◌, length, take, drop, get_or, All, arith,
  Bool-cases, length-append, take-append, drop-append, get_or-append_right, le→ltb_false, Result,
  ok, read, read_lem, Returns, of_ok, Returns-bind, Returns-guard, Returns-value,
}
use protable_airplay.Rtp.{slice}
use protable_airplay.Rtp.Safety.{slice_lem}
use protable_airplay.Mdns.{
  push, labels, is_empty, write_name, c_string, finish_name, fits, decode_loop, decode_name,
}
use protable_airplay.Mdns.Names.{emit_lem, dotted_labels, label_bytes, write_labels-Returns}

-- What `write_name` puts behind `out`
pub record Named (capacity : ℕ) (out name out' : List ℕ) : Type 0 where
  pub bytes : out' ≡ out ++ (label_bytes (labels name) ++ (0 ∷ []))
  pub sizes : All (λ l. (0 < length l) × (length l ≤ 63)) (labels name)
  pub size : length (label_bytes (labels name)) + 1 ≤ 255
  pub inside : length out' ≤ capacity
  pub given : is_empty name ≡ false

pub write_name-Returns :
    (capacity : ℕ) (out name : List ℕ)
    → Returns (Named capacity out name) (write_name capacity out name)
unfolding write_name
write_name-Returns capacity out name = Returns-guard _ (not (is_empty name)) _ λ given.
    Returns-bind _ _ _ _ (write_labels-Returns capacity out (labels name)) λ out' w.
      Returns-guard _ (not (leb capacity (length out') || ltb 255 (length out' - length out + 1))) _
        λ room. rw (emit_lem capacity out' (0 ∷ []) (ground arith)) (
          of_ok _ (record {
            bytes =
                ap (λ bs. bs ++ (0 ∷ [])) w.bytes
                ∙ append_assoc out (label_bytes (labels name)) (0 ∷ []);
            sizes = w.sizes;
            size = ground (arith, ap length w.bytes, length-append out (label_bytes (labels name)));
            inside = ground (arith, length-append out' (0 ∷ []));
            given = ground arith;
          }))

slice_middle :
    (pre l tail : List ℕ) (a : ℕ)
    → slice (pre ++ (a ∷ (l ++ tail))) (length pre + 1) (length l) ≡ ok l
slice_middle pre l tail a =
    slice_lem (pre ++ (a ∷ (l ++ tail))) (length pre + 1) (length l)
      (omega (arith, length-append pre (a ∷ (l ++ tail)), length-append l tail))
    ∙ ap ok (ap (take (length l)) behind ∙ take-append l tail)
  where
    behind : drop (length pre + 1) (pre ++ (a ∷ (l ++ tail))) ≡ l ++ tail
    behind =
        ap (λ n. drop n (pre ++ (a ∷ (l ++ tail)))) (sym (length-append pre (a ∷ [])))
        ∙ ap (drop (length (pre ++ (a ∷ [])))) (sym (append_assoc pre (a ∷ []) (l ++ tail)))
        ∙ drop-append (pre ++ (a ∷ [])) (l ++ tail)

read_middle : (pre tail : List ℕ) (a : ℕ) → read (pre ++ (a ∷ tail)) (length pre) ≡ ok a
read_middle pre tail a =
    read_lem (pre ++ (a ∷ tail)) (length pre) (omega (arith, length-append pre (a ∷ tail)))
    ∙ ap ok (
        ap (λ n. get_or (pre ++ (a ∷ tail)) n 0) (omega arith)
        ∙ get_or-append_right pre (a ∷ tail) 0 0)

-- One step over a label
decode_loop-label :
    (steps : ℕ) (pre l tail : List ℕ) (capacity : ℕ) (name : List ℕ)
    → 0 < length l
    → length l ≤ 63
    → length name + length l + 1 < capacity
    → decode_loop (suc steps) (pre ++ (length l ∷ (l ++ tail))) capacity (length pre) 0 name
      ≡ decode_loop steps
          (pre ++ (length l ∷ (l ++ tail)))
          capacity
          (length pre + 1 + length l)
          0
          (name ++ (l ++ (b'.' ∷ [])))
unfolding decode_loop
decode_loop-label steps pre l tail capacity name h k r =
    rw
      (
        some_left,
        read_middle pre (l ++ tail) (length l),
        not_zero,
        not_pointer,
        room,
        slice_middle pre l tail (length l),
        emit_lem capacity name (l ++ (b'.' ∷ [])) (omega (arith, length-append l (b'.' ∷ []))),
      )
      refl
  where
    whole : length (pre ++ (length l ∷ (l ++ tail))) ≡ length pre + 1 + length l + length tail
    whole = omega (arith, length-append pre (length l ∷ (l ++ tail)), length-append l tail)

    some_left : ltb (length pre) (length (pre ++ (length l ∷ (l ++ tail)))) ≡ true
    some_left = ground (arith, whole)

    not_zero : (length l == 0) ≡ false
    not_zero = ground arith

    not_pointer : (length l / 64 == 3) ≡ false
    not_pointer = ground arith

    room : fits (pre ++ (length l ∷ (l ++ tail))) capacity (length pre) (length l) name ≡ true
    room = ground (arith, whole)

-- The end of a name
decode_loop-end :
    (steps : ℕ) (pre tail : List ℕ) (capacity : ℕ) (name : List ℕ)
    → 0 < capacity
    → decode_loop (suc steps) (pre ++ (0 ∷ tail)) capacity (length pre) 0 name
      ≡ ok (length pre + 1, c_string (take (length name - 1) name))
unfolding decode_loop finish_name
decode_loop-end steps pre tail capacity name h =
    rw (some_left, read_middle pre tail 0, le→ltb_false capacity 1 h) refl
  where
    some_left : ltb (length pre) (length (pre ++ (0 ∷ tail))) ≡ true
    some_left = ground (arith, length-append pre (0 ∷ tail))

-- The result of `decode_name` for a name that ends at `n`
abbrev decoded : ℕ → List ℕ → Result (ℕ × List ℕ)
decoded n name = ok (n, c_string (take (length name - 1) name))

decode_loop-label_bytes :
    (steps : ℕ) (pre : List ℕ) (ls : List (List ℕ)) (tail : List ℕ) (capacity : ℕ) (name : List ℕ)
    → All (λ l. (0 < length l) × (length l ≤ 63)) ls
    → length name + length (label_bytes ls) < capacity
    → length ls < steps
    → decode_loop steps (pre ++ (label_bytes ls ++ (0 ∷ tail))) capacity (length pre) 0 name
      ≡ decoded (length pre + length (label_bytes ls) + 1) (name ++ dotted_labels ls)
decode_loop-label_bytes zero pre ls tail capacity name h k m = absurd (omega arith)
decode_loop-label_bytes (suc steps) pre [] tail capacity name h k m = rw append-nil (
    decode_loop-end steps pre tail capacity name (omega arith)
    ∙ ap (λ n. decoded n name) (omega arith))
decode_loop-label_bytes (suc steps) pre (l ∷ ls) tail capacity name h k m =
    ap (λ t. decode_loop (suc steps) (pre ++ (length l ∷ t)) capacity (length pre) 0 name)
      (append_assoc l (label_bytes ls) (0 ∷ tail))
    ∙ decode_loop-label steps pre l (label_bytes ls ++ (0 ∷ tail)) capacity name h.0.0 h.0.1
        (omega (arith, sizes))
    ∙ (λ i.
        decode_loop steps (sym (append_assoc pre (length l ∷ l) (label_bytes ls ++ (0 ∷ tail))) i)
          capacity (behind i) 0 (name ++ (l ++ (b'.' ∷ []))))
    ∙ decode_loop-label_bytes steps (pre ++ (length l ∷ l)) ls tail capacity
        (name ++ (l ++ (b'.' ∷ []))) h.1
        (omega (arith, sizes, length-append name (l ++ (b'.' ∷ [])), length-append l (b'.' ∷ [])))
        (omega arith)
    ∙ (λ i. decoded (end i) (append_assoc name (l ++ (b'.' ∷ [])) (dotted_labels ls) i))
  where
    sizes : length (l ++ label_bytes ls) ≡ length l + length (label_bytes ls)
    sizes = length-append l (label_bytes ls)

    behind : length pre + 1 + length l ≡ length (pre ++ (length l ∷ l))
    behind = omega (arith, length-append pre (length l ∷ l))

    end :
        length (pre ++ (length l ∷ l)) + length (label_bytes ls) + 1
        ≡ length pre + length (label_bytes (l ∷ ls)) + 1
    end = omega (arith, length-append pre (length l ∷ l), length-append l (label_bytes ls))

-- A text that does not end in a dot, as a message spells it
unfoldable pub ends_in_dot : List ℕ → Bool
ends_in_dot [] = false
ends_in_dot (c ∷ []) = c == b'.'
ends_in_dot (c ∷ d ∷ cs) = ends_in_dot (d ∷ cs)

-- There is a first label.
first_label :
    (c : ℕ) (cs : List ℕ) → (l : List ℕ) × (ls : List (List ℕ)) × (labels (c ∷ cs) ≡ l ∷ ls)
unfolding labels push
first_label c cs = elim (Bool-cases (c == b'.')) [
  | inl e ↦ ([], labels cs, rw e refl)
  | inr e ↦ rw e (first (labels cs))
]
  where
    first : (ms : List (List ℕ)) → (l : List ℕ) × (ls : List (List ℕ)) × (push c ms ≡ l ∷ ls)
    first [] = (c ∷ [], [], refl)
    first (m ∷ ms) = (c ∷ m, ms, refl)

dotted_labels-cons :
    (c : ℕ) (rest : List (List ℕ))
    → (l : List ℕ) × (ls : List (List ℕ)) × (rest ≡ l ∷ ls)
    → dotted_labels (if c == b'.' then [] ∷ rest else push c rest) ≡ c ∷ dotted_labels rest
unfolding push
dotted_labels-cons c rest (l, ls, e) = elim (Bool-cases (c == b'.')) [
  | inl f ↦ rw f (ap (λ d. d ∷ dotted_labels rest) (ground arith))
  | inr f ↦ rw (f, e) refl
]

dotted_labels-labels :
    (name : List ℕ)
    → is_empty name ≡ false
    → ends_in_dot name ≡ false
    → dotted_labels (labels name) ≡ name ++ (b'.' ∷ [])
unfolding labels is_empty ends_in_dot push
dotted_labels-labels [] g h = cc
dotted_labels-labels (c ∷ []) g h = rw h refl
dotted_labels-labels (c ∷ d ∷ cs) g h =
    dotted_labels-cons c (labels (d ∷ cs)) (first_label d cs)
    ∙ ap (λ ds. c ∷ ds) (dotted_labels-labels (d ∷ cs) refl h)

c_string-All : (s : List ℕ) → All (λ c. 0 < c) s → c_string s ≡ s
unfolding c_string
c_string-All [] h = refl
c_string-All (c ∷ cs) h = ground (arith, c_string-All cs)

-- The text of a name without its last dot
last_dot : (name : List ℕ) → take (length (name ++ (b'.' ∷ [])) - 1) (name ++ (b'.' ∷ [])) ≡ name
last_dot name =
    ap (λ n. take n (name ++ (b'.' ∷ []))) (omega (arith, length-append name (b'.' ∷ [])))
    ∙ take-append name (b'.' ∷ [])

length-label_bytes : (ls : List (List ℕ)) → length ls ≤ length (label_bytes ls)
length-label_bytes [] = omega arith
length-label_bytes (l ∷ ls) = omega (arith, length-label_bytes ls, length-append l (label_bytes ls))

-- Wherever `write_name` puts a name of a message, and whatever follows, `decode_name` finds the end of it
-- and its text, in a buffer of 256 bytes: for a name without a zero byte and without a dot at its end.
pub decode_name-write_name :
    (capacity : ℕ) (out name out' tail : List ℕ)
    → write_name capacity out name ≡ ok out'
    → All (λ c. 0 < c) name
    → ends_in_dot name ≡ false
    → decode_name (out' ++ tail) (length out) 256 ≡ ok (length out', name)
unfolding decode_name
decode_name-write_name capacity out name out' tail e nonzero plain =
    ap (λ m. decode_loop (length m) m 256 (length out) 0 []) whole
    ∙ decode_loop-label_bytes (length (out ++ (label_bytes (labels name) ++ (0 ∷ tail)))) out
        (labels name) tail 256 [] w.sizes (omega (arith, w.size)) enough
    ∙ (λ i. ok (end i, text i))
  where
    w : Named capacity out name out'
    w = Returns-value _ _ out' (write_name-Returns capacity out name) e

    whole : out' ++ tail ≡ out ++ (label_bytes (labels name) ++ (0 ∷ tail))
    whole =
        ap (λ m. m ++ tail) w.bytes
        ∙ append_assoc out (label_bytes (labels name) ++ (0 ∷ [])) tail
        ∙ ap (λ m. out ++ m) (append_assoc (label_bytes (labels name)) (0 ∷ []) tail)

    enough : length (labels name) < length (out ++ (label_bytes (labels name) ++ (0 ∷ tail)))
    enough = omega (
      arith,
      length-label_bytes (labels name),
      length-append out (label_bytes (labels name) ++ (0 ∷ tail)),
      length-append (label_bytes (labels name)) (0 ∷ tail),
    )

    end : length out + length (label_bytes (labels name)) + 1 ≡ length out'
    end = omega (
      arith,
      ap length w.bytes,
      length-append out (label_bytes (labels name) ++ (0 ∷ [])),
      length-append (label_bytes (labels name)) (0 ∷ []),
    )

    text :
        c_string (take (length (dotted_labels (labels name)) - 1) (dotted_labels (labels name)))
        ≡ name
    text =
        ap (λ d. c_string (take (length d - 1) d)) (dotted_labels-labels name w.given plain)
        ∙ ap c_string (last_dot name)
        ∙ c_string-All name nonzero
