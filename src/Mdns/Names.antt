-- ===== src/Mdns/Names.antt =====
-- Names in shared/protocol/mdns.c: `decode_name` on any message, and on what `write_name` wrote.
use mathlib.Core.List.{append_assoc, append-nil}
use protable_airplay.Base.{
  ℕ, zero, suc, ◌+◌, ◌-◌, ◌*◌, ◌/◌, ◌%◌, ◌≤◌, ◌<◌, ◌≡◌, refl, sym, ap, ◌∙◌, inl, inr, ◌||◌, not,
  List, [], ◌∷◌, ◌++◌, ltb, leb, ◌==◌, if◌then◌else◌, length, take, drop, All, arith, Bool-cases,
  length-append, length-take, le→ltb_false, ok, Returns, of_ok, of_fail, Returns-bind,
  Returns-guard, Returns-read, Returns-mono,
}
use protable_airplay.Rtp.Safety.{slice-Returns}
use protable_airplay.Mdns.{
  emit, write_labels, c_string, finish_name, fits, decode_loop, decode_name,
}

pub emit_lem :
    (capacity : ℕ) (out bs : List ℕ)
    → length out + length bs ≤ capacity
    → emit capacity out bs ≡ ok (out ++ bs)
unfolding emit
emit_lem capacity out bs h = rw (le→ltb_false capacity (length out + length bs) h) refl

length-c_string : (s : List ℕ) → length (c_string s) ≤ length s
unfolding c_string
length-c_string [] = omega arith
length-c_string (c ∷ cs) = ground (arith, length-c_string cs)

-- The end of the name in the message, and a text that its buffer has room for
abbrev pub Decoded : List ℕ → ℕ → ℕ × List ℕ → Type 0
Decoded bs capacity (next, name) = (0 < next) × (next ≤ length bs) × (length name < capacity)

finish_name-Returns :
    (capacity : ℕ) (name : List ℕ)
    → 0 < capacity
    → length name ≤ capacity
    → Returns (λ text. length text < capacity) (finish_name capacity name)
unfolding finish_name
finish_name-Returns capacity name h k = rw (le→ltb_false capacity 1 h) (
    of_ok _ (
      omega
        (arith, length-c_string (take (length name - 1) name), length-take (length name - 1) name)))

label_size :
    (bs : List ℕ) (label position : ℕ) (text : List ℕ)
    → text ≡ take label (drop (position + 1) bs)
    → length (text ++ (b'.' ∷ [])) ≤ label + 1
label_size bs label position text e =
    omega (
      arith,
      ap length e,
      length-append text (b'.' ∷ []),
      length-take label (drop (position + 1) bs),
    )

decode_loop-Returns :
    (steps : ℕ) (bs : List ℕ) (capacity position next : ℕ) (name : List ℕ)
    → 0 < capacity
    → length name ≤ capacity
    → next ≤ length bs
    → Returns (Decoded bs capacity) (decode_loop steps bs capacity position next name)
unfolding decode_loop
decode_loop-Returns zero bs capacity position next name h k l = of_fail
decode_loop-Returns (suc steps) bs capacity position next name h k l =
    Returns-guard _ (ltb position (length bs)) _ λ inside.
      Returns-bind _ _ _ _ (Returns-read bs position (ground arith)) λ label _.
        elim (Bool-cases (label == 0)) [
          | inl e ↦ rw e (
              Returns-bind _ _ _ _ (finish_name-Returns capacity name h k)
                λ text t. of_ok _ (ground arith, ground arith, t))
          | inr e ↦ rw e (elim (Bool-cases (label / 64 == 3)) [
            | inl f ↦ rw f (
                Returns-guard _ (ltb (position + 1) (length bs)) _ λ more.
                  Returns-bind _ _ _ _ (Returns-read bs (position + 1) (ground arith)) λ low _.
                    decode_loop-Returns steps bs capacity (label % 64 * 256 + low)
                      (if next == 0 then position + 2 else next) name h k (ground arith))
            | inr f ↦ rw f (
                Returns-guard _ (fits bs capacity position label name) _ λ room.
                  Returns-bind _ _ _ _ (slice-Returns bs (position + 1) label (ground arith))
                    λ text t.
                      let small = label_size bs label position text t in
                      rw (emit_lem capacity name (text ++ (b'.' ∷ [])) (ground (arith, small))) (
                        decode_loop-Returns steps bs capacity (position + 1 + label) next
                          (name ++ (text ++ (b'.' ∷ []))) h
                          (ground (arith, small, length-append name (text ++ (b'.' ∷ [])))) l))
          ])
        ]

-- On any message, from any offset and with any buffer, `decode_name` reads inside the message, writes
-- inside the buffer and ends, also where pointers form a circle. If it succeeds, the name ends inside the
-- message, and its text with the zero byte fits in the buffer.
pub decode_name-Returns :
    (bs : List ℕ) (offset capacity : ℕ)
    → 0 < capacity
    → Returns (Decoded bs capacity) (decode_name bs offset capacity)
unfolding decode_name
decode_name-Returns bs offset capacity h =
    decode_loop-Returns (length bs) bs capacity offset 0 [] h (omega arith) (omega arith)

-- The text of labels, each with a dot behind it
abbrev pub dotted_labels : List (List ℕ) → List ℕ
dotted_labels [] = []
dotted_labels (l ∷ ls) = (l ++ (b'.' ∷ [])) ++ dotted_labels ls

-- Bytes of labels in a message
abbrev pub label_bytes : List (List ℕ) → List ℕ
label_bytes [] = []
label_bytes (l ∷ ls) = (length l ∷ l) ++ label_bytes ls

-- A successful write
pub record Written (capacity : ℕ) (out : List ℕ) (ls : List (List ℕ)) (out' : List ℕ) : Type 0 where
  pub bytes : out' ≡ out ++ label_bytes ls
  pub sizes : All (λ l. (0 < length l) × (length l ≤ 63)) ls
  pub inside : length out ≤ capacity → length out' ≤ capacity

pub write_labels-Returns :
    (capacity : ℕ) (out : List ℕ) (ls : List (List ℕ))
    → Returns (Written capacity out ls) (write_labels capacity out ls)
unfolding write_labels
write_labels-Returns capacity out [] =
    of_ok _ (record { bytes = sym (append-nil out); sizes = tt; inside = λ h. h })
write_labels-Returns capacity out (l ∷ ls) =
    Returns-guard _
      (not (length l == 0 || (ltb 63 (length l) || leb capacity (length out + 1 + length l)))) _
      λ g. rw (emit_lem capacity out (length l ∷ l) (ground arith)) (
        Returns-mono _ _ _ (write_labels-Returns capacity (out ++ (length l ∷ l)) ls) λ out' w.
          record {
            bytes = w.bytes ∙ append_assoc out (length l ∷ l) (label_bytes ls);
            sizes = (ground arith, w.sizes);
            inside = λ h. w.inside (ground (arith, length-append out (length l ∷ l)));
          })
