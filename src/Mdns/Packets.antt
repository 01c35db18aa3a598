-- ===== src/Mdns/Packets.antt =====
-- The packets of shared/protocol/mdns.c: `build_packet` writes inside its buffer.
use protable_airplay.Base.{
  ℕ, zero, suc, ◌+◌, ◌≤◌, ◌≡◌, refl, ap, ◌∙◌, not, List, [], ◌∷◌, ◌++◌, ltb, length, take, drop,
  arith, length-append, take-append_left, length-take, length-drop, le→ltb_false, be_bytes,
  length-be_bytes, Returns, of_ok, Returns-bind, Returns-guard, Returns-mono,
}
use protable_airplay.Mdns.Names.{emit_lem}
use protable_airplay.Mdns.RoundTrip.{write_name-Returns}
use protable_airplay.Mdns.{
  Config, emit, patch, write_name, begin_record, pointer_record, service_record,
}

-- More is written, inside the buffer and behind the flags of a response.
pub record Extends (capacity n : ℕ) (out' : List ℕ) : Type 0 where
  pub longer : n ≤ length out'
  pub inside : length out' ≤ capacity
  pub behind : 12 ≤ length out'
  pub flags : take 4 out' ≡ 0 ∷ 0 ∷ 0x84 ∷ 0 ∷ []

pub Extends-mono :
    (capacity m n : ℕ) (out : List ℕ)
    → Extends capacity m out
    → n ≤ length out
    → Extends capacity n out
Extends-mono capacity m n out e h = record {
  longer = h;
  inside = e.inside;
  behind = e.behind;
  flags = e.flags;
}

take-take_append :
    (n i : ℕ) (xs ys : List ℕ) → n ≤ i → i ≤ length xs → take n (take i xs ++ ys) ≡ take n xs
take-take_append zero i xs ys h k = refl
take-take_append (suc n) zero xs ys h k = absurd (omega arith)
take-take_append (suc n) (suc i) [] ys h k = absurd (omega arith)
take-take_append (suc n) (suc i) (x ∷ xs) ys h k =
    ap (λ zs. x ∷ zs) (take-take_append n i xs ys (omega arith) (omega arith))

pub emit-Extends :
    (capacity n : ℕ) (out bs : List ℕ)
    → Extends capacity n out
    → length out + length bs ≤ capacity
    → Returns (Extends capacity (length out + length bs)) (emit capacity out bs)
emit-Extends capacity n out bs e h = rw (emit_lem capacity out bs h) (
    of_ok _ (record {
      longer = omega (arith, length-append out bs);
      inside = omega (arith, length-append out bs);
      behind = omega (arith, e.behind, length-append out bs);
      flags = take-append_left 4 out bs (omega (arith, e.behind)) ∙ e.flags;
    }))

pub patch-Extends :
    (capacity n : ℕ) (out : List ℕ) (i v : ℕ)
    → i + 2 ≤ length out
    → 4 ≤ i
    → Extends capacity n out
    → Returns (Extends capacity n) (patch out i v)
unfolding patch
patch-Extends capacity n out i v h k e = rw (le→ltb_false (length out) (i + 2) h) (
    of_ok _ (record {
      longer = omega (arith, same, e.longer);
      inside = omega (arith, same, e.inside);
      behind = omega (arith, same, e.behind);
      flags = take-take_append 4 i out (be_bytes v 2 ++ drop (i + 2) out) k (omega arith) ∙ e.flags;
    }))
  where
    same : length (take i out ++ (be_bytes v 2 ++ drop (i + 2) out)) ≡ length out
    same = omega (
      arith,
      length-append (take i out) (be_bytes v 2 ++ drop (i + 2) out),
      length-append (be_bytes v 2) (drop (i + 2) out),
      length-be_bytes v 2,
      length-take i out,
      length-drop (i + 2) out,
    )

pub write_name-Extends :
    (capacity n : ℕ) (out name : List ℕ)
    → Extends capacity n out
    → Returns (Extends capacity (length out)) (write_name capacity out name)
write_name-Extends capacity n out name e =
    Returns-mono _ _ _ (write_name-Returns capacity out name) λ out' w. record {
      longer = omega (arith, ap length w.bytes, length-append out _);
      inside = w.inside;
      behind = omega (arith, e.behind, ap length w.bytes, length-append out _);
      flags = ap (take 4) w.bytes ∙ take-append_left 4 out _ (omega (arith, e.behind)) ∙ e.flags;
    }

pub begin_record-Extends :
    (capacity n : ℕ) (out : List ℕ) (kind class ttl : ℕ)
    → Extends capacity n out
    → Returns (Extends capacity (length out + 10)) (begin_record capacity out kind class ttl)
unfolding begin_record
begin_record-Extends capacity n out kind class ttl e =
    Returns-guard _ (not (ltb capacity (length out + 10))) _ λ g.
      Returns-mono _ _ _ (emit-Extends capacity n out _ e (ground (arith, size)))
        λ out' h. Extends-mono capacity _ _ out' h (omega (arith, size, h.longer))
  where
    size : length (be_bytes kind 2 ++ (be_bytes class 2 ++ (be_bytes ttl 4 ++ (0 ∷ 0 ∷ [])))) ≡ 10
    size = omega (
      arith,
      length-append (be_bytes kind 2) (be_bytes class 2 ++ (be_bytes ttl 4 ++ (0 ∷ 0 ∷ []))),
      length-append (be_bytes class 2) (be_bytes ttl 4 ++ (0 ∷ 0 ∷ [])),
      length-append (be_bytes ttl 4) (0 ∷ 0 ∷ []),
      length-be_bytes kind 2,
      length-be_bytes class 2,
      length-be_bytes ttl 4,
    )

-- A record at the end of `out`
pub pointer_record-Extends :
    (c : Config) (capacity ttl n : ℕ) (full out : List ℕ)
    → Extends capacity n out
    → Returns (Extends capacity (length out)) (pointer_record c capacity ttl full out)
unfolding pointer_record
pointer_record-Extends c capacity ttl n full out e =
    Returns-bind _ _ _ _ (write_name-Extends capacity n out c.service_type e) λ out₁ e₁.
      Returns-bind _ _ _ _ (begin_record-Extends capacity _ out₁ 12 1 ttl e₁) λ out₂ e₂.
        Returns-bind _ _ _ _ (write_name-Extends capacity _ out₂ full e₂) λ out₃ e₃.
          patch-Extends capacity (length out) out₃ _ _ (omega (arith, e₂.longer, e₃.longer))
            (omega (arith, e₁.behind))
            (Extends-mono capacity _ _ out₃ e₃ (omega (arith, e₁.longer, e₂.longer, e₃.longer)))

pub service_record-Extends :
    (c : Config) (capacity ttl n : ℕ) (full out : List ℕ)
    → Extends capacity n out
    → Returns (Extends capacity (length out)) (service_record c capacity ttl full out)
unfolding service_record
service_record-Extends c capacity ttl n full out e =
    Returns-bind _ _ _ _ (write_name-Extends capacity n out full e) λ out₁ e₁.
      Returns-bind _ _ _ _ (begin_record-Extends capacity _ out₁ 33 0x8001 ttl e₁) λ out₂ e₂.
        Returns-guard _ (not (ltb capacity (length out₂ + 6))) _ λ g.
          Returns-bind _ _ _ _
            (emit-Extends capacity _ out₂ (0 ∷ 0 ∷ 0 ∷ 0 ∷ be_bytes c.port 2) e₂
              (ground (arith, length-be_bytes c.port 2)))
            λ out₃ e₃.
              Returns-bind _ _ _ _ (write_name-Extends capacity _ out₃ c.hostname e₃) λ out₄ e₄.
                patch-Extends capacity (length out) out₄ _ _
                  (omega (arith, e₂.longer, e₃.longer, e₄.longer)) (omega (arith, e₁.behind))
                  (Extends-mono capacity _ _ out₄ e₄
                    (omega (arith, e₁.longer, e₂.longer, e₃.longer, e₄.longer)))
