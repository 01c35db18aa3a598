-- ===== src/Mdns/Build.antt =====
-- Address and text records of shared/protocol/mdns.c, and the whole packet.
use protable_airplay.Base.{
  ℕ, zero, suc, ◌+◌, ◌-◌, ◌*◌, ◌≤◌, ◌≡◌, refl, ap, inl, inr, ◌||◌, not, Option, none, some, List,
  [], ◌∷◌, ◌++◌, ltb, leb, ◌==◌, length, arith, Bool-cases, ok, ◌>>=◌, Returns, of_ok, of_fail,
  Returns-bind, Returns-guard,
}
use protable_airplay.Mdns.Address.{is_digit, octet, octets, dotted, ended, str_to_ipv4}
use protable_airplay.Mdns.Names.{emit_lem}
use protable_airplay.Mdns.Packets.{
  Extends, Extends-mono, emit-Extends, patch-Extends, write_name-Extends, begin_record-Extends,
  pointer_record-Extends, service_record-Extends,
}
use protable_airplay.Mdns.{
  Config, emit, full_name, address_record, write_entries, text_record, has_address, maybe_address,
  maybe_text, header, build_packet,
}

octet-Returns :
    (text : List ℕ) (value digits : ℕ) → Returns (λ _. Unit {0}) (octet text value digits)
unfolding octet
octet-Returns [] value digits = of_ok _ tt
octet-Returns (c ∷ cs) value digits = elim (Bool-cases (is_digit c)) [
  | inl e ↦ rw e (elim (Bool-cases (ltb 3 (digits + 1) || ltb 255 (value * 10 + (c - b'0')))) [
    | inl f ↦ rw f of_fail
    | inr f ↦ rw f (octet-Returns cs _ _)
  ])
  | inr e ↦ rw e (of_ok _ tt)
]

dotted-Returns : (text : List ℕ) → Returns (λ _. Unit {0}) (dotted text)
unfolding dotted
dotted-Returns [] = of_fail
dotted-Returns (c ∷ cs) = elim (Bool-cases (c == b'.')) [
  | inl e ↦ rw e (of_ok _ tt)
  | inr e ↦ rw e of_fail
]

ended-Returns : (text : List ℕ) → Returns (λ _. Unit {0}) (ended text)
unfolding ended
ended-Returns [] = of_ok _ tt
ended-Returns (c ∷ cs) = of_fail

octets-Returns :
    (left : ℕ) (text : List ℕ) → Returns (λ bs. length bs ≡ suc left) (octets left text)
unfolding octets
octets-Returns zero text = Returns-bind _ _ _ _ (octet-Returns text 0 0) λ (value, digits, rest) _.
    Returns-guard _ (not (digits == 0)) _
      λ _. Returns-bind _ _ _ _ (ended-Returns rest) λ _ _. of_ok _ refl
octets-Returns (suc left) text =
    Returns-bind _ _ _ _ (octet-Returns text 0 0) λ (value, digits, rest) _.
      Returns-guard _ (not (digits == 0)) _ λ _.
        Returns-bind _ _ _ _ (dotted-Returns rest)
          λ text' _. Returns-bind _ _ _ _ (octets-Returns left text') λ bs h. of_ok _ (ap suc h)

address_record-Extends :
    (c : Config) (capacity ttl n : ℕ) (text out : List ℕ)
    → Extends capacity n out
    → Returns (Extends capacity (length out)) (address_record c capacity ttl text out)
unfolding address_record str_to_ipv4
address_record-Extends c capacity ttl n text out e =
    Returns-bind _ _ _ _ (octets-Returns 3 text) λ bytes four.
      Returns-bind _ _ _ _ (write_name-Extends capacity n out c.hostname e) λ out₁ e₁.
        Returns-bind _ _ _ _ (begin_record-Extends capacity _ out₁ 1 0x8001 ttl e₁) λ out₂ e₂.
          Returns-guard _ (not (ltb capacity (length out₂ + 4))) _ λ g.
            Returns-bind _ _ _ _ (emit-Extends capacity _ out₂ bytes e₂ (ground arith)) λ out₃ e₃.
              patch-Extends capacity (length out) out₃ _ _ (omega (arith, e₂.longer, e₃.longer))
                (omega (arith, e₁.behind))
                (Extends-mono capacity _ _ out₃ e₃ (omega (arith, e₁.longer, e₂.longer, e₃.longer)))

write_entries-Extends :
    (capacity n : ℕ) (out : List ℕ) (es : List (Option (List ℕ)))
    → Extends capacity n out
    → Returns (Extends capacity n) (write_entries capacity out es)
unfolding write_entries
write_entries-Extends capacity n out [] e = of_ok _ e
write_entries-Extends capacity n out (none ∷ es) e = of_fail
write_entries-Extends capacity n out (some t ∷ es) e =
    Returns-guard _ (not (ltb 255 (length t) || ltb capacity (length out + 1 + length t))) _ λ g.
      Returns-bind _ _ _ _ (emit-Extends capacity n out (length t ∷ t) e (ground arith)) λ out' e'.
        write_entries-Extends capacity n out' es
          (Extends-mono capacity _ n out' e' (omega (arith, e.longer, e'.longer)))

text_record-Extends :
    (c : Config) (capacity ttl n : ℕ) (full out : List ℕ)
    → Extends capacity n out
    → Returns (Extends capacity (length out)) (text_record c capacity ttl full out)
unfolding text_record
text_record-Extends c capacity ttl n full out e =
    Returns-bind _ _ _ _ (write_name-Extends capacity n out full e) λ out₁ e₁.
      Returns-bind _ _ _ _ (begin_record-Extends capacity _ out₁ 16 0x8001 ttl e₁) λ out₂ e₂.
        Returns-bind _ _ _ _ (write_entries-Extends capacity _ out₂ c.txt_entries e₂) λ out₃ e₃.
          patch-Extends capacity (length out) out₃ _ _ (omega (arith, e₃.longer))
            (omega (arith, e₁.behind))
            (Extends-mono capacity _ _ out₃ e₃ (omega (arith, e₁.longer, e₃.longer)))

maybe_address-Extends :
    (c : Config) (capacity ttl n : ℕ) (out : List ℕ)
    → Extends capacity n out
    → Returns (λ r. Extends capacity (length out) r.1) (maybe_address c capacity ttl out)
unfolding maybe_address
maybe_address-Extends c capacity ttl n out e = go (has_address c)
  where
    go :
        (a : Option (List ℕ))
        → Returns
            (λ (r : ℕ × List ℕ). Extends capacity (length out) r.1)
            (elim a [
              | none ↦ ok (2, out)
              | some text ↦ address_record c capacity ttl text out >>= (λ out'. ok (3, out'))
            ])
    go none = of_ok _ (Extends-mono capacity n _ out e (omega arith))
    go (some text) =
        Returns-bind _ _ _ _ (address_record-Extends c capacity ttl n text out e)
          λ out' h. of_ok _ h

maybe_text-Extends :
    (c : Config) (capacity ttl n : ℕ) (full : List ℕ) (answers : ℕ) (out : List ℕ)
    → Extends capacity n out
    → Returns (λ r. Extends capacity (length out) r.1) (maybe_text c capacity ttl full answers out)
unfolding maybe_text
maybe_text-Extends c capacity ttl n full answers out e =
    elim (Bool-cases (length c.txt_entries == 0)) [
      | inl f ↦ rw f (of_ok _ (Extends-mono capacity n _ out e (omega arith)))
      | inr f ↦ rw f (
          Returns-bind _ _ _ _ (text_record-Extends c capacity ttl n full out e)
            λ out' h. of_ok _ h)
    ]

pub full_name-Returns : (c : Config) → Returns (λ _. Unit {0}) (full_name c)
unfolding full_name
full_name-Returns c =
    Returns-guard _ (not (leb 256 (length (c.instance_name ++ (b'.' ∷ c.service_type))))) _
      λ _. of_ok _ tt

header-Extends :
    (capacity : ℕ) → 12 ≤ capacity → Returns (Extends capacity 12) (emit capacity [] header)
header-Extends capacity h =
    rw (emit_lem capacity [] header h)
      (of_ok _ (record { longer = omega arith; inside = h; behind = omega arith; flags = refl }))

-- For any configuration, time to live and buffer, `build_packet` writes no byte outside the buffer: it
-- fails, or returns a packet that fits and that has the flags of an authoritative response.
pub build_packet-Returns :
    (c : Config) (capacity ttl : ℕ) → Returns (Extends capacity 12) (build_packet c capacity ttl)
unfolding build_packet
build_packet-Returns c capacity ttl = Returns-guard _ (not (ltb capacity 12)) _ λ room.
    Returns-bind _ _ _ _ (header-Extends capacity (ground arith)) λ out e.
      Returns-bind _ _ _ _ (full_name-Returns c) λ full _.
        Returns-bind _ _ _ _ (pointer_record-Extends c capacity ttl _ full out e) λ out₁ e₁.
          Returns-bind _ _ _ _ (service_record-Extends c capacity ttl _ full out₁ e₁) λ out₂ e₂.
            Returns-bind _ _ _ _ (maybe_address-Extends c capacity ttl _ out₂ e₂)
              λ (answers, out₃) e₃.
                Returns-bind _ _ _ _ (maybe_text-Extends c capacity ttl _ full answers out₃ e₃)
                  λ (answers', out₄) e₄.
                    patch-Extends capacity 12 out₄ 6 answers'
                      (omega (arith, e.longer, e₁.longer, e₂.longer, e₃.longer, e₄.longer))
                      (omega arith)
                      (Extends-mono capacity _ _ out₄ e₄
                        (omega (arith, e.longer, e₁.longer, e₂.longer, e₃.longer, e₄.longer)))
