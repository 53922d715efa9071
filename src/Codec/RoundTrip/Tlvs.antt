-- ===== src/Codec/RoundTrip/Tlvs.antt =====
-- The chain of optional parameters.
use libsmpp.Prelude.{
  ℕ, zero, suc, ◌+◌, ◌-◌, ◌≤◌, ◌<◌, ◌≡◌, refl, ap, sym, ◌∙◌, ltb, lt→ltb, ge→ltb, true, Option,
  none, some, some_eq, List, [], ◌∷◌, ◌++◌, append_assoc, length, length-append, reverse,
  reverse_aux, All, arith,
}
use libsmpp.Codec.Checks.{value_dec, tlv_id}
use libsmpp.Codec.Rules.{Kind, val08, val16, val32, octet, Rules, kind_of}
use libsmpp.Codec.Octets.{skip, give, ◌▹◌, ◌▸◌, w08, w16, w32, big_endian, pack_word, unpack_word}
use libsmpp.Codec.Fields.{pack_chain}
use libsmpp.Codec.Pdu.{
  TlvValue, Tlv, pack_tlv_value, unpack_tlv_value, pack_tlv, unpack_tlv, unpack_tlvs, Tlvs,
  pack_tlvs, unpack_optional,
}
use libsmpp.Codec.RoundTrip.{Restores, ▹-some, ▸-Restores, give-Restores}
use libsmpp.Codec.RoundTrip.Words.{pack_word-some, pack_word-Restores, pack_octet16-Restores}

-- A value has the width of the member that its tag selects, or as many octets as `length` says.
abbrev pub IsTlvValue : (k : Kind) → ℕ → TlvValue k → Type 0
IsTlvValue val08 len v = v < 256
IsTlvValue val16 len v = v < 65536
IsTlvValue val32 len v = v < 4294967296
IsTlvValue (octet size) len array = len ≡ length array

abbrev pub IsTlv : (rules : Rules) → Tlv rules → Type 0
IsTlv rules t = (t.0 < 65536) × (t.1 < 65536) × IsTlvValue (kind_of rules t.0) t.1 t.2

abbrev pub AreTlvs : (tlv : Option Rules) → Tlvs tlv → Type 0
AreTlvs none chain = Unit
AreTlvs (some rules) chain = All (IsTlv rules) chain

-- The chain arrives in the opposite order.
abbrev pub received_tlvs : (tlv : Option Rules) → Tlvs tlv → Tlvs tlv
received_tlvs none chain = chain
received_tlvs (some rules) chain = reverse chain

pack_tlv_value-Restores :
    (k : Kind) (len : ℕ) (v : TlvValue k)
    → IsTlvValue k len v
    → Restores (pack_tlv_value k len v) (unpack_tlv_value k len) v
unfolding pack_tlv_value unpack_tlv_value
pack_tlv_value-Restores val08 len v is = pack_word-Restores w08 value_dec v is
pack_tlv_value-Restores val16 len v is = pack_word-Restores w16 value_dec v is
pack_tlv_value-Restores val32 len v is = pack_word-Restores w32 value_dec v is
pack_tlv_value-Restores (octet size) len v is = rw is (pack_octet16-Restores size v)

module _ (rules : Rules) where
  pack_tlv-Restores :
      (t : Tlv rules) → IsTlv rules t → Restores (pack_tlv rules t) (unpack_tlv rules) t
  unfolding pack_tlv unpack_tlv
  pack_tlv-Restores t is =
      let kind = kind_of rules t.0 in
      ▸-Restores (pack_word w16 tlv_id t.0)
        (pack_word w16 value_dec t.1 ▹ pack_tlv_value kind t.1 t.2) (unpack_word w16 tlv_id) _ t.0 t
        (pack_word-Restores w16 tlv_id t.0 is.0)
        (▸-Restores (pack_word w16 value_dec t.1) (pack_tlv_value kind t.1 t.2)
          (unpack_word w16 value_dec)
          (λ len. unpack_tlv_value kind len ▸ λ value. give (t.0, len, value)) t.1 t
          (pack_word-Restores w16 value_dec t.1 is.1)
          (give-Restores (pack_tlv_value kind t.1 t.2) (unpack_tlv_value kind t.1)
            (λ value. (t.0, t.1, value)) t.2 (pack_tlv_value-Restores kind t.1 t.2 is.2)))

  -- An entry is not empty.
  pack_tlv_pos :
      (t : Tlv rules) (left : ℕ) (bs : List ℕ) → pack_tlv rules t left ≡ some bs → 0 < length bs
  unfolding pack_tlv big_endian
  pack_tlv_pos t left bs h =
      let p =
        ▹-some (pack_word w16 tlv_id t.0)
          (pack_word w16 value_dec t.1 ▹ pack_tlv_value (kind_of rules t.0) t.1 t.2) left bs h in
      let two : length p.0 ≡ 2 =
        sym (ap (λ (xs : List ℕ). length xs) (pack_word-some w16 tlv_id t.0 left p.0 p.2).1) in
      rw (sym p.4) (omega (arith, two, length-append p.0 p.1))

  pack_chain-length :
      (ts : List (Tlv rules)) (left : ℕ) (bs : List ℕ)
      → pack_chain (pack_tlv rules) ts left ≡ some bs
      → length ts ≤ length bs
  unfolding pack_chain
  pack_chain-length [] left bs h = omega arith
  pack_chain-length (t ∷ ts) left bs h =
      let p = ▹-some (pack_tlv rules t) (pack_chain (pack_tlv rules) ts) left bs h in
      rw (sym p.4) (
        omega (
          arith,
          pack_tlv_pos t left p.0 p.2,
          pack_chain-length ts (left - length p.0) p.1 p.3,
          length-append p.0 p.1,
        ))

  unpack_tlvs-stop :
      (fuel command_length : ℕ) (chain : List (Tlv rules)) (rest : List ℕ)
      → unpack_tlvs rules (command_length + length rest) command_length fuel chain rest
        ≡ some (chain, rest)
  unfolding unpack_tlvs
  unpack_tlvs-stop zero command_length chain rest =
      rw (ge→ltb (command_length + length rest - length rest) command_length (omega arith)) refl
  unpack_tlvs-stop (suc fuel) command_length chain rest =
      rw (ge→ltb (command_length + length rest - length rest) command_length (omega arith)) refl

  unpack_tlvs-pack_chain :
      (ts chain : List (Tlv rules)) (fuel command_length left : ℕ) (bs rest : List ℕ)
      → All (IsTlv rules) ts
      → length ts ≤ fuel
      → length bs ≤ command_length
      → pack_chain (pack_tlv rules) ts left ≡ some bs
      → unpack_tlvs rules (command_length + length rest) command_length fuel chain (bs ++ rest)
        ≡ some (reverse_aux ts chain, rest)
  unfolding pack_chain unpack_tlvs skip
  unpack_tlvs-pack_chain [] chain fuel command_length left bs rest is enough within h =
      rw (sym (some_eq h)) (unpack_tlvs-stop fuel command_length chain rest)
  unpack_tlvs-pack_chain (t ∷ ts) chain zero command_length left bs rest is enough within h =
      absurd (omega arith)
  unpack_tlvs-pack_chain (t ∷ ts) chain (suc fuel) command_length left bs rest is enough within h =
      let p = ▹-some (pack_tlv rules t) (pack_chain (pack_tlv rules) ts) left bs h in
      let cut = length-append p.0 p.1 in
      let joined : length (p.0 ++ p.1) ≡ length bs = ap (λ (xs : List ℕ). length xs) p.4 in
      let more : ltb (command_length + length rest - length (bs ++ rest)) command_length ≡ true =
        lt→ltb _ _
          (omega (arith, length-append bs rest, joined, cut, pack_tlv_pos t left p.0 p.2)) in
      let parsed : unpack_tlv rules (bs ++ rest) ≡ some (t, p.1 ++ rest) =
        ap (λ (xs : List ℕ). unpack_tlv rules (xs ++ rest)) (sym p.4)
        ∙ ap (λ (xs : List ℕ). unpack_tlv rules xs) (append_assoc p.0 p.1 rest)
        ∙ pack_tlv-Restores t is.0 left p.0 (p.1 ++ rest) p.2 in
      rw (more, parsed)
        (unpack_tlvs-pack_chain ts (t ∷ chain) fuel command_length (left - length p.0) p.1 rest is.1
          (omega arith) (omega (arith, joined, cut)) p.3)

pub pack_tlvs-optional :
    (tlv : Option Rules) (chain : Tlvs tlv) (command_length left : ℕ) (bs rest : List ℕ)
    → AreTlvs tlv chain
    → length bs ≤ command_length
    → pack_tlvs tlv chain left ≡ some bs
    → unpack_optional tlv (command_length + length rest) command_length (bs ++ rest)
      ≡ some (received_tlvs tlv chain, rest)
unfolding pack_tlvs unpack_optional skip
pack_tlvs-optional none chain command_length left bs rest is within h = rw (sym (some_eq h)) refl
pack_tlvs-optional (some rules) chain command_length left bs rest is within h =
    unpack_tlvs-pack_chain rules chain [] (length (bs ++ rest)) command_length left bs rest is
      (omega (arith, pack_chain-length rules chain left bs h, length-append bs rest)) within h
