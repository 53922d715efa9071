-- ===== src/Codec/Room.antt =====
-- `smpp34_pack` stays within the room that it is given.
use libsmpp.Prelude.{
  ℕ, suc, ◌-◌, ◌≤◌, ◌≡◌, sym, leb, ltb, leb→gt, Bool-cases, inl, inr, Option, none, some, some_eq,
  List, [], ◌∷◌, length, length-append, length-take, arith,
}
use libsmpp.Codec.Rules.{Kind, val08, val16, val32, octet, Rules, kind_of}
use libsmpp.Codec.Checks.{value_dec, tlv_id, dest_flag}
use libsmpp.Codec.Frames.{Field, u32, u08, c_octet, Part, plain, octet8, dad, udad, Frame, frame}
use libsmpp.Codec.Octets.{
  Writer, skip, ◌▹◌, w08, w16, w32, Width, pack_word, truncated, pack_c_octet, pack_octet8,
  pack_octet16,
}
use libsmpp.Codec.Fields.{
  Value, Struct, pack_field, pack_struct, sme_fields, Dad, sme_address, distribution_list_name,
  no_address, udad_fields, pack_dad, pack_chain, PartValue, pack_part, Parts, pack_parts,
}
use libsmpp.Codec.Pdu.{TlvValue, Tlv, pack_tlv_value, pack_tlv, Tlvs, pack_tlvs, Pdu}
use libsmpp.Codec.RoundTrip.{▹-some}
use libsmpp.Codec.RoundTrip.Words.{guard_false, pack_word-some, pack_c_octet-some}

-- A writer appends no more octets than there is room for.
abbrev pub Fits : Writer → Type 0
Fits w = (left : ℕ) (bs : List ℕ) → w left ≡ some bs → length bs ≤ left

skip-Fits : Fits skip
unfolding skip
skip-Fits left bs h = rw (sym (some_eq h)) (omega arith)

pub ▹-Fits : (w v : Writer) → Fits w → Fits v → Fits (w ▹ v)
▹-Fits w v first second left bs h =
    let p = ▹-some w v left bs h in
    rw (sym p.4)
      (omega (arith, length-append p.0 p.1, first left p.0 p.2, second (left - length p.0) p.1 p.3))

pub pack_word-Fits : (width : Width) (check : _) (v : ℕ) → Fits (pack_word width check v)
pack_word-Fits width check v left bs h = omega (arith, (pack_word-some width check v left bs h).2)

length-truncated : (size : ℕ) (text : List ℕ) → length (truncated size text) ≤ length text
unfolding truncated
length-truncated size text = elim (Bool-cases (ltb size (suc (length text)))) [
  | inl e ↦ rw e (omega (arith, length-take (size - 1) text))
  | inr e ↦ rw e (omega arith)
]

pack_c_octet-Fits : (size : ℕ) (text : List ℕ) → Fits (pack_c_octet size text)
pack_c_octet-Fits size text left bs h =
    let p = pack_c_octet-some size text left bs h in
    rw (sym p.1)
      (omega (arith, p.0, length-truncated size text, length-append (truncated size text) (0 ∷ [])))

pack_octet8-Fits : (size len : ℕ) (array : List ℕ) → Fits (pack_octet8 size len array)
unfolding pack_octet8
pack_octet8-Fits size len array left bs h =
    let p = guard_false (leb left len) _ bs h in
    let q = guard_false (leb size len) _ bs p.1 in
    rw (sym (some_eq q.1)) (omega (arith, length-take len array, leb→gt left len p.0))

pack_octet16-Fits : (size len : ℕ) (array : List ℕ) → Fits (pack_octet16 size len array)
unfolding pack_octet16
pack_octet16-Fits size len array left bs h =
    let p = guard_false (leb left len) _ bs h in
    let q = guard_false (ltb size len) _ bs p.1 in
    rw (sym (some_eq q.1)) (omega (arith, length-take len array, leb→gt left len p.0))

pack_field-Fits : (f : Field) (v : Value f) → Fits (pack_field f v)
unfolding pack_field
pack_field-Fits (u32 par check) v = pack_word-Fits w32 check v
pack_field-Fits (u08 par check) v = pack_word-Fits w08 check v
pack_field-Fits (c_octet par size) v = pack_c_octet-Fits size v

pack_struct-Fits : (fs : List Field) (x : Struct fs) → Fits (pack_struct fs x)
unfolding pack_struct
pack_struct-Fits [] x = skip-Fits
pack_struct-Fits (f ∷ fs) x =
    ▹-Fits (pack_field f x.0) (pack_struct fs x.1) (pack_field-Fits f x.0) (pack_struct-Fits fs x.1)

pack_dad-Fits : (d : Dad) → Fits (pack_dad d)
unfolding pack_dad
pack_dad-Fits (sme_address x) =
    ▹-Fits (pack_word w08 dest_flag 1) (pack_struct sme_fields x) (pack_word-Fits w08 dest_flag 1)
      (pack_struct-Fits sme_fields x)
pack_dad-Fits (distribution_list_name text) =
    ▹-Fits (pack_word w08 dest_flag 2) (pack_c_octet 21 text) (pack_word-Fits w08 dest_flag 2)
      (pack_c_octet-Fits 21 text)
pack_dad-Fits (no_address flag) = pack_word-Fits w08 dest_flag flag

pack_chain-Fits :
    {A : Type 0} (w : A → Writer) → ((a : A) → Fits (w a)) → (xs : List A) → Fits (pack_chain w xs)
unfolding pack_chain
pack_chain-Fits w each [] = skip-Fits
pack_chain-Fits w each (x ∷ xs) =
    ▹-Fits (w x) (pack_chain w xs) (each x) (pack_chain-Fits w each xs)

pack_part-Fits : (p : Part) (v : PartValue p) → Fits (pack_part p v)
unfolding pack_part
pack_part-Fits (plain f) v = pack_field-Fits f v
pack_part-Fits (octet8 count par size) v =
    ▹-Fits (pack_word w08 value_dec v.0) (pack_octet8 size v.0 v.1)
      (pack_word-Fits w08 value_dec v.0) (pack_octet8-Fits size v.0 v.1)
pack_part-Fits (dad count par) v =
    ▹-Fits (pack_word w08 value_dec v.0) (pack_chain pack_dad v.1)
      (pack_word-Fits w08 value_dec v.0) (pack_chain-Fits pack_dad pack_dad-Fits v.1)
pack_part-Fits (udad count par) v =
    ▹-Fits (pack_word w08 value_dec v.0) (pack_chain (pack_struct udad_fields) v.1)
      (pack_word-Fits w08 value_dec v.0)
      (pack_chain-Fits (pack_struct udad_fields) (pack_struct-Fits udad_fields) v.1)

pub pack_parts-Fits : (ps : List Part) (x : Parts ps) → Fits (pack_parts ps x)
unfolding pack_parts
pack_parts-Fits [] x = skip-Fits
pack_parts-Fits (p ∷ ps) x =
    ▹-Fits (pack_part p x.0) (pack_parts ps x.1) (pack_part-Fits p x.0) (pack_parts-Fits ps x.1)

pack_tlv_value-Fits : (k : Kind) (len : ℕ) (v : TlvValue k) → Fits (pack_tlv_value k len v)
unfolding pack_tlv_value
pack_tlv_value-Fits val08 len v = pack_word-Fits w08 value_dec v
pack_tlv_value-Fits val16 len v = pack_word-Fits w16 value_dec v
pack_tlv_value-Fits val32 len v = pack_word-Fits w32 value_dec v
pack_tlv_value-Fits (octet size) len v = pack_octet16-Fits size len v

pack_tlv-Fits : (rules : Rules) (t : Tlv rules) → Fits (pack_tlv rules t)
unfolding pack_tlv
pack_tlv-Fits rules t =
    ▹-Fits (pack_word w16 tlv_id t.0)
      (pack_word w16 value_dec t.1 ▹ pack_tlv_value (kind_of rules t.0) t.1 t.2)
      (pack_word-Fits w16 tlv_id t.0)
      (▹-Fits (pack_word w16 value_dec t.1) (pack_tlv_value (kind_of rules t.0) t.1 t.2)
        (pack_word-Fits w16 value_dec t.1) (pack_tlv_value-Fits (kind_of rules t.0) t.1 t.2))

pub pack_tlvs-Fits : (tlv : Option Rules) (chain : Tlvs tlv) → Fits (pack_tlvs tlv chain)
unfolding pack_tlvs
pack_tlvs-Fits none chain = skip-Fits
pack_tlvs-Fits (some rules) chain = pack_chain-Fits (pack_tlv rules) (pack_tlv-Fits rules) chain

abbrev pub command_length : (f : Frame) → Pdu f → ℕ
command_length (frame body tlv) x = x.0
