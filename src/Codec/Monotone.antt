-- ===== src/Codec/Monotone.antt =====
-- More room changes nothing: what `smpp34_pack` writes into a buffer, it writes into a longer one.
use libsmpp.Prelude.{
  ℕ, suc, ◌-◌, ◌≤◌, ◌≡◌, ap, leb, ltb, leb→gt, ltb→ge, gt→leb, ge→ltb, Option, none, some, List, [],
  ◌∷◌, ◌++◌, length, arith,
}
use libsmpp.Codec.Rules.{Kind, val08, val16, val32, octet, Rules, kind_of}
use libsmpp.Codec.Checks.{Check, value_dec, tlv_id, dest_flag}
use libsmpp.Codec.Frames.{
  Field, u32, u08, c_octet, Part, plain, octet8, dad, udad, Frame, frame, header, frame_of,
}
use libsmpp.Codec.Octets.{
  Writer, skip, ◌▹◌, w08, w16, w32, Width, big_endian, pack_word, pack_c_octet, pack_octet8,
  pack_octet16,
}
use libsmpp.Codec.Fields.{
  Value, Struct, pack_field, pack_struct, sme_fields, Dad, sme_address, distribution_list_name,
  no_address, udad_fields, pack_dad, pack_chain, PartValue, pack_part, Parts, pack_parts,
}
use libsmpp.Codec.Pdu.{
  TlvValue, Tlv, pack_tlv_value, pack_tlv, Tlvs, pack_tlvs, Pdu, pack_frame, PduOf, pack_any,
  smpp34_pack,
}
use libsmpp.Codec.RoundTrip.{>>=-eq-some, ▹-some}
use libsmpp.Codec.RoundTrip.Words.{guard_false}

abbrev pub IsMonotone : Writer → Type 0
IsMonotone w = (left more : ℕ) (bs : List ℕ) → left ≤ more → w left ≡ some bs → w more ≡ some bs

skip-IsMonotone : IsMonotone skip
unfolding skip
skip-IsMonotone left more bs le h = h

▹-IsMonotone : (w v : Writer) → IsMonotone w → IsMonotone v → IsMonotone (w ▹ v)
unfolding ◌▹◌
▹-IsMonotone w v first second left more bs le h =
    let p = ▹-some w v left bs h in
    rw
      (
        first left more p.0 le p.2,
        second (left - length p.0) (more - length p.0) p.1 (omega arith) p.3,
      )
      (ap (λ (xs : List ℕ). some xs) p.4)

pack_word-IsMonotone :
    (width : Width) (check : Check) (v : ℕ) → IsMonotone (pack_word width check v)
unfolding pack_word
pack_word-IsMonotone width check v left more bs le h =
    let p = guard_false (leb left (length (big_endian width v))) _ bs h in
    let room = leb→gt left (length (big_endian width v)) p.0 in
    rw (gt→leb more (length (big_endian width v)) (omega arith)) p.1

pack_c_octet-IsMonotone : (size : ℕ) (text : List ℕ) → IsMonotone (pack_c_octet size text)
unfolding pack_c_octet
pack_c_octet-IsMonotone size text left more bs le h =
    let p = guard_false (ltb left (suc (length text))) _ bs h in
    let room = ltb→ge left (suc (length text)) p.0 in
    rw (ge→ltb more (suc (length text)) (omega arith)) p.1

pack_octet8-IsMonotone : (size len : ℕ) (array : List ℕ) → IsMonotone (pack_octet8 size len array)
unfolding pack_octet8
pack_octet8-IsMonotone size len array left more bs le h =
    let p = guard_false (leb left len) _ bs h in
    let room = leb→gt left len p.0 in rw (gt→leb more len (omega arith)) p.1

pack_octet16-IsMonotone : (size len : ℕ) (array : List ℕ) → IsMonotone (pack_octet16 size len array)
unfolding pack_octet16
pack_octet16-IsMonotone size len array left more bs le h =
    let p = guard_false (leb left len) _ bs h in
    let room = leb→gt left len p.0 in rw (gt→leb more len (omega arith)) p.1

pack_field-IsMonotone : (f : Field) (v : Value f) → IsMonotone (pack_field f v)
unfolding pack_field
pack_field-IsMonotone (u32 par check) v = pack_word-IsMonotone w32 check v
pack_field-IsMonotone (u08 par check) v = pack_word-IsMonotone w08 check v
pack_field-IsMonotone (c_octet par size) v = pack_c_octet-IsMonotone size v

pack_struct-IsMonotone : (fs : List Field) (x : Struct fs) → IsMonotone (pack_struct fs x)
unfolding pack_struct
pack_struct-IsMonotone [] x = skip-IsMonotone
pack_struct-IsMonotone (f ∷ fs) x =
    ▹-IsMonotone (pack_field f x.0) (pack_struct fs x.1) (pack_field-IsMonotone f x.0)
      (pack_struct-IsMonotone fs x.1)

pack_dad-IsMonotone : (d : Dad) → IsMonotone (pack_dad d)
unfolding pack_dad
pack_dad-IsMonotone (sme_address x) =
    ▹-IsMonotone (pack_word w08 dest_flag 1) (pack_struct sme_fields x)
      (pack_word-IsMonotone w08 dest_flag 1) (pack_struct-IsMonotone sme_fields x)
pack_dad-IsMonotone (distribution_list_name text) =
    ▹-IsMonotone (pack_word w08 dest_flag 2) (pack_c_octet 21 text)
      (pack_word-IsMonotone w08 dest_flag 2) (pack_c_octet-IsMonotone 21 text)
pack_dad-IsMonotone (no_address flag) = pack_word-IsMonotone w08 dest_flag flag

pack_chain-IsMonotone :
    {A : Type 0} (w : A → Writer)
    → ((a : A) → IsMonotone (w a))
    → (xs : List A) → IsMonotone (pack_chain w xs)
unfolding pack_chain
pack_chain-IsMonotone w each [] = skip-IsMonotone
pack_chain-IsMonotone w each (x ∷ xs) =
    ▹-IsMonotone (w x) (pack_chain w xs) (each x) (pack_chain-IsMonotone w each xs)

pack_part-IsMonotone : (p : Part) (v : PartValue p) → IsMonotone (pack_part p v)
unfolding pack_part
pack_part-IsMonotone (plain f) v = pack_field-IsMonotone f v
pack_part-IsMonotone (octet8 count par size) v =
    ▹-IsMonotone (pack_word w08 value_dec v.0) (pack_octet8 size v.0 v.1)
      (pack_word-IsMonotone w08 value_dec v.0) (pack_octet8-IsMonotone size v.0 v.1)
pack_part-IsMonotone (dad count par) v =
    ▹-IsMonotone (pack_word w08 value_dec v.0) (pack_chain pack_dad v.1)
      (pack_word-IsMonotone w08 value_dec v.0)
      (pack_chain-IsMonotone pack_dad pack_dad-IsMonotone v.1)
pack_part-IsMonotone (udad count par) v =
    ▹-IsMonotone (pack_word w08 value_dec v.0) (pack_chain (pack_struct udad_fields) v.1)
      (pack_word-IsMonotone w08 value_dec v.0)
      (pack_chain-IsMonotone (pack_struct udad_fields) (pack_struct-IsMonotone udad_fields) v.1)

pack_parts-IsMonotone : (ps : List Part) (x : Parts ps) → IsMonotone (pack_parts ps x)
unfolding pack_parts
pack_parts-IsMonotone [] x = skip-IsMonotone
pack_parts-IsMonotone (p ∷ ps) x =
    ▹-IsMonotone (pack_part p x.0) (pack_parts ps x.1) (pack_part-IsMonotone p x.0)
      (pack_parts-IsMonotone ps x.1)

pack_tlv_value-IsMonotone :
    (k : Kind) (len : ℕ) (v : TlvValue k) → IsMonotone (pack_tlv_value k len v)
unfolding pack_tlv_value
pack_tlv_value-IsMonotone val08 len v = pack_word-IsMonotone w08 value_dec v
pack_tlv_value-IsMonotone val16 len v = pack_word-IsMonotone w16 value_dec v
pack_tlv_value-IsMonotone val32 len v = pack_word-IsMonotone w32 value_dec v
pack_tlv_value-IsMonotone (octet size) len v = pack_octet16-IsMonotone size len v

pack_tlv-IsMonotone : (rules : Rules) (t : Tlv rules) → IsMonotone (pack_tlv rules t)
unfolding pack_tlv
pack_tlv-IsMonotone rules t =
    ▹-IsMonotone (pack_word w16 tlv_id t.0)
      (pack_word w16 value_dec t.1 ▹ pack_tlv_value (kind_of rules t.0) t.1 t.2)
      (pack_word-IsMonotone w16 tlv_id t.0)
      (▹-IsMonotone (pack_word w16 value_dec t.1) (pack_tlv_value (kind_of rules t.0) t.1 t.2)
        (pack_word-IsMonotone w16 value_dec t.1)
        (pack_tlv_value-IsMonotone (kind_of rules t.0) t.1 t.2))

pack_tlvs-IsMonotone : (tlv : Option Rules) (chain : Tlvs tlv) → IsMonotone (pack_tlvs tlv chain)
unfolding pack_tlvs
pack_tlvs-IsMonotone none chain = skip-IsMonotone
pack_tlvs-IsMonotone (some rules) chain =
    pack_chain-IsMonotone (pack_tlv rules) (pack_tlv-IsMonotone rules) chain

abbrev command_length : (f : Frame) → Pdu f → ℕ
command_length (frame body tlv) x = x.0

pack_any-more :
    (f : Option Frame) (size more : ℕ) (x x' : PduOf f) (octets : List ℕ)
    → size ≤ more
    → pack_any f size x ≡ some (octets, x')
    → pack_any f more x ≡ some (octets, x')
unfolding pack_any pack_frame
pack_any-more none size more x x' octets le h = absurd cc
pack_any-more (some (frame body tlv)) size more x x' octets le h =
    let w = pack_word w32 value_dec x.0 ▹ pack_parts (header ++ body) x.1 ▹ pack_tlvs tlv x.2 in
    let m = >>=-eq-some (w size) _ (octets, x') h in
    let mono =
      ▹-IsMonotone (pack_word w32 value_dec x.0)
        (pack_parts (header ++ body) x.1 ▹ pack_tlvs tlv x.2)
        (pack_word-IsMonotone w32 value_dec x.0)
        (▹-IsMonotone (pack_parts (header ++ body) x.1) (pack_tlvs tlv x.2)
          (pack_parts-IsMonotone (header ++ body) x.1) (pack_tlvs-IsMonotone tlv x.2)) in
    rw (mono size more m.0 le m.1) m.2

-- What `smpp34_pack` does with a buffer, it does with every longer one.
pub smpp34_pack-more :
    (type size more : ℕ) (x x' : PduOf (frame_of type)) (octets : List ℕ)
    → size ≤ more
    → smpp34_pack type size x ≡ some (octets, x')
    → smpp34_pack type more x ≡ some (octets, x')
unfolding smpp34_pack
smpp34_pack-more type size more x x' octets le h =
    pack_any-more (frame_of type) size more x x' octets le h
