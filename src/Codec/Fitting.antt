-- ===== src/Codec/Fitting.antt =====
-- What fits a frame of libsmpp34 as smpp34_structs.h lays it out.
use libsmpp.Prelude.{
  ℕ, suc, ◌≤◌, ◌<◌, ◌≡◌, ◌≢◌, true, Option, none, some, List, [], ◌∷◌, ◌++◌, length, All,
}
use libsmpp.Codec.Checks.{Check, valid, dest_flag, value_dec, tlv_id}
use libsmpp.Codec.Rules.{Kind, val08, val16, val32, octet, Rules, kind_of}
use libsmpp.Codec.Frames.{
  Field, u32, u08, c_octet, Part, plain, octet8, dad, udad, Frame, frame, header,
}
use libsmpp.Codec.Octets.{Width, w08, w16, w32}
use libsmpp.Codec.Fields.{
  Value, Struct, sme_fields, Dad, sme_address, distribution_list_name, no_address, udad_fields,
  PartValue, Parts,
}
use libsmpp.Codec.Pdu.{TlvValue, Tlv, Tlvs, Pdu, PduOf}
use libsmpp.Codec.RoundTrip.Words.{limit}

-- The octets of a buffer.
abbrev pub AreOctets : List ℕ → Type 0
AreOctets bs = All (λ b. b < 256) bs

-- A number of the C type that passes the check of its field.
abbrev pub IsWord : Width → Check → ℕ → Type 0
IsWord width check v = (v < limit width) × (valid check v ≡ true)

-- A text that fits an array of `size` octets together with the NUL behind it.
abbrev pub IsText : ℕ → List ℕ → Type 0
IsText size text = All (λ b. (b ≢ 0) × (b < 256)) text × (suc (length text) ≤ size)

-- An array of `len` octets in a field of `size`.
abbrev pub IsArray : ℕ → ℕ → List ℕ → Type 0
IsArray size len array = (len ≡ length array) × (length array ≤ size) × AreOctets array

abbrev pub FitsValue : (f : Field) → Value f → Type 0
FitsValue (u32 par check) v = IsWord w32 check v
FitsValue (u08 par check) v = IsWord w08 check v
FitsValue (c_octet par size) text = IsText size text

abbrev pub FitsStruct : (fs : List Field) → Struct fs → Type 0
FitsStruct [] x = Unit
FitsStruct (f ∷ fs) x = FitsValue f x.0 × FitsStruct fs x.1

abbrev pub FitsDad : Dad → Type 0
FitsDad (sme_address x) = FitsStruct sme_fields x
FitsDad (distribution_list_name text) = IsText 21 text
FitsDad (no_address flag) = IsWord w08 dest_flag flag × (flag ≢ 1) × (flag ≢ 2)

-- The octet in front of an array or a chain counts its elements.
abbrev pub FitsPart : (p : Part) → PartValue p → Type 0
FitsPart (plain f) v = FitsValue f v
FitsPart (octet8 count par size) v = IsWord w08 value_dec v.0 × IsArray size v.0 v.1
FitsPart (dad count par) v = IsWord w08 value_dec v.0 × (v.0 ≡ length v.1) × All FitsDad v.1
FitsPart (udad count par) v =
    IsWord w08 value_dec v.0 × (v.0 ≡ length v.1) × All (FitsStruct udad_fields) v.1

abbrev pub FitsParts : (ps : List Part) → Parts ps → Type 0
FitsParts [] x = Unit
FitsParts (p ∷ ps) x = FitsPart p x.0 × FitsParts ps x.1

-- The member that the tag selects, or an array of as many octets as `length` says.
abbrev pub FitsTlvValue : (k : Kind) → ℕ → TlvValue k → Type 0
FitsTlvValue val08 len v = IsWord w08 value_dec v
FitsTlvValue val16 len v = IsWord w16 value_dec v
FitsTlvValue val32 len v = IsWord w32 value_dec v
FitsTlvValue (octet size) len array = IsArray size len array

abbrev pub FitsTlv : (rules : Rules) → Tlv rules → Type 0
FitsTlv rules t =
    IsWord w16 tlv_id t.0 × IsWord w16 value_dec t.1 × FitsTlvValue (kind_of rules t.0) t.1 t.2

abbrev pub FitsTlvs : (tlv : Option Rules) → Tlvs tlv → Type 0
FitsTlvs none chain = Unit
FitsTlvs (some rules) chain = All (FitsTlv rules) chain

abbrev pub FitsPdu : (f : Frame) → Pdu f → Type 0
FitsPdu (frame body tlv) x = FitsParts (header ++ body) x.1 × FitsTlvs tlv x.2

abbrev pub FitsPduOf : (f : Option Frame) → PduOf f → Type 0
FitsPduOf none x = Unit
FitsPduOf (some f) x = FitsPdu f x
