-- ===== src/Codec/Fields.antt =====
-- The fields of a PDU, packed and unpacked: the frames of def_frame as read by the macros U32, U08,
-- C_OCTET, OCTET8, DAD and UDAD, and the entries of the chains (submit_multi.dad,
-- submit_multi_resp.udad).
use libsmpp.Prelude.{ℕ, zero, suc, ◌==◌, if◌then◌else◌, map, List, [], ◌∷◌}
use libsmpp.Codec.Checks.{value_dec, dest_flag, addr_ton, addr_npi}
use libsmpp.Codec.Frames.{Field, u32, u08, c_octet, Part, plain, octet8, dad, udad}
use libsmpp.Codec.Octets.{
  Writer, Reader, skip, give, ◌▹◌, ◌▸◌, w08, w32, pack_word, unpack_word, pack_c_octet,
  unpack_c_octet, pack_octet8, unpack_octets, truncated,
}

-- The C type of a field: a number, or the text that `strlen` finds in an array.
abbrev pub Value : Field → Type 0
Value (u32 par check) = ℕ
Value (u08 par check) = ℕ
Value (c_octet par size) = List ℕ

abbrev pub Struct : List Field → Type 0
Struct [] = Unit
Struct (f ∷ fs) = Value f × Struct fs

unfoldable pub pack_field : (f : Field) → Value f → Writer
pack_field (u32 par check) v = pack_word w32 check v
pack_field (u08 par check) v = pack_word w08 check v
pack_field (c_octet par size) text = pack_c_octet size text

unfoldable pub unpack_field : (f : Field) → Reader (Value f)
unpack_field (u32 par check) = unpack_word w32 check
unpack_field (u08 par check) = unpack_word w08 check
unpack_field (c_octet par size) = unpack_c_octet size

-- What packing leaves in the source.
unfoldable pub packed_field : (f : Field) → Value f → Value f
packed_field (u32 par check) v = v
packed_field (u08 par check) v = v
packed_field (c_octet par size) text = truncated size text

unfoldable pub pack_struct : (fs : List Field) → Struct fs → Writer
pack_struct [] x = skip
pack_struct (f ∷ fs) x = pack_field f x.0 ▹ pack_struct fs x.1

unfoldable pub unpack_struct : (fs : List Field) → Reader (Struct fs)
unpack_struct [] = give tt
unpack_struct (f ∷ fs) = unpack_field f ▸ λ v. unpack_struct fs ▸ λ x. give (v, x)

unfoldable pub packed_struct : (fs : List Field) → Struct fs → Struct fs
packed_struct [] x = tt
packed_struct (f ∷ fs) x = (packed_field f x.0, packed_struct fs x.1)

-- The member `sme` of a destination of submit_multi, and `dl_name`.
abbrev pub sme_fields : List Field
sme_fields =
    u08 "dest_addr_ton" addr_ton ∷ u08 "dest_addr_npi" addr_npi ∷ c_octet "destination_addr" 21 ∷ []

-- `dad_t`, with the member of the union that `dest_flag` chooses.
pub data Dad : Type 0 where
  sme_address : Struct sme_fields → Dad
  distribution_list_name : List ℕ → Dad
  no_address : ℕ → Dad

-- `udad_t`.
abbrev pub udad_fields : List Field
udad_fields =
    u08 "dest_addr_ton" addr_ton
    ∷ u08 "dest_addr_npi" addr_npi
    ∷ c_octet "destination_addr" 21
    ∷ u32 "error_status_code" value_dec
    ∷ []

-- `do_dad` of `smpp34_pack`.
unfoldable pub pack_dad : Dad → Writer
pack_dad (sme_address x) = pack_word w08 dest_flag 1 ▹ pack_struct sme_fields x
pack_dad (distribution_list_name text) = pack_word w08 dest_flag 2 ▹ pack_c_octet 21 text
pack_dad (no_address flag) = pack_word w08 dest_flag flag

-- `do_dad` of `smpp34_unpack`, behind `dest_flag`.
unfoldable pub unpack_address : ℕ → Reader Dad
unpack_address flag =
    if flag == 1
    then (unpack_struct sme_fields ▸ λ x. give (sme_address x))
    else (if flag == 2
        then (unpack_c_octet 21 ▸ λ text. give (distribution_list_name text))
        else give (no_address flag))

unfoldable pub unpack_dad : Reader Dad
unpack_dad = unpack_word w08 dest_flag ▸ unpack_address

unfoldable pub packed_dad : Dad → Dad
packed_dad (sme_address x) = sme_address (packed_struct sme_fields x)
packed_dad (distribution_list_name text) = distribution_list_name (truncated 21 text)
packed_dad (no_address flag) = no_address flag

module _ {A : Type 0} where
  -- The `while` loop over a chain.
  unfoldable pub pack_chain : (A → Writer) → List A → Writer
  pack_chain w [] = skip
  pack_chain w (x ∷ xs) = w x ▹ pack_chain w xs

  -- The `while` loop with the counter `c`: every entry is put in front of the chain.
  unfoldable pub unpack_chain : Reader A → ℕ → List A → Reader (List A)
  unpack_chain r zero chain = give chain
  unpack_chain r (suc c) chain = r ▸ λ x. unpack_chain r c (x ∷ chain)

-- The C type of a part; where an octet in front counts the elements, with that octet. The octets of
-- a `short_message` are the ones that it holds.
abbrev pub PartValue : Part → Type 0
PartValue (plain f) = Value f
PartValue (octet8 count par size) = ℕ × List ℕ
PartValue (dad count par) = ℕ × List Dad
PartValue (udad count par) = ℕ × List (Struct udad_fields)

unfoldable pub pack_part : (p : Part) → PartValue p → Writer
pack_part (plain f) v = pack_field f v
pack_part (octet8 count par size) v = pack_word w08 value_dec v.0 ▹ pack_octet8 size v.0 v.1
pack_part (dad count par) v = pack_word w08 value_dec v.0 ▹ pack_chain pack_dad v.1
pack_part (udad count par) v =
    pack_word w08 value_dec v.0 ▹ pack_chain (pack_struct udad_fields) v.1

unfoldable pub unpack_part : (p : Part) → Reader (PartValue p)
unpack_part (plain f) = unpack_field f
unpack_part (octet8 count par size) =
    unpack_word w08 value_dec ▸ λ len. unpack_octets size len ▸ λ array. give (len, array)
unpack_part (dad count par) =
    unpack_word w08 value_dec ▸ λ n. unpack_chain unpack_dad n [] ▸ λ chain. give (n, chain)
unpack_part (udad count par) = unpack_word w08 value_dec ▸ λ n.
    unpack_chain (unpack_struct udad_fields) n [] ▸ λ chain. give (n, chain)

abbrev pub Parts : List Part → Type 0
Parts [] = Unit
Parts (p ∷ ps) = PartValue p × Parts ps

unfoldable pub pack_parts : (ps : List Part) → Parts ps → Writer
pack_parts [] x = skip
pack_parts (p ∷ ps) x = pack_part p x.0 ▹ pack_parts ps x.1

unfoldable pub unpack_parts : (ps : List Part) → Reader (Parts ps)
unpack_parts [] = give tt
unpack_parts (p ∷ ps) = unpack_part p ▸ λ v. unpack_parts ps ▸ λ x. give (v, x)

-- What packing leaves in the source.
unfoldable pub packed_part : (p : Part) → PartValue p → PartValue p
packed_part (plain f) v = packed_field f v
packed_part (octet8 count par size) v = v
packed_part (dad count par) v = (v.0, map packed_dad v.1)
packed_part (udad count par) v = (v.0, map (packed_struct udad_fields) v.1)

unfoldable pub packed_parts : (ps : List Part) → Parts ps → Parts ps
packed_parts [] x = tt
packed_parts (p ∷ ps) x = (packed_part p x.0, packed_parts ps x.1)
