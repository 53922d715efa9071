-- ===== src/Codec/Pdu.antt =====
-- `smpp34_pack` and `smpp34_unpack` as a whole: the optional parameters, the header and the length
-- of the PDU.
use libsmpp.Prelude.{
  ℕ, zero, suc, ◌-◌, ◌==◌, ltb, if◌then◌else◌, Option, none, some, List, [], ◌∷◌, ◌++◌, length,
  drop,
}
use libsmpp.Codec.Checks.{value_dec, tlv_id}
use libsmpp.Codec.Rules.{Kind, val08, val16, val32, octet, Rules, kind_of}
use libsmpp.Codec.Frames.{Frame, frame, header, frame_of}
use libsmpp.Codec.Octets.{
  ◌>>=◌, Writer, Reader, skip, give, ◌▹◌, ◌▸◌, w08, w16, w32, big_endian, pack_word, unpack_word,
  pack_octet16, unpack_octets,
}
use libsmpp.Codec.Fields.{pack_chain, Parts, pack_parts, unpack_parts, packed_parts}

-- The member of the union `value` that a tag selects. An array has the octets that it holds.
abbrev pub TlvValue : Kind → Type 0
TlvValue val08 = ℕ
TlvValue val16 = ℕ
TlvValue val32 = ℕ
TlvValue (octet size) = List ℕ

-- `tlv_t`: `tag`, `length` and `value`.
abbrev pub Tlv : Rules → Type 0
Tlv rules = (tag : ℕ) × ℕ × TlvValue (kind_of rules tag)

unfoldable pub pack_tlv_value : (k : Kind) → ℕ → TlvValue k → Writer
pack_tlv_value val08 len v = pack_word w08 value_dec v
pack_tlv_value val16 len v = pack_word w16 value_dec v
pack_tlv_value val32 len v = pack_word w32 value_dec v
pack_tlv_value (octet size) len array = pack_octet16 size len array

unfoldable pub unpack_tlv_value : (k : Kind) → ℕ → Reader (TlvValue k)
unpack_tlv_value val08 len = unpack_word w08 value_dec
unpack_tlv_value val16 len = unpack_word w16 value_dec
unpack_tlv_value val32 len = unpack_word w32 value_dec
unpack_tlv_value (octet size) len = unpack_octets size len

module _ (rules : Rules) where
  -- `do_tlv` of `smpp34_pack`.
  unfoldable pub pack_tlv : Tlv rules → Writer
  pack_tlv t =
      pack_word w16 tlv_id t.0
      ▹ pack_word w16 value_dec t.1
      ▹ pack_tlv_value (kind_of rules t.0) t.1 t.2

  -- `do_tlv` of `smpp34_unpack`.
  unfoldable pub unpack_tlv : Reader (Tlv rules)
  unpack_tlv = unpack_word w16 tlv_id ▸ λ tag. unpack_word w16 value_dec ▸ λ len.
      unpack_tlv_value (kind_of rules tag) len ▸ λ value. give (tag, len, value)

  -- The `while` loop of TLV in `smpp34_unpack`. `total` octets were given, and the loop goes on
  -- while fewer than `command_length` are used. Every entry takes at least four octets.
  unfoldable pub unpack_tlvs : ℕ → ℕ → ℕ → List (Tlv rules) → Reader (List (Tlv rules))
  unpack_tlvs total command_length zero chain bs =
      if ltb (total - length bs) command_length then none else some (chain, bs)
  unpack_tlvs total command_length (suc fuel) chain bs =
      let more = unpack_tlv bs >>= λ t. unpack_tlvs total command_length fuel (t.0 ∷ chain) t.1 in
      if ltb (total - length bs) command_length then more else some (chain, bs)

-- The chain of optional parameters, for a frame that has some.
abbrev pub Tlvs : Option Rules → Type 0
Tlvs none = Unit
Tlvs (some rules) = List (Tlv rules)

unfoldable pub pack_tlvs : (tlv : Option Rules) → Tlvs tlv → Writer
pack_tlvs none chain = skip
pack_tlvs (some rules) chain = pack_chain (pack_tlv rules) chain

unfoldable pub unpack_optional : (tlv : Option Rules) → ℕ → ℕ → Reader (Tlvs tlv)
unpack_optional none total command_length bs = some (tt, bs)
unpack_optional (some rules) total command_length bs =
    unpack_tlvs rules total command_length (length bs) [] bs

-- The struct of a frame: `command_length`, the rest of header and body, and the optional parameters.
abbrev pub Pdu : Frame → Type 0
Pdu (frame body tlv) = ℕ × Parts (header ++ body) × Tlvs tlv

-- `smpp34_pack` for one frame: the octets at `ptrBuf`, and what it leaves in the source.
unfoldable pub pack_frame : (f : Frame) → ℕ → Pdu f → Option (List ℕ × Pdu f)
pack_frame (frame body tlv) size x =
    (pack_word w32 value_dec x.0 ▹ pack_parts (header ++ body) x.1 ▹ pack_tlvs tlv x.2) size
    >>= λ raw. some (
      big_endian w32 (length raw) ++ drop 4 raw,
      (length raw, packed_parts (header ++ body) x.1, x.2),
    )

-- `smpp34_unpack` for one frame. The last test compares `command_length` with what was used.
unfoldable pub unpack_frame : (f : Frame) → List ℕ → Option (Pdu f)
unpack_frame (frame body tlv) bs = unpack_word w32 value_dec bs >>= λ l.
    unpack_parts (header ++ body) l.1 >>= λ p. unpack_optional tlv (length bs) l.0 p.1 >>= λ t.
    if l.0 == length bs - length t.1 then some (l.0, p.0, t.0) else none

-- The struct that `type` names.
abbrev pub PduOf : Option Frame → Type 0
PduOf none = Unit
PduOf (some f) = Pdu f

unfoldable pub pack_any : (f : Option Frame) → ℕ → PduOf f → Option (List ℕ × PduOf f)
pack_any none size x = none
pack_any (some f) size x = pack_frame f size x

unfoldable pub unpack_any : (f : Option Frame) → List ℕ → Option (PduOf f)
unpack_any none bs = none
unpack_any (some f) bs = unpack_frame f bs

-- `none` stands for the return value -1.
unfoldable pub smpp34_pack :
    (type : ℕ) → ℕ → PduOf (frame_of type) → Option (List ℕ × PduOf (frame_of type))
smpp34_pack type size x = pack_any (frame_of type) size x

unfoldable pub smpp34_unpack : (type : ℕ) → List ℕ → Option (PduOf (frame_of type))
smpp34_unpack type bs = unpack_any (frame_of type) bs
