-- ===== src/Commands/Command.antt =====
-- `CSMPPCommand` of smppcommands.hpp: a request and its response, packed and unpacked by the codec.
use libsmpp.Prelude.{ℕ, bit_or, ◌==◌, if◌then◌else◌, Option, none, some, List, [], ◌∷◌}
use libsmpp.Codec.CommandStatus
use libsmpp.Codec.Rules.{Rules}
use libsmpp.Codec.Frames.{
  Field, u32, u08, c_octet, Part, plain, octet8, dad, udad, Frame, frame, frame_of,
}
use libsmpp.Codec.Fields.{Value, PartValue, Parts}
use libsmpp.Codec.Pdu.{Tlvs, PduOf, smpp34_unpack}
use libsmpp.Connection.SendPdu.{packed}

-- The three fields of the header behind `command_length`. A type without a frame has no struct.
unfoldable pub command_id_of : (f : Option Frame) → PduOf f → ℕ
command_id_of none x = 0
command_id_of (some (frame body tlv)) x = x.1.0

unfoldable pub command_status_of : (f : Option Frame) → PduOf f → ℕ
command_status_of none x = 0
command_status_of (some (frame body tlv)) x = x.1.1.0

unfoldable pub sequence_number_of : (f : Option Frame) → PduOf f → ℕ
sequence_number_of none x = 0
sequence_number_of (some (frame body tlv)) x = x.1.1.1.0

unfoldable pub with_command_id : (f : Option Frame) → ℕ → PduOf f → PduOf f
with_command_id none id x = x
with_command_id (some (frame body tlv)) id x = (x.0, (id, x.1.1), x.2)

unfoldable pub with_command_status : (f : Option Frame) → ℕ → PduOf f → PduOf f
with_command_status none status x = x
with_command_status (some (frame body tlv)) status x = (x.0, (x.1.0, (status, x.1.1.1)), x.2)

-- What `memset` makes of a body.
abbrev pub zero_field : (f : Field) → Value f
zero_field (u32 par check) = 0
zero_field (u08 par check) = 0
zero_field (c_octet par size) = []

abbrev pub zero_part : (p : Part) → PartValue p
zero_part (plain f) = zero_field f
zero_part (octet8 count par size) = (0, [])
zero_part (dad count par) = (0, [])
zero_part (udad count par) = (0, [])

abbrev pub zero_parts : (ps : List Part) → Parts ps
zero_parts [] = tt
zero_parts (p ∷ ps) = (zero_part p, zero_parts ps)

abbrev pub no_tlvs : (tlv : Option Rules) → Tlvs tlv
no_tlvs none = tt
no_tlvs (some rules) = []

-- A struct that the constructor has set up.
unfoldable pub started : (f : Option Frame) → ℕ → ℕ → PduOf f
started none id sequence_number = tt
started (some (frame body tlv)) id sequence_number =
    (0, (id, (CommandStatus.esme_rok, (sequence_number, zero_parts body))), no_tlvs tlv)

-- `commandId | SMPP_RESPONSE_BIT`.
unfoldable pub response_type : ℕ → ℕ
response_type id = bit_or id 0x80000000

-- `_request` and `_response`.
pub record Command (id : ℕ) : Type 0 where
  pub request : PduOf (frame_of id)
  pub response : PduOf (frame_of (response_type id))

-- What unpacking gives: an error of the codec, which leaves a struct that nobody reads;
-- ESME_RINVCMDID with the identifier that was read; or the status that was read.
pub data Unpacked (id : ℕ) : Type 0 where
  failed : Unpacked id
  wrong_command : ℕ → Command id → Unpacked id
  unpacked : ℕ → Command id → Unpacked id

module _ {id : ℕ} where
  unfoldable pub sequence_number : Command id → ℕ
  sequence_number c = sequence_number_of (frame_of id) c.request

  unfoldable pub command_status : Command id → ℕ
  command_status c = command_status_of (frame_of (response_type id)) c.response

  unfoldable pub set_command_status : ℕ → Command id → Command id
  set_command_status status c = record c {
    response = with_command_status (frame_of (response_type id)) status c.response;
  }

  -- The struct is packed as the type that `_request.command_id` names. The constructor sets it to the
  -- type of the struct and no method changes it; where a caller did, `none` stands for memory that is
  -- read as a struct of another type.
  unfoldable pub pack_request : Command id → ℕ → Option (List ℕ)
  pack_request c size =
      if command_id_of (frame_of id) c.request == id then packed id c.request size else none

  unfoldable pub pack_response : Command id → ℕ → Option (List ℕ)
  pack_response c size =
      if command_id_of (frame_of id) c.request == id
      then packed (response_type id) c.response size
      else none

  -- The test of `unpack_request`, with the identifier that the struct had before.
  unfoldable pub checked_request : Command id → PduOf (frame_of id) → Unpacked id
  checked_request c r =
      let f = frame_of id in
      let had = command_id_of f c.request in
      if command_id_of f r == had
      then unpacked (command_status_of f r) (record c { request = r })
      else wrong_command (command_id_of f r) (record c { request = with_command_id f had r })

  unfoldable pub request_outcome : Command id → Option (PduOf (frame_of id)) → Unpacked id
  request_outcome c none = failed
  request_outcome c (some r) = checked_request c r

  unfoldable pub unpack_request : Command id → List ℕ → Unpacked id
  unpack_request c buffer = request_outcome c (smpp34_unpack id buffer)

  unfoldable pub checked_response : Command id → PduOf (frame_of (response_type id)) → Unpacked id
  checked_response c r =
      let f = frame_of (response_type id) in
      let had = command_id_of f c.response in
      if command_id_of f r == had
      then unpacked (command_status_of f r) (record c { response = r })
      else wrong_command (command_id_of f r) (record c { response = with_command_id f had r })

  unfoldable pub response_outcome :
      Command id → Option (PduOf (frame_of (response_type id))) → Unpacked id
  response_outcome c none = failed
  response_outcome c (some r) = checked_response c r

  unfoldable pub unpack_response : Command id → List ℕ → Unpacked id
  unpack_response c buffer = response_outcome c (smpp34_unpack (response_type id) buffer)

-- The constructor.
unfoldable pub new_command : (id : ℕ) → ℕ → Command id
new_command id sequence_number = record {
  request = started (frame_of id) id sequence_number;
  response = started (frame_of (response_type id)) (response_type id) sequence_number;
}
