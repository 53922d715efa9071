-- ===== src/Commands/Tests.antt =====
-- The commands at work.
use libsmpp.Prelude.{
  ℕ, ◌≡◌, ltb, if◌then◌else◌, true, false, none, some, List, [], ◌∷◌, length, take, replicate, refl,
  arith,
}
use libsmpp.Codec.CommandId
use libsmpp.Codec.Frames.{frame_of}
use libsmpp.Codec.Checks.{valid, one_of, command_ids, command_statuses}
use libsmpp.Codec.Octets.{pack_word, big_endian, skip, ◌▹◌}
use libsmpp.Codec.Fields.{
  pack_parts, pack_part, pack_field, packed_parts, packed_part, packed_field,
}
use libsmpp.Codec.Pdu.{PduOf, smpp34_pack, pack_any, pack_frame, pack_tlvs}
use libsmpp.Codec.RoundTrip.Pdus.{IsPduOf, received}
use libsmpp.Commands.Arrays.{c_string, snprintf, memcpy_min, c_str}
use libsmpp.Commands.Submit.{
  new_submit, cleared, zeros, get_text, set_text, set_short_message, set_payload,
  get_destination_address, set_destination, get_source_address, set_source_address, payload,
  payload_text, octets_of, build,
}
use libsmpp.Commands.Text.{get_text-set_text}
use libsmpp.Commands.Destination.{get_destination_address-set_destination}
use libsmpp.Commands.Command.{
  Command, new_command, pack_request, unpack_request, unpacked, command_id_of, command_status_of,
  sequence_number_of, started,
}
use libsmpp.Commands.RoundTrip.{unpack_request-pack_request}
use libsmpp.Commands.Multi.{set_destinations, build_dads, destroyed}

abbrev hello : List ℕ
hello = 0x68 ∷ 0x69 ∷ []

get_text-set_text_example : get_text (set_text hello true new_submit) ≡ take 1024 hello
unfolding new_submit cleared
get_text-set_text_example = get_text-set_text hello true new_submit tt

abbrev number : List ℕ
number = 0x31 ∷ 0x32 ∷ []

get_destination_address-set_destination_example :
    (get_destination_address (set_destination number 1 1 new_submit)
      ≡ (if ltb (length number) 21 then some number else none))
    × (get_source_address (set_source_address number 1 1 new_submit) ≡ some (take 20 number))
get_destination_address-set_destination_example =
    get_destination_address-set_destination number 1 1 (omega arith)

-- The destination "12" set after "987" leaves the last digit of the first.
destination_kept :
    get_destination_address
      (set_destination number 1 1 (set_destination (0x39 ∷ 0x38 ∷ 0x37 ∷ []) 1 1 new_submit))
    ≡ some (0x31 ∷ 0x32 ∷ 0x37 ∷ [])
unfolding get_destination_address set_destination new_submit cleared zeros memcpy_min c_string
destination_kept = refl

-- An ENQUIRE_LINK with the sequence number 7, read by one with the number 8.
abbrev link : Command CommandId.enquire_link
link = new_command CommandId.enquire_link 7

abbrev link_octets : List ℕ
link_octets = 0 ∷ 0 ∷ 0 ∷ 16 ∷ 0 ∷ 0 ∷ 0 ∷ 21 ∷ 0 ∷ 0 ∷ 0 ∷ 0 ∷ 0 ∷ 0 ∷ 0 ∷ 7 ∷ []

link_packed : pack_request link 4096 ≡ some link_octets
unfolding pack_request command_id_of smpp34_pack pack_any pack_frame frame_of new_command started
    pack_word pack_parts pack_part pack_field ◌▹◌ pack_tlvs skip valid one_of command_ids
    command_statuses big_endian packed_parts packed_part packed_field
link_packed = refl

link-IsPduOf : IsPduOf (frame_of CommandId.enquire_link) link.request
unfolding frame_of new_command started
link-IsPduOf = omega arith

same_id :
    command_id_of (frame_of CommandId.enquire_link) (new_command CommandId.enquire_link 8).request
    ≡ command_id_of (frame_of CommandId.enquire_link) link.request
unfolding frame_of new_command started command_id_of
same_id = refl

unpack_request-pack_request_example :
    (x' : PduOf (frame_of CommandId.enquire_link)) × (smpp34_pack CommandId.enquire_link 4096
        link.request
      ≡ some (link_octets, x'))
    × (unpack_request (new_command CommandId.enquire_link 8) link_octets
        ≡ unpacked
            (command_status_of (frame_of CommandId.enquire_link) link.request)
            (record (new_command CommandId.enquire_link 8) {
              request = received (frame_of CommandId.enquire_link) x';
            }))
    × (sequence_number_of
          (frame_of CommandId.enquire_link)
          (received (frame_of CommandId.enquire_link) x')
        ≡ sequence_number_of (frame_of CommandId.enquire_link) link.request)
unpack_request-pack_request_example =
    unpack_request-pack_request CommandId.enquire_link link (new_command CommandId.enquire_link 8)
      4096 link_octets link-IsPduOf same_id (omega arith) link_packed

get_text-set_text_twice_runs :
    get_text (set_text (0x61 ∷ []) true (set_text hello true new_submit)) ≡ hello
unfolding get_text set_text set_short_message set_payload payload payload_text octets_of build
    memcpy_min new_submit cleared zeros
get_text-set_text_twice_runs = refl

-- A source address is cut to 20 digits.
source_cut :
    get_source_address (set_source_address (replicate 25 0x31) 1 1 new_submit)
    ≡ some (replicate 20 0x31)
unfolding get_source_address set_source_address snprintf c_str c_string new_submit cleared zeros
source_cut = refl

set_destinations_dangles_runs :
    (set_destinations (number ∷ []) (
      set_destinations (hello ∷ []) (
        cleared (record {
          number_of_dests = 0;
          dest_addr_def = [];
          is_dangling = false;
        })))).destination.is_dangling
    ≡ true
unfolding set_destinations build_dads build destroyed cleared
set_destinations_dangles_runs = refl
