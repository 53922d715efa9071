-- ===== src/Codec/Frames.antt =====
-- The frames of libsmpp34/def_frame and the choice among them by libsmpp34/def_list/smpp34_protocol.def.
use Prim.Native.String.{String}
use libsmpp.Prelude.{ℕ, ◌==◌, if◌then◌else◌, Option, some, none, List, [], ◌∷◌}
use libsmpp.Codec.CommandId
use libsmpp.Codec.Checks.{
  Check, value_dec, command_id, command_status, sequence_number, interface_version, addr_ton,
  addr_npi,
}
use libsmpp.Codec.Rules.{
  Rules, do_tlv_alert_notification, do_tlv_bind_transmitter_resp, do_tlv_data_sm, do_tlv_deliver_sm,
  do_tlv_submit_multi, do_tlv_submit_sm,
}

-- A field of fixed place, with its name: the macros U32, U08 and C_OCTET.
pub data Field : Type 0 where
  u32 u08 : String → Check → Field
  c_octet : String → ℕ → Field

-- A field of a PDU. OCTET8, DAD and UDAD stand behind the octet that counts their elements, which
-- is named first.
pub data Part : Type 0 where
  plain : Field → Part
  octet8 : String → String → ℕ → Part
  dad udad : String → String → Part

-- A frame behind its header, with the rules of the optional parameters where it has some.
pub data Frame : Type 0 where
  frame : List Part → Option Rules → Frame

-- header.frame, behind `command_length`.
abbrev pub header : List Part
header =
    plain (u32 "command_id" command_id)
    ∷ plain (u32 "command_status" command_status)
    ∷ plain (u32 "sequence_number" sequence_number)
    ∷ []

abbrev pub bind_transmitter_frame : Frame
bind_transmitter_frame =
    frame
      (plain (c_octet "system_id" 16)
        ∷ plain (c_octet "password" 9)
        ∷ plain (c_octet "system_type" 13)
        ∷ plain (u08 "interface_version" interface_version)
        ∷ plain (u08 "addr_ton" addr_ton)
        ∷ plain (u08 "addr_npi" addr_npi)
        ∷ plain (c_octet "address_range" 41)
        ∷ [])
      none

abbrev pub bind_transmitter_resp_frame : Frame
bind_transmitter_resp_frame =
    frame (plain (c_octet "system_id" 16) ∷ []) (some do_tlv_bind_transmitter_resp)

abbrev pub bind_receiver_frame : Frame
bind_receiver_frame =
    frame
      (plain (c_octet "system_id" 16)
        ∷ plain (c_octet "password" 9)
        ∷ plain (c_octet "system_type" 13)
        ∷ plain (u08 "interface_version" value_dec)
        ∷ plain (u08 "addr_ton" addr_ton)
        ∷ plain (u08 "addr_npi" addr_npi)
        ∷ plain (c_octet "address_range" 41)
        ∷ [])
      none

abbrev pub bind_receiver_resp_frame : Frame
bind_receiver_resp_frame =
    frame (plain (c_octet "system_id" 16) ∷ []) (some do_tlv_bind_transmitter_resp)

abbrev pub bind_transceiver_frame : Frame
bind_transceiver_frame =
    frame
      (plain (c_octet "system_id" 16)
        ∷ plain (c_octet "password" 9)
        ∷ plain (c_octet "system_type" 13)
        ∷ plain (u08 "interface_version" interface_version)
        ∷ plain (u08 "addr_ton" addr_ton)
        ∷ plain (u08 "addr_npi" addr_npi)
        ∷ plain (c_octet "address_range" 41)
        ∷ [])
      none

abbrev pub bind_transceiver_resp_frame : Frame
bind_transceiver_resp_frame =
    frame (plain (c_octet "system_id" 16) ∷ []) (some do_tlv_bind_transmitter_resp)

abbrev pub outbind_frame : Frame
outbind_frame = frame (plain (c_octet "system_id" 16) ∷ plain (c_octet "password" 9) ∷ []) none

abbrev pub header_only : Frame
header_only = frame [] none

abbrev pub submit_sm_frame : Frame
submit_sm_frame =
    frame
      (plain (c_octet "service_type" 6)
        ∷ plain (u08 "source_addr_ton" addr_ton)
        ∷ plain (u08 "source_addr_npi" addr_npi)
        ∷ plain (c_octet "source_addr" 21)
        ∷ plain (u08 "dest_addr_ton" addr_ton)
        ∷ plain (u08 "dest_addr_npi" addr_npi)
        ∷ plain (c_octet "destination_addr" 21)
        ∷ plain (u08 "esm_class" value_dec)
        ∷ plain (u08 "protocol_id" value_dec)
        ∷ plain (u08 "priority_flag" value_dec)
        ∷ plain (c_octet "schedule_delivery_time" 17)
        ∷ plain (c_octet "validity_period" 17)
        ∷ plain (u08 "registered_delivery" value_dec)
        ∷ plain (u08 "replace_if_present_flag" value_dec)
        ∷ plain (u08 "data_coding" value_dec)
        ∷ plain (u08 "sm_default_msg_id" value_dec)
        ∷ octet8 "sm_length" "short_message" 254
        ∷ [])
      (some do_tlv_submit_sm)

abbrev pub submit_sm_resp_frame : Frame
submit_sm_resp_frame = frame (plain (c_octet "message_id" 65) ∷ []) none

abbrev pub submit_multi_frame : Frame
submit_multi_frame =
    frame
      (plain (c_octet "service_type" 6)
        ∷ plain (u08 "source_addr_ton" addr_ton)
        ∷ plain (u08 "source_addr_npi" addr_npi)
        ∷ plain (c_octet "source_addr" 21)
        ∷ dad "number_of_dests" "dest_addr_def"
        ∷ plain (u08 "esm_class" value_dec)
        ∷ plain (u08 "protocol_id" value_dec)
        ∷ plain (u08 "priority_flag" value_dec)
        ∷ plain (c_octet "schedule_delivery_time" 17)
        ∷ plain (c_octet "validity_period" 17)
        ∷ plain (u08 "registered_delivery" value_dec)
        ∷ plain (u08 "replace_if_present_flag" value_dec)
        ∷ plain (u08 "data_coding" value_dec)
        ∷ plain (u08 "sm_default_msg_id" value_dec)
        ∷ octet8 "sm_length" "short_message" 254
        ∷ [])
      (some do_tlv_submit_multi)

abbrev pub submit_multi_resp_frame : Frame
submit_multi_resp_frame =
    frame (plain (c_octet "message_id" 65) ∷ udad "no_unsuccess" "unsuccess_smes" ∷ []) none

abbrev pub deliver_sm_frame : Frame
deliver_sm_frame =
    frame
      (plain (c_octet "service_type" 6)
        ∷ plain (u08 "source_addr_ton" addr_ton)
        ∷ plain (u08 "source_addr_npi" addr_npi)
        ∷ plain (c_octet "source_addr" 21)
        ∷ plain (u08 "dest_addr_ton" addr_ton)
        ∷ plain (u08 "dest_addr_npi" addr_npi)
        ∷ plain (c_octet "destination_addr" 21)
        ∷ plain (u08 "esm_class" value_dec)
        ∷ plain (u08 "protocol_id" value_dec)
        ∷ plain (u08 "priority_flag" value_dec)
        ∷ plain (c_octet "schedule_delivery_time" 1)
        ∷ plain (c_octet "validity_period" 1)
        ∷ plain (u08 "registered_delivery" value_dec)
        ∷ plain (u08 "replace_if_present_flag" value_dec)
        ∷ plain (u08 "data_coding" value_dec)
        ∷ plain (u08 "sm_default_msg_id" value_dec)
        ∷ octet8 "sm_length" "short_message" 254
        ∷ [])
      (some do_tlv_deliver_sm)

abbrev pub deliver_sm_resp_frame : Frame
deliver_sm_resp_frame = frame (plain (c_octet "message_id" 1) ∷ []) none

abbrev pub data_sm_frame : Frame
data_sm_frame =
    frame
      (plain (c_octet "service_type" 6)
        ∷ plain (u08 "source_addr_ton" addr_ton)
        ∷ plain (u08 "source_addr_npi" addr_npi)
        ∷ plain (c_octet "source_addr" 21)
        ∷ plain (u08 "dest_addr_ton" addr_ton)
        ∷ plain (u08 "dest_addr_npi" addr_npi)
        ∷ plain (c_octet "destination_addr" 65)
        ∷ plain (u08 "esm_class" value_dec)
        ∷ plain (u08 "registered_delivery" value_dec)
        ∷ plain (u08 "data_coding" value_dec)
        ∷ [])
      (some do_tlv_data_sm)

abbrev pub data_sm_resp_frame : Frame
data_sm_resp_frame = frame (plain (c_octet "message_id" 65) ∷ []) none

abbrev pub query_sm_frame : Frame
query_sm_frame =
    frame
      (plain (c_octet "message_id" 65)
        ∷ plain (u08 "source_addr_ton" addr_ton)
        ∷ plain (u08 "source_addr_npi" addr_npi)
        ∷ plain (c_octet "source_addr" 21)
        ∷ [])
      none

abbrev pub query_sm_resp_frame : Frame
query_sm_resp_frame =
    frame
      (plain (c_octet "message_id" 65)
        ∷ plain (c_octet "final_date" 17)
        ∷ plain (u08 "message_state" value_dec)
        ∷ plain (u08 "error_code" value_dec)
        ∷ [])
      none

abbrev pub cancel_sm_frame : Frame
cancel_sm_frame =
    frame
      (plain (c_octet "service_type" 6)
        ∷ plain (c_octet "message_id" 65)
        ∷ plain (u08 "source_addr_ton" addr_ton)
        ∷ plain (u08 "source_addr_npi" addr_npi)
        ∷ plain (c_octet "source_addr" 21)
        ∷ plain (u08 "dest_addr_ton" addr_ton)
        ∷ plain (u08 "dest_addr_npi" addr_npi)
        ∷ plain (c_octet "destination_addr" 21)
        ∷ [])
      none

abbrev pub replace_sm_frame : Frame
replace_sm_frame =
    frame
      (plain (c_octet "message_id" 65)
        ∷ plain (u08 "source_addr_ton" addr_ton)
        ∷ plain (u08 "source_addr_npi" addr_npi)
        ∷ plain (c_octet "source_addr" 21)
        ∷ plain (c_octet "schedule_delivery_time" 17)
        ∷ plain (c_octet "validity_period" 17)
        ∷ plain (u08 "registered_delivery" value_dec)
        ∷ plain (u08 "sm_default_msg_id" value_dec)
        ∷ octet8 "sm_length" "short_message" 254
        ∷ [])
      none

abbrev pub alert_notification_frame : Frame
alert_notification_frame =
    frame
      (plain (u08 "source_addr_ton" addr_ton)
        ∷ plain (u08 "source_addr_npi" addr_npi)
        ∷ plain (c_octet "source_addr" 65)
        ∷ plain (u08 "esme_addr_ton" addr_ton)
        ∷ plain (u08 "esme_addr_npi" addr_npi)
        ∷ plain (c_octet "esme_addr" 65)
        ∷ [])
      (some do_tlv_alert_notification)

abbrev pub first_of : List (ℕ × Frame) → ℕ → Option Frame
first_of [] type = none
first_of ((t, f) ∷ cases) type = if type == t then some f else first_of cases type

abbrev pub protocol : List (ℕ × Frame)
protocol =
    (CommandId.bind_transmitter, bind_transmitter_frame)
    ∷ (CommandId.bind_transmitter_resp, bind_transmitter_resp_frame)
    ∷ (CommandId.bind_receiver, bind_receiver_frame)
    ∷ (CommandId.bind_receiver_resp, bind_receiver_resp_frame)
    ∷ (CommandId.bind_transceiver, bind_transceiver_frame)
    ∷ (CommandId.bind_transceiver_resp, bind_transceiver_resp_frame)
    ∷ (CommandId.outbind, outbind_frame)
    ∷ (CommandId.unbind, header_only)
    ∷ (CommandId.unbind_resp, header_only)
    ∷ (CommandId.generic_nack, header_only)
    ∷ (CommandId.submit_sm, submit_sm_frame)
    ∷ (CommandId.submit_sm_resp, submit_sm_resp_frame)
    ∷ (CommandId.submit_multi, submit_multi_frame)
    ∷ (CommandId.submit_multi_resp, submit_multi_resp_frame)
    ∷ (CommandId.deliver_sm, deliver_sm_frame)
    ∷ (CommandId.deliver_sm_resp, deliver_sm_resp_frame)
    ∷ (CommandId.data_sm, data_sm_frame)
    ∷ (CommandId.data_sm_resp, data_sm_resp_frame)
    ∷ (CommandId.query_sm, query_sm_frame)
    ∷ (CommandId.query_sm_resp, query_sm_resp_frame)
    ∷ (CommandId.cancel_sm, cancel_sm_frame)
    ∷ (CommandId.cancel_sm_resp, header_only)
    ∷ (CommandId.replace_sm, replace_sm_frame)
    ∷ (CommandId.replace_sm_resp, header_only)
    ∷ (CommandId.enquire_link, header_only)
    ∷ (CommandId.enquire_link_resp, header_only)
    ∷ (CommandId.alert_notification, alert_notification_frame)
    ∷ []

-- The chain of cases on `type`.
unfoldable pub frame_of : ℕ → Option Frame
frame_of type = first_of protocol type
