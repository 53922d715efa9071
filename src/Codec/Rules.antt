-- ===== src/Codec/Rules.antt =====
-- How the value of an optional parameter is laid out, by its tag: the .tlv files of
-- libsmpp34/def_frame. A tag with no case of its own is forwarded as octets.
use libsmpp.Prelude.{ℕ, ◌==◌, if◌then◌else◌, List, [], ◌∷◌}
use libsmpp.Codec.TlvId

-- The member of the union `value` that holds it; `octet` with the room that the code allows.
pub data Kind : Type 0 where
  val08 val16 val32 : Kind
  octet : ℕ → Kind

abbrev pub Rules : Type 0
Rules = List (ℕ × Kind)

unfoldable pub kind_of : Rules → ℕ → Kind
kind_of [] tag = octet 1024
kind_of ((t, k) ∷ rules) tag = if tag == t then k else kind_of rules tag

abbrev pub do_tlv_alert_notification : Rules
do_tlv_alert_notification = (TlvId.ms_availability_status, val08) ∷ []

abbrev pub do_tlv_bind_transmitter_resp : Rules
do_tlv_bind_transmitter_resp = (TlvId.sc_interface_version, val08) ∷ []

abbrev pub do_tlv_data_sm : Rules
do_tlv_data_sm =
    (TlvId.source_port, val16)
    ∷ (TlvId.source_addr_subunit, val08)
    ∷ (TlvId.source_network_type, val08)
    ∷ (TlvId.source_bearer_type, val08)
    ∷ (TlvId.source_telematics_id, val08)
    ∷ (TlvId.destination_port, val16)
    ∷ (TlvId.dest_addr_subunit, val08)
    ∷ (TlvId.dest_network_type, val08)
    ∷ (TlvId.dest_bearer_type, val08)
    ∷ (TlvId.dest_telematics_id, val16)
    ∷ (TlvId.sar_msg_ref_num, val16)
    ∷ (TlvId.sar_total_segments, val08)
    ∷ (TlvId.sar_segment_seqnum, val08)
    ∷ (TlvId.more_messages_to_send, val08)
    ∷ (TlvId.qos_time_to_live, val32)
    ∷ (TlvId.payload_type, val08)
    ∷ (TlvId.message_payload, octet 1024)
    ∷ (TlvId.set_dpf, val08)
    ∷ (TlvId.receipted_message_id, octet 65)
    ∷ (TlvId.message_state, val08)
    ∷ (TlvId.network_error_code, octet 3)
    ∷ (TlvId.user_message_reference, val16)
    ∷ (TlvId.privacy_indicator, val08)
    ∷ (TlvId.callback_num, octet 19)
    ∷ (TlvId.callback_num_pres_ind, val08)
    ∷ (TlvId.callback_num_atag, octet 65)
    ∷ (TlvId.source_subaddress, octet 23)
    ∷ (TlvId.dest_subaddress, octet 23)
    ∷ (TlvId.user_response_code, val08)
    ∷ (TlvId.display_time, val08)
    ∷ (TlvId.sms_signal, val16)
    ∷ (TlvId.ms_validity, val08)
    ∷ (TlvId.ms_msg_wait_facilities, val08)
    ∷ (TlvId.number_of_messages, val08)
    ∷ (TlvId.alert_on_message_delivery, octet 0)
    ∷ (TlvId.language_indicator, val08)
    ∷ (TlvId.its_reply_type, val08)
    ∷ (TlvId.its_session_info, val16)
    ∷ []

abbrev pub do_tlv_deliver_sm : Rules
do_tlv_deliver_sm =
    (TlvId.user_message_reference, val16)
    ∷ (TlvId.source_port, val16)
    ∷ (TlvId.destination_port, val16)
    ∷ (TlvId.sar_msg_ref_num, val16)
    ∷ (TlvId.sar_total_segments, val08)
    ∷ (TlvId.sar_segment_seqnum, val08)
    ∷ (TlvId.user_response_code, val08)
    ∷ (TlvId.privacy_indicator, val08)
    ∷ (TlvId.payload_type, val08)
    ∷ (TlvId.message_payload, octet 1024)
    ∷ (TlvId.callback_num, octet 19)
    ∷ (TlvId.source_subaddress, octet 23)
    ∷ (TlvId.dest_subaddress, octet 23)
    ∷ (TlvId.language_indicator, val08)
    ∷ (TlvId.its_session_info, val16)
    ∷ (TlvId.network_error_code, octet 3)
    ∷ (TlvId.message_state, val08)
    ∷ (TlvId.receipted_message_id, octet 65)
    ∷ (TlvId.set_dpf, val08)
    ∷ (TlvId.source_network_type, val08)
    ∷ []

abbrev pub do_tlv_submit_multi : Rules
do_tlv_submit_multi =
    (TlvId.user_message_reference, val16)
    ∷ (TlvId.source_port, val16)
    ∷ (TlvId.source_addr_subunit, val08)
    ∷ (TlvId.destination_port, val16)
    ∷ (TlvId.dest_addr_subunit, val08)
    ∷ (TlvId.sar_msg_ref_num, val16)
    ∷ (TlvId.sar_total_segments, val08)
    ∷ (TlvId.sar_segment_seqnum, val08)
    ∷ (TlvId.more_messages_to_send, val08)
    ∷ (TlvId.payload_type, val08)
    ∷ (TlvId.message_payload, octet 1024)
    ∷ (TlvId.privacy_indicator, val08)
    ∷ (TlvId.callback_num, octet 19)
    ∷ (TlvId.callback_num_pres_ind, val08)
    ∷ (TlvId.callback_num_atag, octet 65)
    ∷ (TlvId.source_subaddress, octet 23)
    ∷ (TlvId.dest_subaddress, octet 23)
    ∷ (TlvId.user_response_code, val08)
    ∷ (TlvId.display_time, val08)
    ∷ (TlvId.sms_signal, val16)
    ∷ (TlvId.ms_validity, val08)
    ∷ (TlvId.ms_msg_wait_facilities, val08)
    ∷ (TlvId.number_of_messages, val08)
    ∷ (TlvId.alert_on_message_delivery, octet 0)
    ∷ (TlvId.language_indicator, val08)
    ∷ (TlvId.its_reply_type, val08)
    ∷ (TlvId.its_session_info, val16)
    ∷ (TlvId.ussd_service_op, octet 1)
    ∷ []

abbrev pub do_tlv_submit_sm : Rules
do_tlv_submit_sm =
    (TlvId.user_message_reference, val16)
    ∷ (TlvId.source_port, val16)
    ∷ (TlvId.source_addr_subunit, val08)
    ∷ (TlvId.destination_port, val16)
    ∷ (TlvId.dest_addr_subunit, val08)
    ∷ (TlvId.sar_msg_ref_num, val16)
    ∷ (TlvId.sar_total_segments, val08)
    ∷ (TlvId.sar_segment_seqnum, val08)
    ∷ (TlvId.more_messages_to_send, val08)
    ∷ (TlvId.payload_type, val08)
    ∷ (TlvId.message_payload, octet 1024)
    ∷ (TlvId.privacy_indicator, val08)
    ∷ (TlvId.callback_num, octet 19)
    ∷ (TlvId.callback_num_pres_ind, val08)
    ∷ (TlvId.callback_num_atag, octet 65)
    ∷ (TlvId.source_subaddress, octet 23)
    ∷ (TlvId.dest_subaddress, octet 23)
    ∷ (TlvId.user_response_code, val08)
    ∷ (TlvId.display_time, val08)
    ∷ (TlvId.sms_signal, val16)
    ∷ (TlvId.ms_validity, val08)
    ∷ (TlvId.ms_msg_wait_facilities, val08)
    ∷ (TlvId.number_of_messages, val08)
    ∷ (TlvId.alert_on_message_delivery, octet 0)
    ∷ (TlvId.language_indicator, val08)
    ∷ (TlvId.its_reply_type, val08)
    ∷ (TlvId.its_session_info, val16)
    ∷ (TlvId.ussd_service_op, octet 1)
    ∷ []
