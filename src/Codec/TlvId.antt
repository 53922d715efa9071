-- ===== src/Codec/TlvId.antt =====
-- The tags of optional parameters: the TLVID constants of libsmpp34/smpp34.h.
use libsmpp.Prelude.{ℕ}

abbrev pub dest_addr_subunit : ℕ
dest_addr_subunit = 0x0005

abbrev pub dest_network_type : ℕ
dest_network_type = 0x0006

abbrev pub dest_bearer_type : ℕ
dest_bearer_type = 0x0007

abbrev pub dest_telematics_id : ℕ
dest_telematics_id = 0x0008

abbrev pub source_addr_subunit : ℕ
source_addr_subunit = 0x000D

abbrev pub source_network_type : ℕ
source_network_type = 0x000E

abbrev pub source_bearer_type : ℕ
source_bearer_type = 0x000F

abbrev pub source_telematics_id : ℕ
source_telematics_id = 0x0010

abbrev pub qos_time_to_live : ℕ
qos_time_to_live = 0x0017

abbrev pub payload_type : ℕ
payload_type = 0x0019

abbrev pub additional_status_info_text : ℕ
additional_status_info_text = 0x001D

abbrev pub receipted_message_id : ℕ
receipted_message_id = 0x001E

abbrev pub ms_msg_wait_facilities : ℕ
ms_msg_wait_facilities = 0x0030

abbrev pub privacy_indicator : ℕ
privacy_indicator = 0x0201

abbrev pub source_subaddress : ℕ
source_subaddress = 0x0202

abbrev pub dest_subaddress : ℕ
dest_subaddress = 0x0203

abbrev pub user_message_reference : ℕ
user_message_reference = 0x0204

abbrev pub user_response_code : ℕ
user_response_code = 0x0205

abbrev pub source_port : ℕ
source_port = 0x020A

abbrev pub destination_port : ℕ
destination_port = 0x020B

abbrev pub sar_msg_ref_num : ℕ
sar_msg_ref_num = 0x020C

abbrev pub language_indicator : ℕ
language_indicator = 0x020D

abbrev pub sar_total_segments : ℕ
sar_total_segments = 0x020E

abbrev pub sar_segment_seqnum : ℕ
sar_segment_seqnum = 0x020F

abbrev pub sc_interface_version : ℕ
sc_interface_version = 0x0210

abbrev pub callback_num_pres_ind : ℕ
callback_num_pres_ind = 0x0302

abbrev pub callback_num_atag : ℕ
callback_num_atag = 0x0303

abbrev pub number_of_messages : ℕ
number_of_messages = 0x0304

abbrev pub callback_num : ℕ
callback_num = 0x0381

abbrev pub dpf_result : ℕ
dpf_result = 0x0420

abbrev pub set_dpf : ℕ
set_dpf = 0x0421

abbrev pub ms_availability_status : ℕ
ms_availability_status = 0x0422

abbrev pub network_error_code : ℕ
network_error_code = 0x0423

abbrev pub message_payload : ℕ
message_payload = 0x0424

abbrev pub delivery_failure_reason : ℕ
delivery_failure_reason = 0x0425

abbrev pub more_messages_to_send : ℕ
more_messages_to_send = 0x0426

abbrev pub message_state : ℕ
message_state = 0x0427

abbrev pub ussd_service_op : ℕ
ussd_service_op = 0x0501

abbrev pub display_time : ℕ
display_time = 0x1201

abbrev pub sms_signal : ℕ
sms_signal = 0x1203

abbrev pub ms_validity : ℕ
ms_validity = 0x1204

abbrev pub alert_on_message_delivery : ℕ
alert_on_message_delivery = 0x130C

abbrev pub its_reply_type : ℕ
its_reply_type = 0x1380

abbrev pub its_session_info : ℕ
its_session_info = 0x1383
