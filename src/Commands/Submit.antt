-- ===== src/Commands/Submit.antt =====
-- `CSMPPSubmit`, `CSMPPSubmitSingle` and `CSMPPDelivery` of smppcommands.hpp on their request, and
-- `build_tlv` of libsmpp34/smpp34_params.c.
use libsmpp.Prelude.{
  ℕ, ◌/◌, ◌%◌, ◌==◌, ltb, leb, if◌then◌else◌, Bool, not, ◌&&◌, Option, List, [], ◌∷◌, ◌++◌, length,
  take, drop, replicate,
}
use libsmpp.Codec.TlvId
use libsmpp.Commands.Arrays.{c_string, snprintf, memcpy_min}

-- Memory that `memset` has cleared.
unfoldable pub zeros : ℕ → List ℕ
zeros n = replicate n 0

-- The member of the union `value` that was written last. `octet` has all 1024 octets of the array.
pub data TlvValue : Type 0 where
  val08 val16 : ℕ → TlvValue
  octet : List ℕ → TlvValue

-- `tlv_t`; its `next` is the rest of the chain.
pub record Tlv : Type 0 where
  pub tag : ℕ
  pub size : ℕ
  pub value : TlvValue

-- `value.octet`, where a number has its low octet first.
unfoldable pub octets_of : TlvValue → List ℕ
octets_of (val08 n) = n % 256 ∷ zeros 1023
octets_of (val16 n) = n % 256 ∷ n / 256 % 256 ∷ zeros 1022
octets_of (octet array) = array

-- `build_tlv`, `build_dad` and `build_udad`: a copy of the entry in front of the chain.
unfoldable pub build {ℓ} : {A : Type ℓ} → List A → A → List A
build chain entry = entry ∷ chain

-- The fields that submit_sm_t, deliver_sm_t and submit_multi_t share and that the methods read or
-- set, and what they do not share.
pub record Submit (D : Type 0) : Type 0 where
  pub service_type : List ℕ
  pub source_addr_ton : ℕ
  pub source_addr_npi : ℕ
  pub source_addr : List ℕ
  pub destination : D
  pub data_coding : ℕ
  pub sm_length : ℕ
  pub short_message : List ℕ
  pub tlv : List Tlv

-- A request as `memset` leaves it.
unfoldable pub cleared : {D : Type 0} → D → Submit D
cleared destination = record {
  service_type = zeros 6;
  source_addr_ton = 0;
  source_addr_npi = 0;
  source_addr = zeros 21;
  destination = destination;
  data_coding = 0;
  sm_length = 0;
  short_message = zeros 254;
  tlv = [];
}

-- The loop of `getText`: the last payload of the chain is kept.
unfoldable pub payload_text : List Tlv → List ℕ → List ℕ
payload_text [] res = res
payload_text (t ∷ ts) res =
    payload_text ts
      (if t.tag == TlvId.message_payload then take t.size (octets_of t.value) else res)

-- The entry that `setText` builds: the array is cleared, then as much of the text as fits is copied.
unfoldable pub payload : List ℕ → Tlv
payload text = record {
  tag = TlvId.message_payload;
  size = if ltb (length text) 1024 then length text else 1024;
  value = octet (memcpy_min (zeros 1024) text);
}

module _ {D : Type 0} where
  unfoldable pub get_text : Submit D → List ℕ
  get_text s = if s.sm_length == 0 then payload_text s.tlv [] else take s.sm_length s.short_message

  -- The two branches of `setText`.
  unfoldable pub set_short_message : List ℕ → Submit D → Submit D
  set_short_message text s = record s {
    sm_length = length text;
    short_message = text ++ drop (length text) s.short_message;
  }

  unfoldable pub set_payload : List ℕ → Submit D → Submit D
  set_payload text s = record s { sm_length = 0; tlv = build s.tlv (payload text) }

  unfoldable pub set_text : List ℕ → Bool → Submit D → Submit D
  set_text text force_using_payload s =
      if not force_using_payload && leb (length text) 254
      then set_short_message text s
      else set_payload text s

  unfoldable pub get_source_address : Submit D → Option (List ℕ)
  get_source_address s = c_string s.source_addr

  unfoldable pub set_source_address : List ℕ → ℕ → ℕ → Submit D → Submit D
  set_source_address address ton npi s = record s {
    source_addr = snprintf s.source_addr address;
    source_addr_ton = ton;
    source_addr_npi = npi;
  }

  unfoldable pub set_service_type : List ℕ → Submit D → Submit D
  set_service_type text s = record s { service_type = snprintf s.service_type text }

  -- `cmd->request().data_coding = …`, a `uint8_t`.
  unfoldable pub set_data_coding : ℕ → Submit D → Submit D
  set_data_coding coding s = record s { data_coding = coding % 256 }

  -- `setConcatenatedMessageArgs`: four entries, each in front of the one before.
  unfoldable pub set_concatenated_message_args : ℕ → ℕ → ℕ → Submit D → Submit D
  set_concatenated_message_args total_segments msg_ref_num segment_seqnum s =
      let more : ℕ = if ltb segment_seqnum total_segments then 1 else 0 in
      let total : Tlv = record {
        tag = TlvId.sar_total_segments;
        size = 1;
        value = val08 (total_segments % 256);
      } in
      let ref : Tlv = record {
        tag = TlvId.sar_msg_ref_num;
        size = 2;
        value = val16 (msg_ref_num % 65536);
      } in
      let seqnum : Tlv = record {
        tag = TlvId.sar_segment_seqnum;
        size = 1;
        value = val08 (segment_seqnum % 256);
      } in
      let rest : Tlv = record { tag = TlvId.more_messages_to_send; size = 1; value = val08 more } in
      record s { tlv = build (build (build (build s.tlv total) ref) seqnum) rest }

-- The destination of submit_sm_t and deliver_sm_t.
pub record Address : Type 0 where
  pub ton : ℕ
  pub npi : ℕ
  pub address : List ℕ

unfoldable pub get_destination_address : Submit Address → Option (List ℕ)
get_destination_address s = c_string s.destination.address

-- `setDestination`: no NUL is written behind the address.
unfoldable pub set_destination : List ℕ → ℕ → ℕ → Submit Address → Submit Address
set_destination address ton npi s = record s {
  destination = record { ton = ton; npi = npi; address = memcpy_min s.destination.address address };
}

-- The request of a new `CSMPPSubmitSingle` or `CSMPPDelivery`.
unfoldable pub new_submit : Submit Address
new_submit = cleared (record { ton = 0; npi = 0; address = zeros 21 })
