-- ===== src/Client/Settings.antt =====
-- `MessageSettings` of smpp.h, with the defaults of smpp.cpp.
use libsmpp.Prelude.{ℕ, Bool, true, false, ◌==◌, if◌then◌else◌, min}

pub record MessageSettings : Type 0 where
  pub deliver_data_coding : ℕ
  pub server_default_encoding : ℕ
  pub enable_gsm7bit_packing : Bool
  pub max_message_length : ℕ
  pub enable_message_concatenation : Bool
  pub enable_payload : Bool
  pub enable_submit_multi : Bool
  pub big_endian_unicode : Bool

-- `libSMPP_CreateDefaultMessageSettings`.
unfoldable pub create_default_message_settings : MessageSettings
create_default_message_settings = record {
  deliver_data_coding = 0;
  server_default_encoding = 0;
  enable_gsm7bit_packing = false;
  max_message_length = 0;
  enable_message_concatenation = true;
  enable_payload = true;
  enable_submit_multi = true;
  big_endian_unicode = false;
}

-- `m_settings.MaxMessageLength ? min(m_settings.MaxMessageLength, 254u) : 254`.
unfoldable pub short_limit : MessageSettings → ℕ
short_limit s = if s.max_message_length == 0 then 254 else min s.max_message_length 254

-- `messageLength` in front of the loop of `SendMessage`.
unfoldable pub message_length : MessageSettings → ℕ
unfolding short_limit
message_length s = if s.enable_payload then 1024 else short_limit s
