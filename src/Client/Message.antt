-- ===== src/Client/Message.antt =====
-- What a command of `SendMessage` carries: its text and its four numbers of concatenation.
use libsmpp.Prelude.{
  ℕ, ◌%◌, ◌≤◌, ◌≡◌, refl, ◌∙◌, ◌==◌, ltb, leb, if◌then◌else◌, Bool-cases, false, inl, inr, Option,
  none, some, List, [], ◌∷◌, length,
}
use libsmpp.Codec.TlvId
use libsmpp.Commands.Arrays.{take_all}
use libsmpp.Commands.Submit.{
  Submit, Address, Tlv, TlvValue, val08, val16, octet, build, cleared, new_submit, set_destination,
  set_source_address, set_data_coding, set_text, set_short_message, set_payload, payload,
  payload_text, get_text, set_concatenated_message_args,
}
use libsmpp.Commands.Text.{HasNoPayload, get_text-set_text}
use libsmpp.Client.Settings.{MessageSettings}
use libsmpp.Client.Sending.{Sar, set_sar, message}

-- The number in the first entry with a tag.
abbrev pub number_in : TlvValue → Option ℕ
number_in (val08 n) = some n
number_in (val16 n) = some n
number_in (octet array) = none

abbrev pub number_of : ℕ → List Tlv → Option ℕ
number_of tag [] = none
number_of tag (t ∷ ts) = if t.tag == tag then number_in t.value else number_of tag ts

-- `sar_total_segments`, `sar_msg_ref_num`, `sar_segment_seqnum` and `more_messages_to_send`.
abbrev pub numbers_of : List Tlv → List (Option ℕ)
numbers_of ts =
    number_of TlvId.sar_total_segments ts
    ∷ number_of TlvId.sar_msg_ref_num ts
    ∷ number_of TlvId.sar_segment_seqnum ts
    ∷ number_of TlvId.more_messages_to_send ts
    ∷ []

-- What they should be: cut to the width of their fields.
abbrev pub numbers : Option Sar → List (Option ℕ)
numbers none = none ∷ none ∷ none ∷ none ∷ []
numbers (some (total, ref, seqnum)) =
    some (total % 256)
    ∷ some (ref % 65536)
    ∷ some (seqnum % 256)
    ∷ some (if ltb seqnum total then 1 else 0)
    ∷ []

get_text-set_sar : (sar : Option Sar) (s : Submit Address) → get_text (set_sar sar s) ≡ get_text s
unfolding set_sar set_concatenated_message_args get_text build payload_text
get_text-set_sar none s = refl
get_text-set_sar (some (total, ref, seqnum)) s = refl

numbers_of-set_text :
    (text : List ℕ) (s : Submit Address)
    → s.tlv ≡ []
    → numbers_of (set_text text false s).tlv ≡ numbers none
unfolding set_text set_short_message set_payload build payload
numbers_of-set_text text s h = elim (Bool-cases (leb (length text) 254)) [
  | inl e ↦ rw (e, h) refl
  | inr e ↦ rw (e, h) refl
]

numbers_of-set_sar :
    (sar : Option Sar) (s : Submit Address)
    → numbers_of s.tlv ≡ numbers none
    → numbers_of (set_sar sar s).tlv ≡ numbers sar
unfolding set_sar set_concatenated_message_args build
numbers_of-set_sar none s h = h
numbers_of-set_sar (some (total, ref, seqnum)) s h = refl

get_text-set_data_coding :
    (coding : ℕ) (s : Submit Address) → get_text (set_data_coding coding s) ≡ get_text s
unfolding get_text set_data_coding
get_text-set_data_coding coding s = refl

-- A command with its addresses and nothing else.
abbrev addressed : List ℕ → List ℕ → Submit Address
addressed from to = set_source_address from 0 0 (set_destination to 0 0 new_submit)

addressed_tlv : (from to : List ℕ) → (addressed from to).tlv ≡ []
unfolding set_source_address set_destination new_submit cleared
addressed_tlv from to = refl

addressed-HasNoPayload : (from to : List ℕ) → HasNoPayload (addressed from to).tlv
unfolding set_source_address set_destination new_submit cleared
addressed-HasNoPayload from to = tt

module _ (settings : MessageSettings) (from to : List ℕ) where
  pub get_text-message :
      (text : List ℕ) (sar : Option Sar)
      → length text ≤ 1024
      → get_text (message settings from to text sar) ≡ text
  unfolding message
  get_text-message text sar h =
      let s = set_text text false (addressed from to) in
      get_text-set_sar sar (set_data_coding settings.deliver_data_coding s)
      ∙ get_text-set_data_coding settings.deliver_data_coding s
      ∙ get_text-set_text text false (addressed from to) (addressed-HasNoPayload from to)
      ∙ take_all 1024 text h

  pub numbers_of-message :
      (text : List ℕ) (sar : Option Sar)
      → numbers_of (message settings from to text sar).tlv ≡ numbers sar
  unfolding message set_data_coding
  numbers_of-message text sar =
      let s = set_text text false (addressed from to) in
      numbers_of-set_sar sar (set_data_coding settings.deliver_data_coding s)
        (numbers_of-set_text text (addressed from to) (addressed_tlv from to))
