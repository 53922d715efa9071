-- ===== src/Client/Incoming.antt =====
-- `OnNewData` of smppclient.cpp: the requests of the server.
use Prim.Native.String.{String}
use libsmpp.Prelude.{
  ℕ, ◌==◌, ◌&&◌, if◌then◌else◌, Option, List, [], ◌∷◌, ◌≡◌, refl, ap, ◌%◌, length, suc, arith,
}
use libsmpp.Codec.CommandStatus
use libsmpp.Converter.Iconv.{Converted, converted, failed}
use libsmpp.Converter.Charset.{get_charset_from_data_coding, convert_internal}
use libsmpp.Commands.Submit.{Submit, Address, get_text, get_source_address, get_destination_address}
use libsmpp.Client.Settings.{MessageSettings}

-- A request by its `request_id`.
pub data Incoming : Type 0 where
  deliver_sm : Submit Address → Incoming
  enquire_link other : Incoming

-- A response with its status, a generic_nack, and the callback `OnIncomingMessage`.
pub data Event : Type 0 where
  response : ℕ → Event
  generic_nack : Event
  incoming_message : Option (List ℕ) → Option (List ℕ) → List ℕ → Event

-- A NUL in front of the last octet of a text with an odd length.
unfoldable pub padded : List ℕ → List ℕ
padded [] = []
padded (a ∷ []) = 0 ∷ a ∷ []
padded (a ∷ b ∷ rest) = a ∷ b ∷ padded rest

-- The loop that swaps the octets of each pair; the text has an even length.
unfoldable pub swapped : List ℕ → List ℕ
swapped [] = []
swapped (a ∷ []) = a ∷ []
swapped (a ∷ b ∷ rest) = b ∷ a ∷ swapped rest

unfoldable pub native_order : MessageSettings → Submit Address → List ℕ
native_order settings s =
    if (s.data_coding == 0x08) && settings.big_endian_unicode
    then swapped (padded (get_text s))
    else get_text s

unfoldable pub incoming_events : Submit Address → Converted → List Event
incoming_events s (failed res) = response CommandStatus.esme_rsyserr ∷ []
incoming_events s (converted text) =
    incoming_message (get_source_address s) (get_destination_address s) text
    ∷ response CommandStatus.esme_rok
    ∷ []

-- What is done, in order.
module _ (settings : MessageSettings) (convert : String → String → List ℕ → Converted) where
  unfoldable pub on_new_data : Incoming → List Event
  on_new_data (deliver_sm s) = incoming_events s (
      convert_internal convert (get_charset_from_data_coding s.data_coding) "UTF-8"
        (native_order settings s))
  on_new_data enquire_link = response CommandStatus.esme_rok ∷ []
  on_new_data other = generic_nack ∷ []

-- The responses and generic_nacks among events.
abbrev pub answers : List Event → ℕ
answers [] = 0
answers (response status ∷ events) = suc (answers events)
answers (generic_nack ∷ events) = suc (answers events)
answers (incoming_message from to text ∷ events) = answers events

answers-incoming_events : (s : Submit Address) (r : Converted) → answers (incoming_events s r) ≡ 1
unfolding incoming_events
answers-incoming_events s (failed res) = refl
answers-incoming_events s (converted text) = refl

-- Every request of the server is answered once.
pub answers-on_new_data :
    (settings : MessageSettings) (convert : String → String → List ℕ → Converted) (x : Incoming)
    → answers (on_new_data settings convert x) ≡ 1
unfolding on_new_data
answers-on_new_data settings convert (deliver_sm s) = answers-incoming_events s (
    convert_internal convert (get_charset_from_data_coding s.data_coding) "UTF-8"
      (native_order settings s))
answers-on_new_data settings convert enquire_link = refl
answers-on_new_data settings convert other = refl

-- Swapping the pairs twice changes nothing.
pub swapped-swapped : (text : List ℕ) → swapped (swapped text) ≡ text
unfolding swapped
swapped-swapped [] = refl
swapped-swapped (a ∷ []) = refl
swapped-swapped (a ∷ b ∷ rest) = ap (λ (t : List ℕ). a ∷ b ∷ t) (swapped-swapped rest)

-- A padded text has an even length.
pub padded_even : (text : List ℕ) → length (padded text) % 2 ≡ 0
unfolding padded
padded_even [] = refl
padded_even (a ∷ []) = refl
padded_even (a ∷ b ∷ rest) = omega (arith, padded_even rest)
