-- ===== src/Client/Sending.antt =====
-- `SendMessage` of smppclient.cpp.
use Prim.Native.String.{String}
use libsmpp.Prelude.{
  ℕ, zero, suc, ◌+◌, ◌-◌, ◌/◌, ◌%◌, ◌==◌, ltb, leb, if◌then◌else◌, Bool, false, ◌&&◌, ◌||◌, Option,
  none, some, List, length, take, drop,
}
use libsmpp.Codec.CommandStatus
use libsmpp.Converter.Iconv.{Converted, converted, failed}
use libsmpp.Converter.Charset.{get_charset_from_data_coding, convert_internal}
use libsmpp.Users.Requests.{
  DeliveryResult, delivery_ok, delivery_rejected, delivery_inv_src_addr, delivery_inv_dest_addr,
  delivery_unknown_error,
}
use libsmpp.Commands.Submit.{
  Submit, Address, new_submit, set_destination, set_source_address, set_text, set_data_coding,
  set_concatenated_message_args,
}
use libsmpp.Client.Settings.{MessageSettings, short_limit, message_length}
use libsmpp.Client.Link.{Request, submit_sm, Reply, answer, failure, Link, next, send_request}

-- `HandleMessageResponse`.
unfoldable pub handle_message_response : ℕ → DeliveryResult
handle_message_response status =
    if status == CommandStatus.esme_rok
    then delivery_ok
    else (if status == CommandStatus.esme_rinvsrcadr
        then delivery_inv_src_addr
        else (if status == CommandStatus.esme_rinvdstadr
            then delivery_inv_dest_addr
            else (if status == CommandStatus.esme_rinvcmdid
                then delivery_rejected
                else delivery_unknown_error)))

-- The result of a reply: no answer, or its status.
unfoldable pub delivery_of : Reply → DeliveryResult
delivery_of (answer status id) = handle_message_response status
delivery_of (failure f) = delivery_unknown_error

-- `do … while (res != RESULT_OK && ++retry < 3)`, with the retries that are left.
unfoldable pub first_answer : Reply × Link → Reply × Link → Reply × Link
first_answer (answer status id, link) later = (answer status id, link)
first_answer (failure f, link) later = later

unfoldable pub send_retrying : ℕ → Request → Link → Reply × Link
send_retrying zero q link = send_request q link
send_retrying (suc more) q link =
    let t = send_request q link in first_answer t (send_retrying more q t.1)

-- The next round of a loop that ends at the first result that is not DELIVERY_OK.
unfoldable pub proceed :
    DeliveryResult × Link → (Link → DeliveryResult × Link) → DeliveryResult × Link
proceed (delivery_ok, link) rest = rest link
proceed (delivery_rejected, link) rest = (delivery_rejected, link)
proceed (delivery_inv_src_addr, link) rest = (delivery_inv_src_addr, link)
proceed (delivery_inv_dest_addr, link) rest = (delivery_inv_dest_addr, link)
proceed (delivery_unknown_error, link) rest = (delivery_unknown_error, link)

-- `sar_total_segments`, `sar_msg_ref_num` and `sar_segment_seqnum`.
abbrev pub Sar : Type 0
Sar = ℕ × ℕ × ℕ

unfoldable pub set_sar : Option Sar → Submit Address → Submit Address
set_sar none s = s
set_sar (some (total, ref, seqnum)) s = set_concatenated_message_args total ref seqnum s

-- `ref` is `none` without concatenation; `sar_segment_seqnum` is counted before it is used.
unfoldable pub sar_of : Option (ℕ × ℕ) → ℕ → Option Sar
sar_of none seqnum = none
sar_of (some (total, ref)) seqnum = some (total, ref, seqnum)

-- `if (text.length() - i < messageLength) messageLength = text.length() - i`.
unfoldable pub next_length : ℕ → ℕ → ℕ
next_length remaining n = if ltb remaining n then remaining else n

-- The test for a single message.
unfoldable pub is_single : MessageSettings → List ℕ → Bool
is_single settings text =
    leb (length text) 1024 && (settings.enable_payload || leb (length text) (short_limit settings))

module _ (settings : MessageSettings) (from to : List ℕ) where
  -- One command: its fields in the order in which they are set.
  unfoldable pub message : List ℕ → Option Sar → Submit Address
  message text sar = set_sar sar (
      set_data_coding settings.deliver_data_coding
        (set_text text false (set_source_address from 0 0 (set_destination to 0 0 new_submit))))

  -- A new sequence number, at most three attempts, and the result.
  unfoldable pub send_one : List ℕ → Option Sar → Link → DeliveryResult × Link
  send_one text sar link =
      let l = next link in
      let t = send_retrying 2 (submit_sm l.sequence (message text sar)) l in (delivery_of t.0, t.1)

  -- The `for` loop at `i`, with the `messageLength` so far and the segments sent so far.
  unfoldable pub segment_loop :
      ℕ → List ℕ → Option (ℕ × ℕ) → ℕ → ℕ → ℕ → Link → DeliveryResult × Link
  segment_loop zero text ref i n k link = (delivery_ok, link)
  segment_loop (suc fuel) text ref i n k link =
      let m = next_length (length text - i) n in
      let rest =
        proceed (send_one (take m (drop i text)) (sar_of ref (k + 1)) link)
          (λ l. segment_loop fuel text ref (i + m) m (k + 1) l) in
      if ltb i (length text) then rest else (delivery_ok, link)

  -- The part behind the comment "the message is too long".
  unfoldable pub send_segments : List ℕ → Link → DeliveryResult × Link
  send_segments text link =
      let n = message_length settings in
      let total : ℕ = length text / n + (if length text % n == 0 then 0 else 1) in
      let l = next link in
      if settings.enable_message_concatenation
      then segment_loop (length text) text (some (total, l.sequence)) 0 n 0 l
      else segment_loop (length text) text none 0 n 0 link

  unfoldable pub send_text : List ℕ → Link → DeliveryResult × Link
  send_text text link =
      if is_single settings text then send_one text none link else send_segments text link

  -- `iconv`, and what a failed conversion leaves in `text`, whose result is not looked at.
  module _ (convert : String → String → List ℕ → Converted) (left : String → List ℕ → List ℕ) where
    unfoldable pub text_of : String → List ℕ → Converted → List ℕ
    text_of encoding content (converted text) = text
    text_of encoding content (failed res) = left encoding content

    unfoldable pub encoded : List ℕ → List ℕ
    encoded content =
        let coding =
          if settings.deliver_data_coding == 0
          then settings.server_default_encoding
          else settings.deliver_data_coding in
        let encoding = get_charset_from_data_coding coding in
        text_of encoding content (convert_internal convert "UTF-8" encoding content)

    unfoldable pub send_message : Bool → List ℕ → Link → DeliveryResult × Link
    send_message is_bound content link =
        if is_bound then send_text (encoded content) link else (delivery_unknown_error, link)
