-- ===== src/Connection/Reading.antt =====
-- `ReadHandler` and `CreateCommandFromBuffer` on a PDU that was read, and `Connect`.
use libsmpp.Prelude.{
  ℕ, ◌+◌, ◌-◌, ◌/◌, ◌%◌, ◌==◌, ◌||◌, ltb, if◌then◌else◌, Bool, true, false, Option, none, some,
  List, [], ◌∷◌, ◌++◌, length, take, drop, ◌≡◌, ap, ◌^◌, arith,
}
use libsmpp.Codec.CommandId
use libsmpp.Codec.Octets.{w32, big_endian}
use libsmpp.Codec.Frames.{frame_of}
use libsmpp.Codec.Pdu.{PduOf}
use libsmpp.Codec.RoundTrip.Pdus.{IsPduOf, received}
use libsmpp.Commands.Command.{
  Command, Unpacked, unpacked, wrong_command, failed, new_command, pack_request, unpack_request,
  command_id_of,
}
use libsmpp.Commands.RoundTrip.{unpack_request-pack_request}

-- `find_first_of('\0', start)`, for a text from `start` on.
unfoldable pub first_null : ℕ → List ℕ → Option ℕ
first_null start [] = none
first_null start (c ∷ cs) =
    let rest = first_null (start + 1) cs in if c == 0 then some start else rest

-- The PDU is cut behind the NUL, and its new length is written to its front.
unfoldable pub cut_behind : Option ℕ → List ℕ → List ℕ
cut_behind none pdu = pdu
cut_behind (some pos) pdu =
    let short = big_endian w32 (pos + 1) ++ drop 4 (take (pos + 1) pdu) in
    if ltb pos (length pdu - 1) then short else pdu

-- The repair of a response that has fields behind `message_id`: for a command with the bit of
-- SUBMIT_SM, the PDU ends at the first NUL behind its header.
unfoldable pub repaired : ℕ → List ℕ → List ℕ
repaired command_id pdu =
    if command_id / 4 % 2 == 1 then cut_behind (first_null 16 (drop 16 pdu)) pdu else pdu

-- The command of a request: its identifier with the command itself.
pub data Created : Type 0 where
  created : (id : ℕ) → Command id → Created
  rejected : Created

unfoldable pub created_of : (id : ℕ) → Unpacked id → Created
created_of id failed = rejected
created_of id (wrong_command other c) = rejected
created_of id (unpacked status c) = created id c

-- The cases that make a command of their own.
unfoldable pub is_request : ℕ → Bool
is_request id =
    id == CommandId.bind_receiver
    || id == CommandId.bind_transmitter
    || id == CommandId.bind_transceiver
    || id == CommandId.unbind
    || id == CommandId.submit_sm
    || id == CommandId.enquire_link
    || id == CommandId.deliver_sm

-- `CreateCommandFromBuffer`. Any other request becomes a generic_nack, and is not unpacked.
unfoldable pub create_command_from_buffer : ℕ → ℕ → List ℕ → Created
create_command_from_buffer id seq buffer =
    if is_request id
    then created_of id (unpack_request (new_command id seq) buffer)
    else created CommandId.generic_nack (new_command CommandId.generic_nack seq)

-- What `ReadHandler` does with a PDU: a response is given to the call with its sequence number; a
-- request goes to the handler; or a generic_nack is sent.
pub data Reading : Type 0 where
  response_to : ℕ → List ℕ → Reading
  handled : (id : ℕ) → Command id → Reading
  nacked : ℕ → Reading

unfoldable pub reading_of : ℕ → Created → Reading
reading_of seq (created id c) = handled id c
reading_of seq rejected = nacked seq

unfoldable pub read_pdu : Bool → ℕ → ℕ → List ℕ → Reading
read_pdu has_handler command_id seq pdu =
    if command_id / 2 ^ 31 % 2 == 1
    then response_to seq (repaired command_id pdu)
    else (if has_handler
        then reading_of seq (create_command_from_buffer command_id seq pdu)
        else nacked seq)

-- The loop of `Connect` over the addresses of a host, by whether each of them accepts.
unfoldable pub connect : List Bool → Bool
connect [] = false
connect (accepts ∷ others) = accepts || connect others

-- A request that a command of one of the seven kinds packs is handled with the struct as it was packed,
-- under the same identifier.
pub create_command_from_buffer-pack_request :
    (id seq : ℕ) (c : Command id) (octets : List ℕ)
    → is_request id ≡ true
    → IsPduOf (frame_of id) c.request
    → command_id_of (frame_of id) (new_command id seq).request
      ≡ command_id_of (frame_of id) c.request
    → pack_request c 4096 ≡ some octets
    → (x' : PduOf (frame_of id)) × (create_command_from_buffer id seq octets
        ≡ created id (record (new_command id seq) { request = received (frame_of id) x' }))
unfolding create_command_from_buffer created_of
create_command_from_buffer-pack_request id seq c octets known is same h =
    let r =
      unpack_request-pack_request id c (new_command id seq) 4096 octets is same (omega arith) h in
    (r.0, rw known (ap (created_of id) r.2))
