-- ===== src/Connection/Tests.antt =====
-- The connection at work.
use libsmpp.Prelude.{[], ◌∷◌, none, some, false, get_elem?, ◌^◌, ◌-◌, ◌≡◌, true, refl, arith}
use libsmpp.Codec.CommandId
use libsmpp.Codec.Checks.{sequence_number, valid}
use libsmpp.Codec.Frames.{frame_of}
use libsmpp.Codec.Pdu.{PduOf}
use libsmpp.Connection.Sequence.{
  initial_seq_number, next_sequence_number, IsSequence, next_sequence_number-IsSequence,
}
use libsmpp.Codec.Octets.{big_endian}
use libsmpp.Connection.Pending.{
  Call, Conn, invresp, new_conn, begin_request, find, wake, close, on_error, on_response,
  on_exception, spoil,
}
use libsmpp.Connection.Registered.{Step, Reach}
use libsmpp.Connection.NetworkError.{on_error-wake}
use libsmpp.Connection.Reading.{repaired, cut_behind, first_null}
use libsmpp.Connection.SendPdu.{send_pdu, outcome_of, packed, send_pdu-packed}

-- The last number before UINT_MAX, where the sequence starts again.
next_sequence_number-IsSequence_example :
    IsSequence (initial_seq_number 41)
    × IsSequence (next_sequence_number 41 (2 ^ 32 - 2))
    × (valid sequence_number (next_sequence_number 41 (2 ^ 32 - 2)) ≡ true)
next_sequence_number-IsSequence_example =
    next_sequence_number-IsSequence 41 (2 ^ 32 - 2) (omega arith, omega arith)

wraps : next_sequence_number 41 (2 ^ 32 - 2) ≡ 42
unfolding next_sequence_number initial_seq_number
wraps = refl

abbrev link : PduOf (frame_of CommandId.enquire_link)
unfolding frame_of
link = (0, (0x15, (0, (7, tt))), tt)

send_pdu-packed_example :
    send_pdu (packed CommandId.enquire_link link) true true
    ≡ outcome_of (packed CommandId.enquire_link link 4096) true
send_pdu-packed_example = send_pdu-packed CommandId.enquire_link link true

-- A request with the sequence number 7 that waits.
abbrev waiting : Conn
waiting = begin_request 7 none new_conn

abbrev waiting_call : Call
waiting_call = record { sequence = 7; status = some 0; notified = false; outcome = none }

waiting_reached : Reach new_conn waiting
unfolding new_conn find
waiting_reached = Reach.later Reach.here (Step.begin 7 none refl (λ e. refl))

waiting_there : get_elem? waiting.calls 0 ≡ some waiting_call
unfolding begin_request new_conn
waiting_there = refl

waiting_open : waiting.close_requested ≡ false
unfolding begin_request new_conn
waiting_open = refl

on_error-wake_example :
    get_elem? (wake false 0 (on_error waiting)).calls 0
    ≡ some (record waiting_call { status = none; notified = true; outcome = some invresp })
on_error-wake_example =
    on_error-wake {c = waiting} 0 waiting_call waiting_reached waiting_open waiting_there refl

-- It is closed, a response comes too late, and its time is up.
abbrev too_late : Conn
too_late = on_response 7 (some 0) (close waiting)

-- A SUBMIT_SM_RESP with an octet behind its message_id is cut to 18 octets.
repaired_response :
    repaired 0x80000004
      (0 ∷ 0 ∷ 0 ∷ 19 ∷ 0x80 ∷ 0 ∷ 0 ∷ 4 ∷ 0 ∷ 0 ∷ 0 ∷ 0 ∷ 0 ∷ 0 ∷ 0 ∷ 7 ∷ 0x31 ∷ 0 ∷ 9 ∷ [])
    ≡ 0 ∷ 0 ∷ 0 ∷ 18 ∷ 0x80 ∷ 0 ∷ 0 ∷ 4 ∷ 0 ∷ 0 ∷ 0 ∷ 0 ∷ 0 ∷ 0 ∷ 0 ∷ 7 ∷ 0x31 ∷ 0 ∷ []
unfolding repaired cut_behind first_null big_endian
repaired_response = refl

-- The use of a null pointer: the body of a response that nobody waits for cannot be read.
no_command : on_exception (some 7) new_conn ≡ none
unfolding on_exception spoil find new_conn
no_command = refl
