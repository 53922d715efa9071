-- ===== src/Client/Link.antt =====
-- The connection of a client, as smppclient.cpp uses it: sequence numbers, `SendRequest` with what
-- the server makes of each request, and `Close`.
use libsmpp.Prelude.{ℕ, ◌+◌, if◌then◌else◌, Bool, false, List, [], ◌∷◌, ◌++◌}
use libsmpp.Users.Clients.{BindMode}
use libsmpp.Commands.Submit.{Submit, Address}
use libsmpp.Commands.Bind.{Bind}
use libsmpp.Connection.Sequence.{next_sequence_number}

-- A request with its sequence number.
pub data Request : Type 0 where
  bind : BindMode → ℕ → Bind → Request
  unbind enquire_link : ℕ → Request
  submit_sm : ℕ → Submit Address → Request

-- Why `SendRequest` has no answer: RESULT_TIMEOUT, RESULT_NETERROR, RESULT_INVRESP, RESULT_SYSERROR.
pub data Failure : Type 0 where
  timeout neterror invresp syserror : Failure

-- RESULT_OK with `command_status` and the `system_id` of a response to a bind request; or a failure.
pub data Reply : Type 0 where
  answer : ℕ → List ℕ → Reply
  failure : Failure → Reply

-- `replies` and `rand` are what the server and `rand` will do, by the number of requests sent so far.
-- `answered` keeps the requests that were answered, with the status, in order.
pub record Link : Type 0 where
  pub replies : ℕ → Reply
  pub rand : ℕ → ℕ
  pub is_open : Bool
  pub sequence : ℕ
  pub requests : ℕ
  pub answered : List (Request × ℕ)

-- `NextSequenceNumber`: the number is the new `sequence`.
unfoldable pub next : Link → Link
next link = record link { sequence = next_sequence_number (link.rand link.requests) link.sequence }

-- `SendRequest` on a closed socket fails.
unfoldable pub reply_of : Link → Reply
reply_of link = if link.is_open then link.replies link.requests else failure neterror

unfoldable pub sent : Link → Link
sent link = record link { requests = link.requests + 1 }

unfoldable pub recorded : Request → Reply → Link → Link
unfolding sent
recorded q (answer status id) link = record (sent link) {
  answered = link.answered ++ ((q, status) ∷ []);
}
recorded q (failure f) link = sent link

unfoldable pub send_request : Request → Link → Reply × Link
send_request q link = let r = reply_of link in (r, recorded q r link)

unfoldable pub close : Link → Link
close link = record link { is_open = false }
