-- ===== src/Connection/Pending.antt =====
-- `SendRequest`, `Close` and `m_pendingResponses`: the requests that wait for their responses. Every
-- function is a part of the code that runs under `m_mutex`; a call waits in between.
use libsmpp.Prelude.{
  ℕ, zero, suc, ◌==◌, if◌then◌else◌, Bool, true, false, Option, none, some, List, [], ◌∷◌, ◌++◌,
  length, get_elem?,
}

-- RESULT_OK and the other results of `SendRequest`.
pub data Result : Type 0 where
  ok timeout neterror invresp syserror : Result

-- A call of `SendRequest`: the sequence number and the status of its command, where `none` stands for
-- -1; whether its condition was notified; and its result when it has one.
pub record Call : Type 0 where
  pub sequence : ℕ
  pub status : Option ℕ
  pub notified : Bool
  pub outcome : Option Result

-- `m_pendingResponses`, from sequence numbers to calls, which are counted from the first.
abbrev pub Pending : Type 0
Pending = List (ℕ × ℕ)

unfoldable pub find : ℕ → Pending → Option ℕ
find seq [] = none
find seq ((k, id) ∷ m) = if seq == k then some id else find seq m

-- `m_pendingResponses[seq] = …`.
unfoldable pub assign : ℕ → ℕ → Pending → Pending
assign seq id [] = (seq, id) ∷ []
assign seq id ((k, v) ∷ m) = if seq == k then (k, id) ∷ m else (k, v) ∷ assign seq id m

unfoldable pub remove : ℕ → Pending → Pending
remove seq [] = []
remove seq ((k, v) ∷ m) = if seq == k then remove seq m else (k, v) ∷ remove seq m

-- A change of one call.
unfoldable pub update : ℕ → (Call → Call) → List Call → List Call
update i f [] = []
update zero f (c ∷ cs) = f c ∷ cs
update (suc i) f (c ∷ cs) = c ∷ update i f cs

-- The state of a `CSMPPConnection` and all calls so far.
pub record Conn : Type 0 where
  pub is_open : Bool
  pub connection_error : Bool
  pub close_requested : Bool
  pub pending : Pending
  pub calls : List Call

unfoldable pub new_conn : Conn
new_conn = record {
  is_open = true;
  connection_error = false;
  close_requested = false;
  pending = [];
  calls = [];
}

-- `SendRequest` up to the wait: `SendPDU` failed with a result, or the call is put into the map.
unfoldable pub begin_request : ℕ → Option Result → Conn → Conn
begin_request seq (some r) c =
    let call : Call = record {
      sequence = seq;
      status = some 0;
      notified = false;
      outcome = some r;
    } in
    record c { calls = c.calls ++ (call ∷ []) }
begin_request seq none c =
    let call : Call = record {
      sequence = seq;
      status = some 0;
      notified = false;
      outcome = none;
    } in
    record c { pending = assign seq (length c.calls) c.pending; calls = c.calls ++ (call ∷ []) }

-- The results behind the wait.
unfoldable pub result_of : Bool → Bool → Option ℕ → Result
result_of timed_out error none =
    if timed_out then timeout else (if error then neterror else invresp)
result_of timed_out error (some status) =
    if timed_out then timeout else (if error then neterror else ok)

unfoldable pub finish : Bool → Bool → Call → Call
unfolding result_of
finish timed_out error call = record call { outcome = some (result_of timed_out error call.status) }

-- `SendRequest` behind the wait, for a call that waits.
unfoldable pub wake_call : Bool → ℕ → Option Call → Conn → Conn
wake_call timed_out id none c = c
wake_call timed_out id (some call) c = record c {
  pending = remove call.sequence c.pending;
  calls = update id (finish timed_out c.connection_error) c.calls;
}

unfoldable pub wake : Bool → ℕ → Conn → Conn
wake timed_out id c = wake_call timed_out id (get_elem? c.calls id) c

unfoldable pub close : Conn → Conn
close c =
    let closed : Conn = record c {
      is_open = false;
      connection_error = false;
      close_requested = true;
      pending = [];
    } in
    if c.close_requested then c else closed

-- A status for the command of a call, and a notification.
unfoldable pub notified : Option ℕ → Call → Call
notified status call = record call { status = status; notified = true }

-- The loop of `ReadHandler` over the map after an error.
unfoldable pub notify_all : Pending → List Call → List Call
notify_all [] calls = calls
notify_all ((seq, id) ∷ m) calls = notify_all m (update id (notified none) calls)

-- `ReadHandler` with an error.
unfoldable pub on_error : Conn → Conn
on_error c =
    let failed : Conn = record c {
      connection_error = true;
      calls = notify_all c.pending c.calls;
    } in
    if c.close_requested then failed else close failed

-- `ReadHandler` with a response, for what the map has; `status` is `none` where it cannot be unpacked.
unfoldable pub respond : Option ℕ → Option ℕ → Conn → Conn
respond status none c = c
respond status (some id) c = record c { calls = update id (notified status) c.calls }

unfoldable pub on_response : ℕ → Option ℕ → Conn → Conn
on_response seq status c = respond status (find seq c.pending) c

-- `ReadHandler` where reading the body throws, with the sequence number if the header is a response's.
-- `none` stands for the use of a null pointer: `m_pendingResponses[seqNumber]` has no command.
unfoldable pub spoil : Option ℕ → Conn → Option Conn
spoil none c = none
spoil (some id) c = some (close (record c { calls = update id (notified none) c.calls }))

unfoldable pub on_exception : Option ℕ → Conn → Option Conn
on_exception none c = some (close c)
on_exception (some seq) c = if c.close_requested then some c else spoil (find seq c.pending) c
