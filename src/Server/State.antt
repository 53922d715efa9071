-- ===== src/Server/State.antt =====
-- The state of a server and its operations: `Start`, `Stop` and the handlers of smppserver.cpp.
use libsmpp.Prelude.{
  ℕ, ◌+◌, ◌%◌, ◌^◌, ◌==◌, ltb, ◌||◌, ◌&&◌, if◌then◌else◌, Bool, true, false, Option, none, some,
  List, [], ◌∷◌,
}
use libsmpp.Users.Address.{Text}
use libsmpp.Users.Clients.{Clients}
use libsmpp.Users.Requests.{Callbacks, Command, network_error, Run, done, null_callbacks}
use libsmpp.Users.Manager.{on_command}

-- `waiting` has the connections that `async_accept` waits for, `connections` the open ones; `clients`
-- is `m_clients` of the user manager.
pub record Server : Type 0 where
  pub is_running : Bool
  pub is_open : Bool
  pub connection_counter : ℕ
  pub threads : ℕ
  pub waiting : List ℕ
  pub connections : List ℕ
  pub clients : Clients

unfoldable pub new_server : Server
new_server = record {
  is_running = false;
  is_open = false;
  connection_counter = 0;
  threads = 0;
  waiting = [];
  connections = [];
  clients = [];
}

-- STARTUP_THREAD_COUNT for 0, and at most MAX_THREAD_COUNT.
unfoldable pub thread_count : ℕ → ℕ
thread_count n = let m : ℕ = if n == 0 then 20 else n in if ltb 200 m then 200 else m

-- A new connection with the next identifier, an `unsigned int`.
unfoldable pub accept_connection : Server → Server
accept_connection s =
    let id = (s.connection_counter + 1) % 2 ^ 32 in
    record s { connection_counter = id; waiting = id ∷ s.waiting }

-- Whether it returns, and the server. Where the port cannot be bound, the exception leaves the acceptor
-- as `open` left it.
unfoldable pub start : Bool → Bool → ℕ → Server → Bool × Server
start can_open can_listen n s =
    let accepting = accept_connection (record s { is_open = true }) in
    let started : Server = record accepting {
      is_running = true;
      threads = s.threads + thread_count n;
    } in
    let listens = s.is_open || (can_open && can_listen) in
    (listens, (if listens then started else (record s { is_open = can_open })))

unfoldable pub stop : Server → Server
stop s =
    let stopped : Server = record s { is_running = false; is_open = false; threads = 0 } in
    if s.is_running then stopped else s

unfoldable pub is_in : ℕ → List ℕ → Bool
is_in k [] = false
is_in k (x ∷ xs) = k == x || is_in k xs

unfoldable pub without : ℕ → List ℕ → List ℕ
without k [] = []
without k (x ∷ xs) = if k == x then without k xs else x ∷ without k xs

-- `OnNewConnection`: the next connection is awaited before this one starts to read.
unfoldable pub on_new_connection : Bool → ℕ → Server → Server
on_new_connection error id s =
    let next = accept_connection (record s { waiting = without id s.waiting }) in
    let reading : Server = record next { connections = id ∷ next.connections } in
    if error then (record s { waiting = without id s.waiting }) else reading

-- `Close` of a connection.
unfoldable pub close_connection : ℕ → Server → Server
close_connection id s = record s { connections = without id s.connections }

-- What a handler makes of the result of `OnCommand`. `none` is the end of the process.
unfoldable pub handled : ℕ → Server → Run → Option Server
handled id s null_callbacks = none
handled id s (done o) =
    let next : Server = record s { clients = o.clients } in
    some (if o.keep then next else close_connection id next)

-- The same where the result of `OnCommand` is not looked at.
unfoldable pub handled_error : Server → Run → Option Server
handled_error s null_callbacks = none
handled_error s (done o) = some (record s { clients = o.clients })

module _ (split : ℕ → Text → List Text) (is_int : Text → Bool) (to_utf8 : ℕ → Text → Text)
    (callbacks : Option Callbacks) where
  -- `OnNewPDUHandler`, at the time `now`.
  unfoldable pub on_new_pdu_handler : ℕ → ℕ → Command → Server → Option Server
  on_new_pdu_handler now id cmd s =
      handled id s
        (on_command split is_int to_utf8 callbacks (λ clients. clients) now id cmd s.clients)

  -- `OnConnectionError`: the connection is closed first.
  unfoldable pub on_connection_error : ℕ → ℕ → Server → Option Server
  on_connection_error now id s =
      let closed = close_connection id s in
      handled_error closed (
        on_command split is_int to_utf8 callbacks (λ clients. clients) now id network_error
          closed.clients)
