-- ===== src/Server/Tests.antt =====
-- The server at work: a client connects and binds.
use libsmpp.Prelude.{ℕ, ◌≡◌, refl, Bool, true, false, some, List, [], ◌∷◌}
use libsmpp.Users.Address.{Text, explicit, is_empty, parse_addresses, parse_all, parse_address}
use libsmpp.Users.Clients.{transceiver, User, lookup, insert}
use libsmpp.Users.Requests.{Command, bind, Callbacks, login_ok, delivery_ok}
use libsmpp.Users.Manager.{
  on_command, on_command_of, on_bind, validate, finish_bind, login_status, bind_addresses,
  is_transmitter,
}
use libsmpp.Server.State.{
  accept_connection, handled, close_connection, Server, new_server, start, on_new_connection,
  on_new_pdu_handler, is_in, thread_count,
}
use libsmpp.Server.Serving.{IsServed}
use libsmpp.Server.Bound.{started, connected, requested, cut_off, here, later, Reach-IsServed}

abbrev cb : Callbacks
cb = record {
  validate_user = λ id mode system_id password addresses. login_ok;
  deliver_message = λ id from to text. delivery_ok;
}

abbrev whole : ℕ → Text → List Text
whole separator s = s ∷ []

abbrev yes_int : Text → Bool
yes_int s = true

abbrev as_is : ℕ → Text → Text
as_is data_coding s = s

abbrev login : Command
login =
    bind (record {
      mode = transceiver;
      system_id = 0x61 ∷ [];
      password = [];
      address_range = 0x35 ∷ [];
    })

abbrev listening : Server
listening = (start true true 0 new_server).1

abbrev connected_server : Server
connected_server = on_new_connection false 1 listening

abbrev user : User
user = record {
  connection = 1;
  bind_mode = transceiver;
  system_id = 0x61 ∷ [];
  addresses = explicit (0x35 ∷ []) ∷ [];
  last_keep_alive = 0;
}

abbrev bound_server : Server
bound_server = record connected_server { clients = (1, user) ∷ [] }

logs_in :
    on_new_pdu_handler whole yes_int as_is (some cb) 5 1 login connected_server ≡ some bound_server
unfolding on_new_pdu_handler handled on_new_connection start accept_connection new_server on_command
    on_command_of on_bind validate finish_bind login_status lookup insert bind_addresses
    is_transmitter is_empty parse_addresses parse_all parse_address
logs_in = refl

is_connected : is_in 1 connected_server.connections ≡ true
unfolding is_in on_new_connection start accept_connection new_server
is_connected = refl

most_threads : thread_count 1000 ≡ 200
unfolding thread_count
most_threads = refl

-- A port that cannot be bound is not tried again.
starts_unbound : (start true false 4 (start true false 4 new_server).1).0 ≡ true
unfolding start new_server
starts_unbound = refl

-- Later a PDU of the client cannot be read.
Reach-IsServed_example : IsServed (1 ∷ []) (close_connection 1 bound_server)
Reach-IsServed_example = Reach-IsServed whole yes_int as_is (some cb) (
    later
      (later (later (later here (started true true 0)) (connected false 1))
        (requested 5 1 login bound_server is_connected logs_in))
      (cut_off 1))
