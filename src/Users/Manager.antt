-- ===== src/Users/Manager.antt =====
-- `CSMPPUserManager`: `OnCommand`, with the callbacks of the application as a parameter.
use libsmpp.Prelude.{ℕ, if◌then◌else◌, Bool, true, false, not, Option, none, some, List, [], ◌∷◌}
use libsmpp.Codec.CommandStatus
use libsmpp.Users.Address.{Text, UserAddress, is_empty, owns_address, parse_addresses}
use libsmpp.Users.Clients.{
  BindMode, receiver, transmitter, transceiver, User, Clients, lookup, erase, insert, modify,
}
use libsmpp.Users.Requests.{
  Bind, Submit, Command, network_error, bind, unbind, submit_sm, enquire_link, other, LoginResult,
  login_ok, login_fail, login_inval_addr, login_inval_pwd, login_inval_usr, login_inval_cmd,
  DeliveryResult, delivery_ok, delivery_rejected, delivery_inv_src_addr, delivery_inv_dest_addr,
  delivery_unknown_error, neterror, unbound, Callbacks, response, nack, delivered, disconnected,
  Run, done, null_callbacks, answer,
}

-- The switch on the result of `ValidateUser`. The case LOGIN_RESULT_INVALIDCMD has no `break`.
unfoldable pub login_status : LoginResult → ℕ
login_status login_ok = CommandStatus.esme_rok
login_status login_inval_pwd = CommandStatus.esme_rinvpaswd
login_status login_inval_usr = CommandStatus.esme_rinvsysid
login_status login_inval_cmd = CommandStatus.esme_rbindfail
login_status login_inval_addr = CommandStatus.esme_rbindfail
login_status login_fail = CommandStatus.esme_rbindfail

-- The switch on the result of `DeliverMessage`.
unfoldable pub delivery_status : DeliveryResult → ℕ
delivery_status delivery_ok = CommandStatus.esme_rok
delivery_status delivery_rejected = CommandStatus.esme_rthrottled
delivery_status delivery_inv_src_addr = CommandStatus.esme_rinvsrcadr
delivery_status delivery_inv_dest_addr = CommandStatus.esme_rinvdstadr
delivery_status delivery_unknown_error = CommandStatus.esme_rsyserr

unfoldable pub is_receiver : BindMode → Bool
is_receiver receiver = true
is_receiver transmitter = false
is_receiver transceiver = false

unfoldable pub is_transmitter : BindMode → Bool
is_transmitter receiver = false
is_transmitter transmitter = true
is_transmitter transceiver = false

-- Boost's `split` and `lexical_cast`, `ConvertTextToUTF8`, the callbacks, and what other threads
-- make of `m_clients` while `ValidateUser` runs without the lock.
module _ (split : ℕ → Text → List Text) (is_int : Text → Bool) (to_utf8 : ℕ → Text → Text)
    (callbacks : Option Callbacks) (during : Clients → Clients) where
  -- The addresses of a bind request; a transmitter's are not read.
  unfoldable pub bind_addresses : Bind → Option (List UserAddress)
  bind_addresses b =
      if is_transmitter b.mode
      then some []
      else (if is_empty b.address_range then none else parse_addresses split is_int b.address_range)

  -- The end of a bind request, when `ValidateUser` has returned.
  unfoldable pub finish_bind : ℕ → Bind → List UserAddress → LoginResult → Clients → Run
  finish_bind id b addresses login_ok clients =
      let user : User = record {
        connection = id;
        bind_mode = b.mode;
        system_id = b.system_id;
        addresses = addresses;
        last_keep_alive = 0;
      } in
      answer (insert id user clients) (login_status login_ok) true
  finish_bind id b addresses res clients = answer clients (login_status res) false

  -- A bind request by its addresses: rejected, or put before `ValidateUser`.
  unfoldable pub validate : ℕ → Bind → Callbacks → Option (List UserAddress) → Clients → Run
  validate id b cb none clients = answer clients CommandStatus.esme_rinvcmdid false
  validate id b cb (some addresses) clients =
      finish_bind id b addresses (cb.validate_user id b.mode b.system_id b.password b.address_range)
        (during clients)

  -- A bind request on a connection that is not bound.
  unfoldable pub on_bind : ℕ → Bind → Clients → Run
  on_bind id b clients = elim callbacks [
    | none ↦ answer clients CommandStatus.esme_rsyserr false
    | some cb ↦ validate id b cb (bind_addresses b) clients
  ]

  -- `DeliverMessage`, or a generic_nack where there are no callbacks.
  unfoldable pub deliver : ℕ → Submit → Clients → Run
  deliver id s clients = elim callbacks [
    | none ↦
        done (record { clients = clients; events = nack CommandStatus.esme_rok ∷ []; keep = true })
    | some cb ↦
        let text = to_utf8 s.data_coding s.text in
        let res = cb.deliver_message id s.source s.destination text in
        done (record {
          clients = clients;
          events = delivered s.source s.destination text ∷ response (delivery_status res) ∷ [];
          keep = true;
        })
  ]

  -- A SUBMIT_SM of a bound user.
  unfoldable pub on_submit : ℕ → User → Option Submit → Clients → Run
  on_submit id user none clients =
      answer clients
        (if is_receiver user.bind_mode
          then CommandStatus.esme_rinvcmdid
          else CommandStatus.esme_runknownerr)
        true
  on_submit id user (some s) clients =
      if is_receiver user.bind_mode
      then answer clients CommandStatus.esme_rinvcmdid true
      else (if is_transmitter user.bind_mode
          then deliver id s clients
          else (if not (owns_address user.addresses s.source)
              then answer clients CommandStatus.esme_rinvsrcadr true
              else (if owns_address user.addresses s.destination
                  then answer clients CommandStatus.esme_rinvdstadr true
                  else deliver id s clients)))

  unfoldable pub on_unbind : ℕ → User → Clients → Run
  on_unbind id user clients = elim callbacks [
    | none ↦ answer (erase id clients) CommandStatus.esme_rok false
    | some cb ↦ done (record {
      clients = erase id clients;
      events = disconnected user.system_id unbound ∷ response CommandStatus.esme_rok ∷ [];
      keep = false;
    })
  ]

  -- A null command.
  unfoldable pub on_network_error : ℕ → Option User → Clients → Run
  on_network_error id none clients = done (record { clients = clients; events = []; keep = false })
  on_network_error id (some user) clients = elim callbacks [
    | none ↦ null_callbacks
    | some cb ↦ done (record {
      clients = erase id clients;
      events = disconnected user.system_id neterror ∷ [];
      keep = false;
    })
  ]

  -- `OnCommand` at the time `now`, by what `m_clients` has for the connection.
  unfoldable pub on_command_of : ℕ → ℕ → Option User → Command → Clients → Run
  on_command_of now id user network_error clients = on_network_error id user clients
  on_command_of now id none (bind b) clients = on_bind id b clients
  on_command_of now id none unbind clients = answer clients CommandStatus.esme_rinvbndsts false
  on_command_of now id none (submit_sm s) clients =
      answer clients CommandStatus.esme_rinvbndsts false
  on_command_of now id none enquire_link clients =
      answer clients CommandStatus.esme_rinvbndsts false
  on_command_of now id none (other r) clients = answer clients CommandStatus.esme_rinvbndsts false
  on_command_of now id (some user) (bind b) clients = answer clients CommandStatus.esme_ralybnd true
  on_command_of now id (some user) unbind clients = on_unbind id user clients
  on_command_of now id (some user) (submit_sm s) clients = on_submit id user s clients
  on_command_of now id (some user) enquire_link clients =
      answer
        (modify id
          (λ u. record {
            connection = u.connection;
            bind_mode = u.bind_mode;
            system_id = u.system_id;
            addresses = u.addresses;
            last_keep_alive = now;
          })
          clients)
        CommandStatus.esme_rok true
  on_command_of now id (some user) (other r) clients =
      answer clients CommandStatus.esme_rinvcmdid true

  unfoldable pub on_command : ℕ → ℕ → Command → Clients → Run
  on_command now id cmd clients = on_command_of now id (lookup id clients) cmd clients
