-- ===== src/Users/Requests.antt =====
-- What `OnCommand` of smppusersmanager.cpp is given and what it does: requests, the results of the
-- application's callbacks, and the effects.
use libsmpp.Prelude.{ℕ, Bool, Option, List, [], ◌∷◌}
use libsmpp.Users.Address.{Text}
use libsmpp.Users.Clients.{BindMode, Clients}

-- The fields of a request that `OnCommand` reads.
pub record Bind : Type 0 where
  pub mode : BindMode
  pub system_id : Text
  pub password : Text
  pub address_range : Text

pub record Submit : Type 0 where
  pub source : Text
  pub destination : Text
  pub data_coding : ℕ
  pub text : Text

-- `cmd`: a null pointer after a network error, or a request by its `request_id`. A SUBMIT_SM that
-- is no `CSMPPSubmitSingle` has no `Submit`.
pub data Command : Type 0 where
  network_error : Command
  bind : Bind → Command
  unbind : Command
  submit_sm : Option Submit → Command
  enquire_link : Command
  other : ℕ → Command

pub data LoginResult : Type 0 where
  login_ok login_fail login_inval_addr login_inval_pwd login_inval_usr login_inval_cmd : LoginResult

pub data DeliveryResult : Type 0 where
  delivery_ok delivery_rejected delivery_inv_src_addr delivery_inv_dest_addr
        delivery_unknown_error :
      DeliveryResult

pub data Reason : Type 0 where
  neterror unbound : Reason

-- `CSMSCCallback`.
pub record Callbacks : Type 0 where
  pub validate_user : ℕ → BindMode → Text → Text → Text → LoginResult
  pub deliver_message : ℕ → Text → Text → Text → DeliveryResult

-- What `OnCommand` does besides changing `m_clients`, in order: a response with its status, a
-- generic_nack, and the calls of `DeliverMessage` and `OnUserDisconnected`.
pub data Event : Type 0 where
  response nack : ℕ → Event
  delivered : Text → Text → Text → Event
  disconnected : Text → Reason → Event

pub record Outcome : Type 0 where
  pub clients : Clients
  pub events : List Event
  pub keep : Bool

-- A call through a null `m_callbacks` ends the process.
pub data Run : Type 0 where
  done : Outcome → Run
  null_callbacks : Run

abbrev pub answer : Clients → ℕ → Bool → Run
answer clients status keep =
    done (record { clients = clients; events = response status ∷ []; keep = keep })
