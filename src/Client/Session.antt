-- ===== src/Client/Session.antt =====
-- The state of a `CSMPPClient` and its operations: `Bind`, `Unbind`, `SendKeepAlive`, `SendMessage` and
-- `OnConnectionLost` of smppclient.cpp.
use Prim.Native.String.{String}
use libsmpp.Prelude.{ℕ, ◌==◌, if◌then◌else◌, Bool, true, false, List, []}
use libsmpp.Codec.CommandStatus
use libsmpp.Converter.Iconv.{Converted}
use libsmpp.Users.Clients.{BindMode}
use libsmpp.Users.Requests.{
  LoginResult, login_ok, login_fail, login_inval_pwd, login_inval_usr, login_inval_cmd,
  DeliveryResult,
}
use libsmpp.Commands.Bind.{Bind, new_bind, set_system_info, set_address}
use libsmpp.Client.Settings.{MessageSettings}
use libsmpp.Client.Link.{
  Request, enquire_link, Reply, answer, failure, Link, next, send_request, close,
}
use libsmpp.Client.Sending.{send_message}

-- The address of the server is left out.
pub record Client : Type 0 where
  pub login_mode : BindMode
  pub system_id : List ℕ
  pub system_type : List ℕ
  pub password : List ℕ
  pub address_range : List ℕ
  pub settings : MessageSettings
  pub is_bound : Bool
  pub server_system_id : List ℕ
  pub link : Link

unfoldable pub reset : Client → Client
reset c = record c { is_bound = false; server_system_id = [] }

unfoldable pub set_message_settings : MessageSettings → Client → Client
set_message_settings settings c = record c { settings = settings }

unfoldable pub bind_request : Client → Bind
bind_request c =
    set_address c.address_range 0 0 (set_system_info c.system_id c.password c.system_type new_bind)

-- The results of a bind request that the server rejects.
unfoldable pub login_of : ℕ → LoginResult
login_of status =
    if status == CommandStatus.esme_rinvsysid
    then login_inval_usr
    else (if status == CommandStatus.esme_rinvpaswd
        then login_inval_pwd
        else (if status == CommandStatus.esme_rinvcmdid then login_inval_cmd else login_fail))

-- Behind `SendRequest`: the connection is closed only where an answer rejects the request.
unfoldable pub bind_answer : Client → Reply × Link → LoginResult × Client
bind_answer c (failure f, link) = (login_fail, record c { link = link })
bind_answer c (answer status id, link) =
    if status == CommandStatus.esme_rok
    then (login_ok, record c { link = link; is_bound = true; server_system_id = id })
    else (login_of status, record c { link = close link })

-- `Bind` with a new connection; `connects` is what `Connect` gives.
unfoldable pub bind_client : Bool → Link → Client → LoginResult × Client
bind_client connects fresh c =
    let l = next (record fresh { is_open = true }) in
    if connects
    then bind_answer c (send_request (Request.bind c.login_mode l.sequence (bind_request c)) l)
    else (login_fail, record c { link = close fresh })

-- The client is reset before the request is sent, and its result is not looked at.
unfoldable pub unbind_client : Client → Client
unbind_client c =
    let l = next c.link in
    let t = send_request (Request.unbind l.sequence) l in
    let r = reset c in if c.is_bound then record r { link = close t.1 } else c

unfoldable pub is_alive : Reply → Bool
is_alive (answer status id) = status == CommandStatus.esme_rok
is_alive (failure f) = false

unfoldable pub send_keep_alive : Client → Bool × Client
send_keep_alive c =
    let l = next c.link in
    let t = send_request (enquire_link l.sequence) l in (is_alive t.0, record c { link = t.1 })

-- `SendMessage`.
module _ (convert : String → String → List ℕ → Converted) (left : String → List ℕ → List ℕ) where
  unfoldable pub send_client : List ℕ → List ℕ → List ℕ → Client → DeliveryResult × Client
  send_client from to content c =
      let t = send_message c.settings from to convert left c.is_bound content c.link in
      (t.0, record c { link = t.1 })

-- `OnConnectionLost`, and whether the application's callback is called.
unfoldable pub on_connection_lost : Client → Bool × Client
on_connection_lost c = if c.is_bound then (true, reset c) else (false, c)
