-- ===== src/Users/Delivery.antt =====
-- Which requests reach the application's `DeliverMessage`.
use libsmpp.Prelude.{
  ℕ, ◌≡◌, refl, subst, if◌then◌else◌, Bool, true, false, not, ◌&&◌, ◌||◌, Option, some, none, List,
  [], ◌∷◌,
}
use libsmpp.Users.Address.{Text, UserAddress, owns_address}
use libsmpp.Users.Clients.{User, Clients, lookup}
use libsmpp.Users.Requests.{
  Bind, Submit, Command, network_error, bind, unbind, submit_sm, enquire_link, other, LoginResult,
  login_ok, login_fail, login_inval_addr, login_inval_pwd, login_inval_usr, login_inval_cmd,
  Callbacks, Event, response, nack, delivered, disconnected, Outcome, Run, done,
}
use libsmpp.Users.Manager.{
  is_receiver, is_transmitter, bind_addresses, finish_bind, validate, on_bind, deliver, on_submit,
  on_unbind, on_network_error, on_command_of, on_command,
}
use libsmpp.Users.Effects.{Holds}

-- A message reaches the application.
abbrev pub delivers : List Event → Bool
delivers [] = false
delivers (delivered source destination text ∷ es) = true
delivers (response status ∷ es) = delivers es
delivers (nack status ∷ es) = delivers es
delivers (disconnected system_id reason ∷ es) = delivers es

-- A receiver sends nothing; a transceiver sends from its own addresses to others'.
abbrev pub may_send : User → Submit → Bool
may_send user s =
    not (is_receiver user.bind_mode)
    && (is_transmitter user.bind_mode
        || (owns_address user.addresses s.source
            && not (owns_address user.addresses s.destination)))

abbrev pub allowed : Option User → Command → Bool
allowed none cmd = false
allowed (some user) network_error = false
allowed (some user) (bind b) = false
allowed (some user) unbind = false
allowed (some user) (submit_sm none) = false
allowed (some user) (submit_sm (some s)) = may_send user s
allowed (some user) enquire_link = false
allowed (some user) (other r) = false

abbrev Delivers : Bool → Outcome → Type 0
Delivers b o = delivers o.events ≡ b

-- The tests of `on_submit`, one after another.
guarded_Delivers :
    (receives transmits from to : Bool) (inval_cmd go : Run)
    → Holds (Delivers false) inval_cmd
    → Holds (Delivers true) go
    → (inval_src : Run) → Holds (Delivers false) inval_src
    → (inval_dst : Run) → Holds (Delivers false) inval_dst
    → Holds (Delivers (not receives && (transmits || (from && not to)))) (
        if receives
        then inval_cmd
        else (if transmits
            then go
            else (if not from then inval_src else (if to then inval_dst else go))))
guarded_Delivers true transmits from to inval_cmd go n y inval_src n' inval_dst n'' = n
guarded_Delivers false true from to inval_cmd go n y inval_src n' inval_dst n'' = y
guarded_Delivers false false false to inval_cmd go n y inval_src n' inval_dst n'' = n'
guarded_Delivers false false true true inval_cmd go n y inval_src n' inval_dst n'' = n''
guarded_Delivers false false true false inval_cmd go n y inval_src n' inval_dst n'' = y

module _ (split : ℕ → Text → List Text) (is_int : Text → Bool) (to_utf8 : ℕ → Text → Text)
    (cb : Callbacks) (during : Clients → Clients) (now id : ℕ) (clients : Clients) where
  finish_bind-Delivers :
      (b : Bind) (addresses : List UserAddress) (res : LoginResult) (cs : Clients)
      → Holds
          (Delivers false)
          (finish_bind split is_int to_utf8 (some cb) during id b addresses res cs)
  unfolding finish_bind
  finish_bind-Delivers b addresses login_ok cs = refl
  finish_bind-Delivers b addresses login_fail cs = refl
  finish_bind-Delivers b addresses login_inval_addr cs = refl
  finish_bind-Delivers b addresses login_inval_pwd cs = refl
  finish_bind-Delivers b addresses login_inval_usr cs = refl
  finish_bind-Delivers b addresses login_inval_cmd cs = refl

  validate-Delivers :
      (b : Bind) (addresses : Option (List UserAddress))
      → Holds
          (Delivers false)
          (validate split is_int to_utf8 (some cb) during id b cb addresses clients)
  unfolding validate
  validate-Delivers b none = refl
  validate-Delivers b (some addresses) =
      finish_bind-Delivers b addresses
        (cb.validate_user id b.mode b.system_id b.password b.address_range) (during clients)

  on_submit-Delivers :
      (user : User) (s : Option Submit)
      → Holds
          (Delivers (allowed (some user) (submit_sm s)))
          (on_submit split is_int to_utf8 (some cb) during id user s clients)
  unfolding on_submit deliver
  on_submit-Delivers user none = refl
  on_submit-Delivers user (some s) =
      guarded_Delivers (is_receiver user.bind_mode) (is_transmitter user.bind_mode)
        (owns_address user.addresses s.source) (owns_address user.addresses s.destination) _ _ refl
        refl _ refl _ refl

  on_command_of-Delivers :
      (user : Option User) (cmd : Command)
      → Holds
          (Delivers (allowed user cmd))
          (on_command_of split is_int to_utf8 (some cb) during now id user cmd clients)
  unfolding on_command_of on_bind on_unbind on_network_error
  on_command_of-Delivers none network_error = refl
  on_command_of-Delivers none (bind b) =
      validate-Delivers b (bind_addresses split is_int to_utf8 (some cb) during b)
  on_command_of-Delivers none unbind = refl
  on_command_of-Delivers none (submit_sm s) = refl
  on_command_of-Delivers none enquire_link = refl
  on_command_of-Delivers none (other r) = refl
  on_command_of-Delivers (some user) network_error = refl
  on_command_of-Delivers (some user) (bind b) = refl
  on_command_of-Delivers (some user) unbind = refl
  on_command_of-Delivers (some user) (submit_sm s) = on_submit-Delivers user s
  on_command_of-Delivers (some user) enquire_link = refl
  on_command_of-Delivers (some user) (other r) = refl

  -- Where the application has set its callbacks, `OnCommand` gives it a message exactly for the
  -- SUBMIT_SM of a bound user that is no receiver and that, unless it is a transmitter, owns the
  -- source address and not the destination.
  pub on_command-delivers :
      (cmd : Command) (o : Outcome)
      → on_command split is_int to_utf8 (some cb) during now id cmd clients ≡ done o
      → delivers o.events ≡ allowed (lookup id clients) cmd
  unfolding on_command
  on_command-delivers cmd o h =
      subst (Holds (Delivers (allowed (lookup id clients) cmd))) h
        (on_command_of-Delivers (lookup id clients) cmd)
