-- ===== src/Users/Effects.antt =====
-- The effect of `OnCommand`, case by case: on the entry of its connection, on the other entries, and
-- on what is answered.
use libsmpp.Prelude.{
  ℕ, suc, ◌≡◌, ◌≢◌, ◌⊎◌, refl, ap, ◌∙◌, if◌then◌else◌, Bool, true, false, not, inl, inr, Option,
  none, some, List, [], ◌∷◌,
}
use libsmpp.Users.Address.{Text, UserAddress, owns_address}
use libsmpp.Users.Clients.{User, Clients, lookup, erase}
use libsmpp.Users.Lookup.{
  bound, lookup-insert, lookup-erase, lookup-modify, insert_other, erase_other, modify_other,
}
use libsmpp.Users.Requests.{
  Bind, Submit, Command, network_error, bind, unbind, submit_sm, enquire_link, other, LoginResult,
  login_ok, login_fail, login_inval_addr, login_inval_pwd, login_inval_usr, login_inval_cmd,
  Callbacks, Event, response, nack, delivered, disconnected, Outcome, Run, done, null_callbacks,
}
use libsmpp.Users.Manager.{
  is_receiver, is_transmitter, bind_addresses, validate, finish_bind, on_bind, deliver, on_submit,
  on_unbind, on_network_error, on_command_of, on_command,
}

-- A property of what `OnCommand` does, where it does not end the process.
abbrev pub Holds : (Outcome → Type 0) → Run → Type 0
Holds P (done o) = P o
Holds P null_callbacks = Unit

if-Holds :
    (P : Outcome → Type 0) (b : Bool) (r q : Run)
    → Holds P r
    → Holds P q
    → Holds P (if b then r else q)
if-Holds P true r q h k = h
if-Holds P false r q h k = k

-- The responses among the effects.
abbrev pub replies : List Event → ℕ
replies [] = 0
replies (response status ∷ es) = suc (replies es)
replies (nack status ∷ es) = suc (replies es)
replies (delivered source destination text ∷ es) = replies es
replies (disconnected system_id reason ∷ es) = replies es

-- A null command is not answered, every other one once.
abbrev pub expected_replies : Command → ℕ
expected_replies network_error = 0
expected_replies (bind b) = 1
expected_replies unbind = 1
expected_replies (submit_sm s) = 1
expected_replies enquire_link = 1
expected_replies (other r) = 1

module _ (split : ℕ → Text → List Text) (is_int : Text → Bool) (to_utf8 : ℕ → Text → Text)
    (callbacks : Option Callbacks) (during : Clients → Clients) (now id : ℕ)
    (clients : Clients) where
  -- What `lookup` finds for another connection is as before the request, or as the other threads
  -- left it.
  abbrev pub Kept : Clients → Type 0
  Kept cs =
      (j : ℕ)
      → j ≢ id
      → (lookup j cs ≡ lookup j clients) ⊎ (lookup j cs ≡ lookup j (during clients))

  -- The connection is bound exactly when the result is `true`, the others are kept, and there are
  -- `n` responses.
  abbrev pub Effect : ℕ → Outcome → Type 0
  Effect n o = (bound (lookup id o.clients) ≡ o.keep) × Kept o.clients × (replies o.events ≡ n)

  same : Kept clients
  same j apart = inl refl

  finish_bind-Effect :
      (b : Bind) (addresses : List UserAddress) (res : LoginResult)
      → lookup id (during clients) ≡ none
      → Holds
          (Effect 1)
          (finish_bind split is_int to_utf8 callbacks during id b addresses res (during clients))
  unfolding finish_bind
  finish_bind-Effect b addresses login_ok h = (
    ap bound (lookup-insert id _ (during clients) h),
    (λ j apart. inr (insert_other id j apart _ (during clients))),
    refl,
  )
  finish_bind-Effect b addresses login_fail h = (ap bound h, (λ j apart. inr refl), refl)
  finish_bind-Effect b addresses login_inval_addr h = (ap bound h, (λ j apart. inr refl), refl)
  finish_bind-Effect b addresses login_inval_pwd h = (ap bound h, (λ j apart. inr refl), refl)
  finish_bind-Effect b addresses login_inval_usr h = (ap bound h, (λ j apart. inr refl), refl)
  finish_bind-Effect b addresses login_inval_cmd h = (ap bound h, (λ j apart. inr refl), refl)

  validate-Effect :
      (b : Bind) (cb : Callbacks) (addresses : Option (List UserAddress))
      → lookup id clients ≡ none
      → lookup id (during clients) ≡ none
      → Holds (Effect 1) (validate split is_int to_utf8 callbacks during id b cb addresses clients)
  unfolding validate
  validate-Effect b cb none free still = (ap bound free, same, refl)
  validate-Effect b cb (some addresses) free still =
      finish_bind-Effect b addresses
        (cb.validate_user id b.mode b.system_id b.password b.address_range) still

  on_bind-Effect :
      (b : Bind)
      → lookup id clients ≡ none
      → lookup id (during clients) ≡ none
      → Holds (Effect 1) (on_bind split is_int to_utf8 callbacks during id b clients)
  unfolding on_bind validate finish_bind
  on_bind-Effect b free still =
      elim callbacks
        as (λ c. Holds (Effect 1) (on_bind split is_int to_utf8 c during id b clients)) [
          | none ↦ (ap bound free, same, refl)
          | some cb ↦
              validate-Effect b cb (bind_addresses split is_int to_utf8 (some cb) during b) free
                still
        ]

  deliver-Effect :
      (s : Submit)
      → bound (lookup id clients) ≡ true
      → Holds (Effect 1) (deliver split is_int to_utf8 callbacks during id s clients)
  unfolding deliver
  deliver-Effect s here =
      elim callbacks
        as (λ c. Holds (Effect 1) (deliver split is_int to_utf8 c during id s clients)) [
          | none ↦ (here, same, refl)
          | some cb ↦ (here, same, refl)
        ]

  on_submit-Effect :
      (user : User) (s : Option Submit)
      → bound (lookup id clients) ≡ true
      → Holds (Effect 1) (on_submit split is_int to_utf8 callbacks during id user s clients)
  unfolding on_submit
  on_submit-Effect user none here = (here, same, refl)
  on_submit-Effect user (some s) here =
      if-Holds (Effect 1) (is_receiver user.bind_mode) _ _ (here, same, refl)
        (if-Holds (Effect 1) (is_transmitter user.bind_mode) _ _ (deliver-Effect s here) (
          if-Holds (Effect 1) (not (owns_address user.addresses s.source)) _ _ (here, same, refl)
            (if-Holds (Effect 1) (owns_address user.addresses s.destination) _ _ (here, same, refl)
              (deliver-Effect s here))))

  on_unbind-Effect :
      (user : User)
      → Holds (Effect 1) (on_unbind split is_int to_utf8 callbacks during id user clients)
  unfolding on_unbind
  on_unbind-Effect user =
      let gone = ap bound (lookup-erase id clients) in
      let others : Kept (erase id clients) = λ j apart. inl (erase_other id j apart clients) in
      elim callbacks
        as (λ c. Holds (Effect 1) (on_unbind split is_int to_utf8 c during id user clients)) [
          | none ↦ (gone, others, refl)
          | some cb ↦ (gone, others, refl)
        ]

  on_network_error-Effect :
      (user : Option User)
      → lookup id clients ≡ user
      → Holds (Effect 0) (on_network_error split is_int to_utf8 callbacks during id user clients)
  unfolding on_network_error
  on_network_error-Effect none e = (ap bound e, same, refl)
  on_network_error-Effect (some user) e =
      elim callbacks
        as (λ c.
          Holds (Effect 0)
            (on_network_error split is_int to_utf8 c during id (some user) clients)) [
              | none ↦ tt
              | some cb ↦ (
                ap bound (lookup-erase id clients),
                (λ j apart. inl (erase_other id j apart clients)),
                refl,
              )
            ]

  on_command_of-Effect :
      (user : Option User) (cmd : Command)
      → lookup id clients ≡ user
      → lookup id (during clients) ≡ user
      → Holds
          (Effect (expected_replies cmd))
          (on_command_of split is_int to_utf8 callbacks during now id user cmd clients)
  unfolding on_command_of
  on_command_of-Effect user network_error e f = on_network_error-Effect user e
  on_command_of-Effect none (bind b) e f = on_bind-Effect b e f
  on_command_of-Effect none unbind e f = (ap bound e, same, refl)
  on_command_of-Effect none (submit_sm s) e f = (ap bound e, same, refl)
  on_command_of-Effect none enquire_link e f = (ap bound e, same, refl)
  on_command_of-Effect none (other r) e f = (ap bound e, same, refl)
  on_command_of-Effect (some user) (bind b) e f = (ap bound e, same, refl)
  on_command_of-Effect (some user) unbind e f = on_unbind-Effect user
  on_command_of-Effect (some user) (submit_sm s) e f = on_submit-Effect user s (ap bound e)
  on_command_of-Effect (some user) enquire_link e f = (
    lookup-modify id _ clients ∙ ap bound e,
    (λ j apart. inl (modify_other id j apart _ clients)),
    refl,
  )
  on_command_of-Effect (some user) (other r) e f = (ap bound e, same, refl)

  pub on_command-Effect :
      (cmd : Command)
      → lookup id (during clients) ≡ lookup id clients
      → Holds
          (Effect (expected_replies cmd))
          (on_command split is_int to_utf8 callbacks during now id cmd clients)
  unfolding on_command
  on_command-Effect cmd still = on_command_of-Effect (lookup id clients) cmd refl still
