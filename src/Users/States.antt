-- ===== src/Users/States.antt =====
-- What `OnCommand` makes of `m_clients` and what it answers.
use libsmpp.Prelude.{ℕ, ◌≡◌, ◌≢◌, ◌⊎◌, subst, Bool, Option, List}
use libsmpp.Users.Address.{Text}
use libsmpp.Users.Clients.{Clients, lookup}
use libsmpp.Users.Lookup.{bound}
use libsmpp.Users.Requests.{Command, Callbacks, Outcome, done}
use libsmpp.Users.Manager.{on_command}
use libsmpp.Users.Effects.{Holds, replies, expected_replies, Effect, on_command-Effect}

module _ (split : ℕ → Text → List Text) (is_int : Text → Bool) (to_utf8 : ℕ → Text → Text)
    (callbacks : Option Callbacks) (during : Clients → Clients) (now id : ℕ) (clients : Clients)
    (cmd : Command) (o : Outcome) (still : lookup id (during clients) ≡ lookup id clients)
    (h : on_command split is_int to_utf8 callbacks during now id cmd clients ≡ done o) where
  effect : Effect split is_int to_utf8 callbacks during now id clients (expected_replies cmd) o
  effect =
      subst
        (Holds (Effect split is_int to_utf8 callbacks during now id clients (expected_replies cmd)))
        h (on_command-Effect split is_int to_utf8 callbacks during now id clients cmd still)

  -- After a request that does not end the process, the connection is bound exactly when the result
  -- is `true`, where no other thread changes its entry while `ValidateUser` runs.
  pub on_command_bound : bound (lookup id o.clients) ≡ o.keep
  on_command_bound = effect.0

  -- After a request that does not end the process, the entry of another connection is as before, or as
  -- other threads left it while `ValidateUser` ran, where they do not change the connection's own.
  pub on_command_other :
      (j : ℕ)
      → j ≢ id
      → (lookup j o.clients ≡ lookup j clients) ⊎ (lookup j o.clients ≡ lookup j (during clients))
  on_command_other = effect.1

  -- Unless it ends the process, a request is answered once and a network error not at all, where no
  -- other thread changes the connection's entry while `ValidateUser` runs.
  pub on_command_replies : replies o.events ≡ expected_replies cmd
  on_command_replies = effect.2
