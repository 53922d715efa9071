-- ===== src/Server/Bound.antt =====
-- A server over time, with `KeepAliveThread` and the connections: its bound users and its open connections.
use libsmpp.Prelude.{
  ℕ, ◌≡◌, ◌≢◌, refl, sym, ap, ◌∙◌, subst, inl, inr, ◌==◌, ==_iff, ==→ne, if◌then◌else◌, Bool,
  Bool-cases, true, false, Option, none, some, some_eq, List, [], ◌∷◌,
}
use libsmpp.Users.Address.{Text}
use libsmpp.Users.Clients.{User, Clients, lookup, erase}
use libsmpp.Users.Lookup.{bound, lookup-erase, erase_other}
use libsmpp.Users.Requests.{Callbacks, Command, network_error, Outcome, Run, done, null_callbacks}
use libsmpp.Users.Manager.{on_command, on_command_of, on_network_error}
use libsmpp.Users.States.{on_command_bound, on_command_other}
use libsmpp.Server.State.{
  Server, new_server, start, stop, is_in, on_new_connection, close_connection, handled,
  handled_error, on_new_pdu_handler, on_connection_error,
}
use libsmpp.Server.Serving.{
  IsServed, is_in-cons, stays, new_connection-IsServed, start-IsServed, stop-IsServed,
}

module _ (split : ℕ → Text → List Text) (is_int : Text → Bool) (to_utf8 : ℕ → Text → Text)
    (callbacks : Option Callbacks) where
  abbrev run_of : ℕ → ℕ → Command → Clients → Run
  run_of now id cmd clients =
      on_command split is_int to_utf8 callbacks (λ cs. cs) now id cmd clients

  -- Another connection is bound only if it was.
  other_bound :
      (now id : ℕ) (cmd : Command) (clients : Clients) (o : Outcome)
      → run_of now id cmd clients ≡ done o
      → (k : ℕ) → k ≢ id
      → bound (lookup k o.clients) ≡ true
      → bound (lookup k clients) ≡ true
  other_bound now id cmd clients o e k ne b =
      elim (on_command_other split is_int to_utf8 callbacks (λ cs. cs) now id clients cmd o refl e k
        ne) [ inl p ↦ ap bound (sym p) ∙ b | inr p ↦ ap bound (sym p) ∙ b ]

  bound_kept :
      (now id : ℕ) (cmd : Command) (clients : Clients) (o : Outcome)
      → run_of now id cmd clients ≡ done o
      → bound (lookup id o.clients) ≡ o.keep
  bound_kept now id cmd clients o e =
      on_command_bound split is_int to_utf8 callbacks (λ cs. cs) now id clients cmd o refl e

  kept-IsServed :
      (cut : List ℕ) (keep : Bool) (now id : ℕ) (cmd : Command) (s : Server) (o : Outcome)
      → run_of now id cmd s.clients ≡ done o
      → o.keep ≡ keep
      → is_in id s.connections ≡ true
      → IsServed cut s
      → IsServed cut (
          if keep
          then (record s { clients = o.clients })
          else close_connection id (record s { clients = o.clients }))
  unfolding close_connection
  kept-IsServed cut true now id cmd s o e q there served k b = elim (Bool-cases (k == id)) [
    | inl same ↦
        inl (subst (λ (n : ℕ). is_in n s.connections ≡ true) (sym ((==_iff k id).0 same)) there)
    | inr ne ↦ served k (other_bound now id cmd s.clients o e k (==→ne k id ne) b)
  ]
  kept-IsServed cut false now id cmd s o e q there served k b = elim (Bool-cases (k == id)) [
    | inl same ↦
        let left = bound_kept now id cmd s.clients o e ∙ q in
        let there' =
          subst (λ (n : ℕ). bound (lookup n o.clients) ≡ true) ((==_iff k id).0 same) b in
        absurd (cc (left, there'))
    | inr ne ↦
        stays k id s.connections _ (==→ne k id ne)
          (served k (other_bound now id cmd s.clients o e k (==→ne k id ne) b))
  ]

  handled-IsServed :
      (cut : List ℕ) (now id : ℕ) (cmd : Command) (s t : Server) (r : Run)
      → run_of now id cmd s.clients ≡ r
      → handled id s r ≡ some t
      → is_in id s.connections ≡ true
      → IsServed cut s
      → IsServed cut t
  unfolding handled
  handled-IsServed cut now id cmd s t null_callbacks e h there served = absurd cc
  handled-IsServed cut now id cmd s t (done o) e h there served =
      subst (IsServed cut) (some_eq h) (kept-IsServed cut o.keep now id cmd s o e refl there served)

  -- After a network error the connection is not bound.
  keep_of : Run → Bool
  keep_of (done o) = o.keep
  keep_of null_callbacks = false

  network_error_keeps :
      (cb : Option Callbacks) (id : ℕ) (user : Option User) (clients : Clients) (o : Outcome)
      → on_network_error split is_int to_utf8 cb (λ cs. cs) id user clients ≡ done o
      → o.keep ≡ false
  unfolding on_network_error keep_of
  network_error_keeps cb id none clients o h = sym (ap keep_of h)
  network_error_keeps none id (some user) clients o h = absurd cc
  network_error_keeps (some cb) id (some user) clients o h = sym (ap keep_of h)

  network_error_leaves :
      (now id : ℕ) (clients : Clients) (o : Outcome)
      → run_of now id network_error clients ≡ done o
      → bound (lookup id o.clients) ≡ false
  unfolding on_command on_command_of
  network_error_leaves now id clients o e =
      bound_kept now id network_error clients o e
      ∙ network_error_keeps callbacks id (lookup id clients) clients o e

  error-IsServed :
      (cut : List ℕ) (now id : ℕ) (s t : Server) (r : Run)
      → run_of now id network_error s.clients ≡ r
      → handled_error (close_connection id s) r ≡ some t
      → IsServed cut s
      → IsServed cut t
  unfolding handled_error close_connection
  error-IsServed cut now id s t null_callbacks e h served = absurd cc
  error-IsServed cut now id s t (done o) e h served = subst (IsServed cut) (some_eq h) (λ k b.
      elim (Bool-cases (k == id)) [
        | inl same ↦
            let there =
              subst (λ (n : ℕ). bound (lookup n o.clients) ≡ true) ((==_iff k id).0 same) b in
            absurd (cc (network_error_leaves now id s.clients o e, there))
        | inr ne ↦
            stays k id s.connections _ (==→ne k id ne)
              (served k (other_bound now id network_error s.clients o e k (==→ne k id ne) b))
      ])

  -- `Start`, `Stop` and the handlers, each one from beginning to end; a PDU comes on an open connection.
  -- `cut_off` is the branch of `ReadHandler` for a PDU that cannot be read, and the first half of what
  -- `KeepAliveThread` does where an ENQUIRE_LINK fails: the connection is closed and nobody is told.
  -- `forgotten` is the second half. The list has the connections that were closed in this way.
  pub data Step (cut : List ℕ) (s : Server) : List ℕ → Server → Type 0 where
    started :
        (can_open can_listen : Bool) (n : ℕ) → Step cut s cut (start can_open can_listen n s).1
    stopped : Step cut s cut (stop s)
    connected : (error : Bool) (id : ℕ) → Step cut s cut (on_new_connection error id s)
    requested :
        (now id : ℕ) (cmd : Command) (t : Server)
        → is_in id s.connections ≡ true
        → on_new_pdu_handler split is_int to_utf8 callbacks now id cmd s ≡ some t
        → Step cut s cut t
    lost :
        (now id : ℕ) (t : Server)
        → on_connection_error split is_int to_utf8 callbacks now id s ≡ some t
        → Step cut s cut t
    cut_off : (id : ℕ) → Step cut s (id ∷ cut) (close_connection id s)
    forgotten : (id : ℕ) → Step cut s cut (record s { clients = erase id s.clients })

  pub data Reach : List ℕ → Server → Type 0 where
    here : Reach [] new_server
    later : {cut cut' : List ℕ} {s t : Server} → Reach cut s → Step cut s cut' t → Reach cut' t

  cut_off-IsServed :
      (cut : List ℕ) (id : ℕ) (s : Server)
      → IsServed cut s
      → IsServed (id ∷ cut) (close_connection id s)
  unfolding close_connection is_in
  cut_off-IsServed cut id s h k b = elim (Bool-cases (k == id)) [
    | inl same ↦ inr (rw same refl)
    | inr ne ↦ elim (stays k id s.connections cut (==→ne k id ne) (h k b)) [
      | inl there ↦ inl there
      | inr gone ↦ inr (is_in-cons k id cut gone)
    ]
  ]

  forgotten-IsServed :
      (cut : List ℕ) (id : ℕ) (s : Server)
      → IsServed cut s
      → IsServed cut (record s { clients = erase id s.clients })
  forgotten-IsServed cut id s h k b = elim (Bool-cases (k == id)) [
    | inl same ↦
        let e = ap (λ (n : ℕ). lookup n (erase id s.clients)) ((==_iff k id).0 same) in
        absurd (cc (ap bound (e ∙ lookup-erase id s.clients), b))
    | inr ne ↦ h k (ap bound (sym (erase_other id k (==→ne k id ne) s.clients)) ∙ b)
  ]

  Step-IsServed :
      {cut cut' : List ℕ} {s t : Server} → Step cut s cut' t → IsServed cut s → IsServed cut' t
  unfolding on_new_pdu_handler on_connection_error close_connection
  Step-IsServed {cut} {s = s} (started can_open can_listen n) h =
      start-IsServed cut can_open can_listen n s h
  Step-IsServed {cut} {s = s} stopped h = stop-IsServed cut s h
  Step-IsServed {cut} {s = s} (connected error id) h = new_connection-IsServed cut error id s h
  Step-IsServed {cut} {s = s} (requested now id cmd t there e) h =
      handled-IsServed cut now id cmd s t (run_of now id cmd s.clients) refl e there h
  Step-IsServed {cut} {s = s} (lost now id t e) h =
      error-IsServed cut now id s t (run_of now id network_error s.clients) refl e h
  Step-IsServed {cut} {s = s} (cut_off id) h = cut_off-IsServed cut id s h
  Step-IsServed {cut} {s = s} (forgotten id) h = forgotten-IsServed cut id s h

  new_server-IsServed : IsServed [] new_server
  unfolding new_server lookup
  new_server-IsServed k b = absurd cc

  -- At every time in the life of a server whose handlers run one after the other, the connection of
  -- every bound user is open, unless it was closed without an event: by `ReadHandler` for a PDU that
  -- it could not read, or by `KeepAliveThread`.
  pub Reach-IsServed : {cut : List ℕ} {s : Server} → Reach cut s → IsServed cut s
  Reach-IsServed here = new_server-IsServed
  Reach-IsServed (later r st) = Step-IsServed st (Reach-IsServed r)
