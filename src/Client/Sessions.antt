-- ===== src/Client/Sessions.antt =====
-- A client over time: the operations in any order, and what they keep.
use Prim.Native.String.{String}
use libsmpp.Prelude.{ℕ, ◌≡◌, ◌∙◌, refl, ◌==◌, Bool, Bool-cases, true, false, inl, inr, List, []}
use libsmpp.Codec.CommandStatus
use libsmpp.Converter.Iconv.{Converted}
use libsmpp.Client.Settings.{MessageSettings}
use libsmpp.Client.Link.{Request, Reply, answer, failure, Link, next, reply_of, send_request, close}
use libsmpp.Client.Sending.{encoded, send_message}
use libsmpp.Client.Session.{
  Client, bind_request, reset, set_message_settings, bind_answer, bind_client, unbind_client,
  send_keep_alive, send_client, on_connection_lost,
}
use libsmpp.Client.Sockets.{recorded_open, send_text_open}

-- A bound client has an open socket, and one that is not bound has forgotten the server.
pub record IsSession (c : Client) : Type 0 where
  pub bound_open : c.is_bound ≡ true → c.link.is_open ≡ true
  pub unbound_forgets : c.is_bound ≡ false → c.server_system_id ≡ []

bind_answer-IsSession :
    (c : Client) (t : Reply × Link)
    → c.is_bound ≡ false
    → IsSession c
    → t.1.is_open ≡ true
    → IsSession (bind_answer c t).1
unfolding bind_answer
bind_answer-IsSession c (failure f, link) e s o = record {
  bound_open = λ b. absurd cc;
  unbound_forgets = s.unbound_forgets;
}
bind_answer-IsSession c (answer status id, link) e s o =
    elim (Bool-cases (status == CommandStatus.esme_rok)) [
      | inl ok ↦ rw ok (record { bound_open = λ b. o; unbound_forgets = λ b. absurd cc })
      | inr no_ok ↦
          rw no_ok (record { bound_open = λ b. absurd cc; unbound_forgets = s.unbound_forgets })
    ]

module _ (convert : String → String → List ℕ → Converted) (left : String → List ℕ → List ℕ) where
  -- `login` on a client that is not bound, the other operations at any time, and the loss of the
  -- connection, which `ReadHandler` closes before it calls `OnConnectionLost`.
  pub data Step (c : Client) : Client → Type 0 where
    login :
        (connects : Bool) (fresh : Link)
        → c.is_bound ≡ false
        → Step c (bind_client connects fresh c).1
    logout : Step c (unbind_client c)
    keep_alive : Step c (send_keep_alive c).1
    send : (from to content : List ℕ) → Step c (send_client convert left from to content c).1
    settle : (settings : MessageSettings) → Step c (set_message_settings settings c)
    lost : Step c (on_connection_lost (record c { link = close c.link })).1

  pub data Reach (start : Client) : Client → Type 0 where
    here : Reach start start
    next_step : {c d : Client} → Reach start c → Step c d → Reach start d

  send_message_open :
      (settings : MessageSettings) (from to : List ℕ) (b : Bool) (content : List ℕ) (link : Link)
      → (send_message settings from to convert left b content link).1.is_open ≡ link.is_open
  unfolding send_message
  send_message_open settings from to true content link =
      send_text_open settings from to (encoded settings from to convert left content) link
        link.is_open refl
  send_message_open settings from to false content link = refl

  login-IsSession :
      (connects : Bool) (fresh : Link) (c : Client)
      → c.is_bound ≡ false
      → IsSession c
      → IsSession (bind_client connects fresh c).1
  unfolding bind_client next send_request
  login-IsSession true fresh c e s =
      let l = next (record fresh { is_open = true }) in
      bind_answer-IsSession c
        (send_request (Request.bind c.login_mode l.sequence (bind_request c)) l) e s
        (recorded_open (Request.bind c.login_mode l.sequence (bind_request c)) (reply_of l) l)
  login-IsSession false fresh c e s = record {
    bound_open = λ b. absurd cc;
    unbound_forgets = s.unbound_forgets;
  }

  logout-IsSession : (c : Client) → IsSession c → IsSession (unbind_client c)
  unfolding unbind_client reset
  logout-IsSession c s = elim (Bool-cases c.is_bound) [
    | inl e ↦ simp e (record { bound_open = λ b. absurd cc; unbound_forgets = λ b. refl })
    | inr e ↦ simp e s
  ]

  keep_alive-IsSession : (c : Client) → IsSession c → IsSession (send_keep_alive c).1
  unfolding send_keep_alive send_request next
  keep_alive-IsSession c s =
      let l = next c.link in
      record {
        bound_open =
            λ b. recorded_open (Request.enquire_link l.sequence) (reply_of l) l ∙ s.bound_open b;
        unbound_forgets = s.unbound_forgets;
      }

  send-IsSession :
      (from to content : List ℕ) (c : Client)
      → IsSession c
      → IsSession (send_client convert left from to content c).1
  unfolding send_client
  send-IsSession from to content c s = record {
    bound_open =
        λ b. send_message_open c.settings from to c.is_bound content c.link ∙ s.bound_open b;
    unbound_forgets = s.unbound_forgets;
  }

  lost-IsSession :
      (c : Client)
      → IsSession c
      → IsSession (on_connection_lost (record c { link = close c.link })).1
  unfolding on_connection_lost reset
  lost-IsSession c s = elim (Bool-cases c.is_bound) [
    | inl e ↦ simp e (record { bound_open = λ b. absurd cc; unbound_forgets = λ b. refl })
    | inr e ↦
        simp e (record { bound_open = λ b. absurd cc; unbound_forgets = λ b. s.unbound_forgets e })
  ]

  Step-IsSession : {c d : Client} → Step c d → IsSession c → IsSession d
  unfolding set_message_settings
  Step-IsSession {c} (login connects fresh e) s = login-IsSession connects fresh c e s
  Step-IsSession {c} logout s = logout-IsSession c s
  Step-IsSession {c} keep_alive s = keep_alive-IsSession c s
  Step-IsSession {c} (send from to content) s = send-IsSession from to content c s
  Step-IsSession {c} (settle settings) s = record {
    bound_open = s.bound_open;
    unbound_forgets = s.unbound_forgets;
  }
  Step-IsSession {c} lost s = lost-IsSession c s

  -- Whatever operations a client has gone through since it was made, in any order and with any answers,
  -- it has an open socket while it is bound and no name of a server while it is not, if `Bind` is only
  -- called while it is not bound and a failure to read ends in `OnConnectionLost`.
  pub Reach-IsSession : {start c : Client} → IsSession start → Reach start c → IsSession c
  Reach-IsSession s here = s
  Reach-IsSession s (next_step r st) = Step-IsSession st (Reach-IsSession s r)
