-- ===== src/Connection/Closed.antt =====
-- What `Close` does to the requests that wait.
use libsmpp.Prelude.{ℕ, ◌≡◌, ◌⊎◌, Bool, true, false, Option, none, some, [], get_elem?}
use libsmpp.Connection.Pending.{Result, timeout, Call, Pending, Conn, result_of}

-- A result that needs no notification: none yet, RESULT_TIMEOUT, or what `SendRequest` makes of the
-- status it began with where its wait returns spuriously.
abbrev pub IsLate : Call → Option Result → Type 0
IsLate call outcome =
    (outcome ≡ none)
    ⊎ (outcome ≡ some timeout)
    ⊎ ((error : Bool) × (outcome ≡ some (result_of false error call.status)))

-- A closed connection, with a call that is as it was but for such a result.
pub record IsStranded (id : ℕ) (call : Call) (c : Conn) : Type 0 where
  pub requested : c.close_requested ≡ true
  pub shut : c.is_open ≡ false
  pub forgotten : c.pending ≡ []
  pub outcome : Option Result
  pub there : get_elem? c.calls id ≡ some (record call { outcome = outcome })
  pub late : IsLate call outcome
