-- ===== src/Connection/NetworkError.antt =====
-- What a network error does to the requests that wait.
use libsmpp.Prelude.{
  ℕ, ◌≡◌, refl, ap, ◌∙◌, inl, inr, ◌==◌, ==_iff, if-cases, Bool, Bool-cases, true, false, Option,
  none, some, some_eq, List, [], ◌∷◌, get_elem?,
}
use libsmpp.Connection.Pending.{
  Call, invresp, Pending, find, Conn, new_conn, finish, wake_call, wake, close, notified,
  notify_all, on_error, update,
}
use libsmpp.Connection.Calls.{get_elem?-update}
use libsmpp.Connection.Registered.{Reach, Reach-IsRegistered, new_conn-IsRegistered}

-- A call that was notified of an error stays so.
still_notified :
    (m : Pending) (cs : List Call) (id : ℕ) (call : Call)
    → get_elem? cs id ≡ some (notified none call)
    → get_elem? (notify_all m cs) id ≡ some (notified none call)
unfolding notify_all notified
still_notified [] cs id call h = h
still_notified ((k, v) ∷ m) cs id call h = still_notified m (update v (notified none) cs) id call (
    get_elem?-update v id (notified none) cs
    ∙ (elim (Bool-cases (v == id)) [ inl e ↦ rw (e, h) refl | inr e ↦ rw e h ]))

-- Every call in the map is notified.
notify_all-find :
    (m : Pending) (cs : List Call) (seq id : ℕ) (call : Call)
    → find seq m ≡ some id
    → get_elem? cs id ≡ some call
    → get_elem? (notify_all m cs) id ≡ some (notified none call)
unfolding notify_all find
notify_all-find [] cs seq id call h at = absurd cc
notify_all-find ((k, v) ∷ m) cs seq id call h at =
    let law = get_elem?-update v id (notified none) cs in
    elim (if-cases (seq == k) (some v) (find seq m) (some id) h) [
      | inl p ↦
          let same = (==_iff v id).1 (some_eq p.1) in
          still_notified m (update v (notified none) cs) id call (law ∙ rw (same, at) refl)
      | inr p ↦ elim (Bool-cases (v == id)) [
        | inl e ↦ still_notified m (update v (notified none) cs) id call (law ∙ rw (e, at) refl)
        | inr e ↦
            notify_all-find m (update v (notified none) cs) seq id call p.1 (law ∙ rw (e, at) refl)
      ]
    ]

on_error-open :
    (c : Conn)
    → c.close_requested ≡ false
    → ((on_error c).calls ≡ notify_all c.pending c.calls) × ((on_error c).connection_error ≡ false)
unfolding on_error close
on_error-open c e = simp e (refl, refl)

wake_notified :
    (c : Conn) (id : ℕ) (call : Call)
    → c.connection_error ≡ false
    → get_elem? c.calls id ≡ some (notified none call)
    → get_elem? (wake false id c).calls id
      ≡ some (record call { status = none; notified = true; outcome = some invresp })
unfolding wake wake_call finish notified
wake_notified c id call e at =
    let f = finish false c.connection_error in
    ap (λ (o : Option Call). get_elem? (wake_call false id o c).calls id) at
    ∙ get_elem?-update id id f c.calls
    ∙ rw ((==_iff id id).1 refl, at)
        (ap (λ (b : Bool). some (finish false b (notified none call))) e)

-- On every connection that was not closed, a network error ends every call of `SendRequest` that
-- waits: its thread is notified, and goes on with RESULT_INVRESP. Sequence numbers are not used again
-- while a call waits for them.
pub on_error-wake :
    {c : Conn} (id : ℕ) (call : Call)
    → Reach new_conn c
    → c.close_requested ≡ false
    → get_elem? c.calls id ≡ some call
    → call.outcome ≡ none
    → get_elem? (wake false id (on_error c)).calls id
      ≡ some (record call { status = none; notified = true; outcome = some invresp })
on_error-wake {c} id call r e at waits =
    let o = on_error-open c e in
    let reg = Reach-IsRegistered new_conn-IsRegistered r e id call at waits in
    wake_notified (on_error c) id call o.1 (
      ap (λ (cs : List Call). get_elem? cs id) o.0
      ∙ notify_all-find c.pending c.calls call.sequence id call reg at)
