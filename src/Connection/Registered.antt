-- ===== src/Connection/Registered.antt =====
-- A connection over time, and the requests that wait on it.
use libsmpp.Prelude.{
  ℕ, ◌≡◌, refl, sym, ap, if-cases, ◌∙◌, subst, inl, inr, ◌==◌, ==_iff, Bool, Bool-cases, true,
  false, Option, none, some, some_eq, length, get_elem?,
}
use libsmpp.Connection.Pending.{
  Result, Call, find, Conn, begin_request, finish, wake_call, wake, close, notified, on_error,
  respond, on_response, spoil, on_exception, new_conn, update,
}
use libsmpp.Connection.Calls.{find-assign, find-remove, get_elem?-append, get_elem?-update_cases}

-- What can happen to a connection. A call is made with a sequence number that no waiting call has, and
-- waits only if the socket is open. Its wait returns when it was notified, or spuriously before that, or
-- when its time is up.
pub data Step (c : Conn) : Conn → Type 0 where
  begin :
      (seq : ℕ) (r : Option Result)
      → find seq c.pending ≡ none
      → (r ≡ none → c.is_open ≡ true)
      → Step c (begin_request seq r c)
  received : (seq : ℕ) (status : Option ℕ) → Step c (on_response seq status c)
  woken :
      (id : ℕ) (call : Call)
      → get_elem? c.calls id ≡ some call
      → call.outcome ≡ none
      → Step c (wake false id c)
  expired :
      (id : ℕ) (call : Call)
      → get_elem? c.calls id ≡ some call
      → call.outcome ≡ none
      → Step c (wake true id c)
  closed : Step c (close c)
  broken : Step c (on_error c)
  thrown : (response : Option ℕ) (d : Conn) → on_exception response c ≡ some d → Step c d

pub data Reach (start : Conn) : Conn → Type 0 where
  here : Reach start start
  later : {c d : Conn} → Reach start c → Step c d → Reach start d

-- Until the connection is closed, the map leads from the sequence number of every waiting call to it.
abbrev pub IsRegistered : Conn → Type 0
IsRegistered c =
    c.close_requested ≡ false
    → (id : ℕ) (call : Call) → get_elem? c.calls id ≡ some call
    → call.outcome ≡ none
    → find call.sequence c.pending ≡ some id

begin-IsRegistered :
    (seq : ℕ) (r : Option Result) (c : Conn)
    → find seq c.pending ≡ none
    → IsRegistered c
    → IsRegistered (begin_request seq r c)
unfolding begin_request
begin-IsRegistered seq (some r) c fresh reg is_open id call at waits =
    elim (get_elem?-append c.calls _ call id at) [
      | inl p ↦ reg is_open id call p waits
      | inr p ↦ absurd (cc (p.1, waits))
    ]
begin-IsRegistered seq none c fresh reg is_open id call at waits =
    elim (get_elem?-append c.calls _ call id at) [
      | inl p ↦ elim (Bool-cases (call.sequence == seq)) [
        | inl e ↦
            let old = reg is_open id call p waits in
            let same = (==_iff call.sequence seq).0 e in absurd (cc (old, same, fresh))
        | inr e ↦
            rw (find-assign call.sequence seq (length c.calls) c.pending, e)
              (reg is_open id call p waits)
      ]
      | inr p ↦
          let same : call.sequence ≡ seq = ap (λ (x : Call). x.sequence) p.1 in
          rw
            (
              find-assign call.sequence seq (length c.calls) c.pending,
              (==_iff call.sequence seq).1 same,
              p.0,
            )
            refl
    ]

-- A notified call keeps its number and goes on waiting.
updated-IsRegistered :
    (status : Option ℕ) (i : ℕ) (c : Conn)
    → IsRegistered c
    → IsRegistered (record c { calls = update i (notified status) c.calls })
unfolding notified
updated-IsRegistered status i c reg is_open id call at waits =
    let r = get_elem?-update_cases i id (notified status) c.calls call at in
    elim r.2 [
      | inl p ↦ reg is_open id call (r.1 ∙ ap (λ (x : Call). some x) (sym p.1)) waits
      | inr p ↦
          ap (λ (x : Call). find x.sequence c.pending) p.1
          ∙ reg is_open id r.0 r.1 (ap (λ (x : Call). x.outcome) (sym p.1) ∙ waits)
    ]

wake-IsRegistered :
    (timed_out : Bool) (i : ℕ) (old : Call) (c : Conn)
    → get_elem? c.calls i ≡ some old
    → old.outcome ≡ none
    → IsRegistered c
    → IsRegistered (wake_call timed_out i (some old) c)
unfolding wake_call finish
wake-IsRegistered timed_out i old c at_old old_waits reg is_open id call at waits =
    let r = get_elem?-update_cases i id (finish timed_out c.connection_error) c.calls call at in
    elim r.2 [
      | inl p ↦
          let there = r.1 ∙ ap (λ (x : Call). some x) (sym p.1) in
          let mine = reg is_open id call there waits in
          let its = reg is_open i old at_old old_waits in
          elim (Bool-cases (call.sequence == old.sequence)) [
            | inl e ↦
                let same = (==_iff call.sequence old.sequence).0 e in
                absurd
                  (p.0 (some_eq (sym its ∙ ap (λ (n : ℕ). find n c.pending) (sym same) ∙ mine)))
            | inr e ↦ rw (find-remove call.sequence old.sequence c.pending, e) mine
          ]
      | inr p ↦ absurd (cc (p.1, waits))
    ]

pub close_requests : (c : Conn) → (close c).close_requested ≡ true
unfolding close
close_requests c = elim (Bool-cases c.close_requested) [ inl e ↦ simp e refl | inr e ↦ simp e refl ]

pub on_error_requests : (c : Conn) → (on_error c).close_requested ≡ true
unfolding on_error
on_error_requests c = elim (Bool-cases c.close_requested) [
  | inl e ↦ simp e refl
  | inr e ↦ simp e (close_requests _)
]

-- A closed connection claims nothing.
closed-IsRegistered : (c : Conn) → c.close_requested ≡ true → IsRegistered c
closed-IsRegistered c e is_open = absurd (cc (e, is_open))

received-IsRegistered :
    (status o : Option ℕ) (c : Conn) → IsRegistered c → IsRegistered (respond status o c)
unfolding respond
received-IsRegistered status none c reg = reg
received-IsRegistered status (some id) c reg = updated-IsRegistered status id c reg

woken-IsRegistered :
    (timed_out : Bool) (id : ℕ) (call : Call) (c : Conn)
    → get_elem? c.calls id ≡ some call
    → call.outcome ≡ none
    → IsRegistered c
    → IsRegistered (wake timed_out id c)
unfolding wake
woken-IsRegistered timed_out id call c at waits reg =
    subst (λ (o : Option Call). IsRegistered (wake_call timed_out id o c)) (sym at)
      (wake-IsRegistered timed_out id call c at waits reg)

spoil-IsRegistered : (o : Option ℕ) (c d : Conn) → spoil o c ≡ some d → IsRegistered d
unfolding spoil
spoil-IsRegistered none c d h = absurd cc
spoil-IsRegistered (some id) c d h =
    closed-IsRegistered d
      (ap (λ (x : Conn). x.close_requested) (sym (some_eq h)) ∙ close_requests _)

thrown-IsRegistered :
    (response : Option ℕ) (c d : Conn)
    → on_exception response c ≡ some d
    → IsRegistered c
    → IsRegistered d
unfolding on_exception
thrown-IsRegistered none c d h reg =
    closed-IsRegistered d
      (ap (λ (x : Conn). x.close_requested) (sym (some_eq h)) ∙ close_requests c)
thrown-IsRegistered (some seq) c d h reg =
    elim (if-cases c.close_requested (some c) (spoil (find seq c.pending) c) (some d) h) [
      | inl p ↦ subst IsRegistered (some_eq p.1) reg
      | inr p ↦ spoil-IsRegistered (find seq c.pending) c d p.1
    ]

Step-IsRegistered : {c d : Conn} → Step c d → IsRegistered c → IsRegistered d
unfolding on_response
Step-IsRegistered {c} (begin seq r fresh up) reg = begin-IsRegistered seq r c fresh reg
Step-IsRegistered {c} (received seq status) reg =
    received-IsRegistered status (find seq c.pending) c reg
Step-IsRegistered {c} (woken id call at waits) reg = woken-IsRegistered false id call c at waits reg
Step-IsRegistered {c} (expired id call at waits) reg =
    woken-IsRegistered true id call c at waits reg
Step-IsRegistered {c} closed reg = closed-IsRegistered (close c) (close_requests c)
Step-IsRegistered {c} broken reg = closed-IsRegistered (on_error c) (on_error_requests c)
Step-IsRegistered {c} (thrown response d h) reg = thrown-IsRegistered response c d h reg

pub Reach-IsRegistered : {start c : Conn} → IsRegistered start → Reach start c → IsRegistered c
Reach-IsRegistered reg here = reg
Reach-IsRegistered reg (later r st) = Step-IsRegistered st (Reach-IsRegistered reg r)

pub new_conn-IsRegistered : IsRegistered new_conn
unfolding new_conn
new_conn-IsRegistered is_open id call at waits = absurd cc
