-- ===== src/Users/KeepAlive.antt =====
-- One round of `CSMPPUserManager::KeepAliveThread`.
use libsmpp.Prelude.{
  ℕ, ◌+◌, ◌<◌, ◌≤◌, ◌⊎◌, true, false, ltb→lt, ltb→ge, arith, ◌≡◌, ◌≢◌, ◌==◌, ==_iff, ==→ne, subst,
  refl, sym, ap, ◌∙◌, ltb, if◌then◌else◌, Bool, not, ◌&&◌, Bool-cases, inl, inr, Option, none, some,
  [], ◌∷◌, All,
}
use libsmpp.Codec.CommandStatus
use libsmpp.Connection.Pending.{Result, ok, timeout, neterror, invresp, syserror}
use libsmpp.Users.Clients.{User, Clients, lookup, erase, modify}
use libsmpp.Users.Lookup.{
  lookup-erase, lookup_first, lookup_behind, lookup-modify-some, erase_other, modify_other,
}

-- What `SendRequest` of an ENQUIRE_LINK gives: an exception, or its result and the `command_status`,
-- which is ESME_ROK where no response came.
pub data Ping : Type 0 where
  threw : Ping
  pinged : Result → ℕ → Ping

unfoldable pub is_lenient : Result → Bool
is_lenient ok = true
is_lenient syserror = true
is_lenient timeout = false
is_lenient neterror = false
is_lenient invresp = false

unfoldable pub alive : Result → ℕ → Bool
alive res status = is_lenient res && status == CommandStatus.esme_rok

-- The user was heard of less than KEEP_ALIVE_TIMEOUT seconds ago.
unfoldable pub is_fresh : ℕ → User → Bool
is_fresh now u = not (u.last_keep_alive == 0) && ltb now (u.last_keep_alive + 50)

abbrev touch : ℕ → User → User
touch now u = record {
  connection = u.connection;
  bind_mode = u.bind_mode;
  system_id = u.system_id;
  addresses = u.addresses;
  last_keep_alive = now;
}

-- The keys of a map.
abbrev pub AreDistinct : Clients → Type 0
AreDistinct [] = Unit
AreDistinct ((k, u) ∷ cs) = All (λ c. k ≢ c.0) cs × AreDistinct cs

module _ (now : ℕ) (ping : ℕ → Ping) where
  -- The effect of an answer on `m_clients`, which the key of the user's connection stands in.
  unfoldable pub after_ping : ℕ → Ping → Clients → Clients
  after_ping id threw clients = clients
  after_ping id (pinged res status) clients =
      if alive res status then modify id (touch now) clients else erase id clients

  unfoldable pub keep_alive_user : ℕ → User → Clients → Clients
  keep_alive_user id u clients = if is_fresh now u then clients else after_ping id (ping id) clients

  -- The loop over the copy of the users.
  unfoldable pub keep_alive_round : Clients → Clients → Clients
  keep_alive_round [] clients = clients
  keep_alive_round ((id, u) ∷ users) clients = keep_alive_round users (keep_alive_user id u clients)

  -- What a round makes of an entry.
  abbrev pub after_answer : Ping → User → Option User
  after_answer threw u = some u
  after_answer (pinged res status) u = if alive res status then some (touch now u) else none

  abbrev pub after_round : ℕ → Option User → Option User
  after_round id none = none
  after_round id (some u) = if is_fresh now u then some u else after_answer (ping id) u

  after_ping-other :
      (id j : ℕ) (p : Ping) (clients : Clients)
      → j ≢ id
      → lookup j (after_ping id p clients) ≡ lookup j clients
  unfolding after_ping
  after_ping-other id j threw clients apart = refl
  after_ping-other id j (pinged res status) clients apart = elim (Bool-cases (alive res status)) [
    | inl e ↦ rw e (modify_other id j apart (touch now) clients)
    | inr e ↦ rw e (erase_other id j apart clients)
  ]

  keep_alive_user-other :
      (id j : ℕ) (u : User) (clients : Clients)
      → j ≢ id
      → lookup j (keep_alive_user id u clients) ≡ lookup j clients
  unfolding keep_alive_user
  keep_alive_user-other id j u clients apart = elim (Bool-cases (is_fresh now u)) [
    | inl e ↦ rw e refl
    | inr e ↦ rw e (after_ping-other id j (ping id) clients apart)
  ]

  -- The users that a round does not visit.
  keep_alive_round-other :
      (j : ℕ) (users clients : Clients)
      → All (λ c. j ≢ c.0) users
      → lookup j (keep_alive_round users clients) ≡ lookup j clients
  unfolding keep_alive_round
  keep_alive_round-other j [] clients apart = refl
  keep_alive_round-other j ((id, u) ∷ users) clients apart =
      keep_alive_round-other j users (keep_alive_user id u clients) apart.1
      ∙ keep_alive_user-other id j u clients apart.0

  after_ping_same :
      (id : ℕ) (p : Ping) (u : User) (clients : Clients)
      → lookup id clients ≡ some u
      → lookup id (after_ping id p clients) ≡ after_answer p u
  unfolding after_ping
  after_ping_same id threw u clients h = h
  after_ping_same id (pinged res status) u clients h = elim (Bool-cases (alive res status)) [
    | inl e ↦ rw e (lookup-modify-some id (touch now) u clients h)
    | inr e ↦ rw e (lookup-erase id clients)
  ]

  keep_alive_user_same :
      (id : ℕ) (u : User) (clients : Clients)
      → lookup id clients ≡ some u
      → lookup id (keep_alive_user id u clients) ≡ after_round id (some u)
  unfolding keep_alive_user
  keep_alive_user_same id u clients h = elim (Bool-cases (is_fresh now u)) [
    | inl e ↦ rw e h
    | inr e ↦ rw e (after_ping_same id (ping id) u clients h)
  ]

  keep_alive_round_all :
      (j : ℕ) (users clients : Clients)
      → AreDistinct users
      → lookup j clients ≡ lookup j users
      → lookup j (keep_alive_round users clients) ≡ after_round j (lookup j users)
  unfolding keep_alive_round
  keep_alive_round_all j [] clients distinct h = h ∙ unfold lookup in refl
  keep_alive_round_all j ((id, u) ∷ users) clients distinct h =
      let cs = keep_alive_user id u clients in
      elim (Bool-cases (j == id)) [
        | inl e ↦
            let same : j ≡ id = (==_iff j id).0 e in
            let first = lookup_first j id u users e in
            let apart = subst (λ (n : ℕ). All (λ c. n ≢ c.0) users) (sym same) distinct.0 in
            let found = ap (λ (n : ℕ). lookup n clients) (sym same) ∙ h ∙ first in
            let step =
              subst (λ (n : ℕ). lookup n cs ≡ after_round n (some u)) (sym same)
                (keep_alive_user_same id u clients found) in
            keep_alive_round-other j users cs apart ∙ step ∙ ap (after_round j) (sym first)
        | inr e ↦
            let second = lookup_behind j id u users e in
            let kept = keep_alive_user-other id j u clients (==→ne j id e) ∙ h ∙ second in
            keep_alive_round_all j users cs distinct.1 kept ∙ ap (after_round j) (sym second)
      ]

-- A user that has to be asked: never heard of, or not within the last 50 seconds.
abbrev pub IsDue : ℕ → User → Type 0
IsDue now u = (u.last_keep_alive ≡ 0) ⊎ (u.last_keep_alive + 50 ≤ now)

-- What a round at the time `now` makes of a user whose ENQUIRE_LINK gave `p`.
pub data Round (now : ℕ) (p : Ping) (u : User) : Option User → Type 0 where
  heard : 0 < u.last_keep_alive → now < u.last_keep_alive + 50 → Round now p u (some u)
  unsent : IsDue now u → p ≡ threw → Round now p u (some u)
  answered :
      (res : Result)
      → IsDue now u
      → p ≡ pinged res 0
      → (res ≡ ok) ⊎ (res ≡ syserror)
      → Round now p u (some (record u { last_keep_alive = now }))
  lost :
      (res : Result) (status : ℕ)
      → IsDue now u
      → p ≡ pinged res status
      → ((res ≢ ok) × (res ≢ syserror)) ⊎ (status ≢ 0)
      → Round now p u none

abbrev pub IsRound : ℕ → Ping → Option User → Option User → Type 0
IsRound now p none after = after ≡ none
IsRound now p (some u) after = Round now p u after

fresh_cases :
    (now : ℕ) (u : User)
    → ((is_fresh now u ≡ true) × (0 < u.last_keep_alive) × (now < u.last_keep_alive + 50))
      ⊎ ((is_fresh now u ≡ false) × IsDue now u)
unfolding is_fresh
fresh_cases now u = elim (Bool-cases (u.last_keep_alive == 0)) [
  | inl e ↦ inr (rw e refl, inl ((==_iff u.last_keep_alive 0).0 e))
  | inr e ↦ elim (Bool-cases (ltb now (u.last_keep_alive + 50))) [
    | inl f ↦
        let ne = ==→ne u.last_keep_alive 0 e in
        inl (rw (e, f) refl, omega (arith, ne), ltb→lt now (u.last_keep_alive + 50) f)
    | inr f ↦ inr (rw (e, f) refl, inr (ltb→ge now (u.last_keep_alive + 50) f))
  ]
]

lenient_cases :
    (res : Result)
    → ((is_lenient res ≡ true) × ((res ≡ ok) ⊎ (res ≡ syserror)))
      ⊎ ((is_lenient res ≡ false) × (res ≢ ok) × (res ≢ syserror))
unfolding is_lenient
lenient_cases ok = inl (refl, inl refl)
lenient_cases syserror = inl (refl, inr refl)
lenient_cases timeout = inr (refl, (λ e. absurd cc), λ e. absurd cc)
lenient_cases neterror = inr (refl, (λ e. absurd cc), λ e. absurd cc)
lenient_cases invresp = inr (refl, (λ e. absurd cc), λ e. absurd cc)

after_answer-Round :
    (now : ℕ) (ping : ℕ → Ping) (p : Ping) (u : User)
    → IsDue now u
    → Round now p u (after_answer now ping p u)
unfolding alive
after_answer-Round now ping threw u due = unsent due refl
after_answer-Round now ping (pinged res status) u due = elim (lenient_cases res) [
  | inl l ↦ elim (Bool-cases (status == CommandStatus.esme_rok)) [
    | inl e ↦ rw (l.0, e) (answered res due (ap (pinged res) ((==_iff status 0).0 e)) l.1)
    | inr e ↦ rw (l.0, e) (lost res status due refl (inr (==→ne status 0 e)))
  ]
  | inr l ↦ rw l.0 (lost res status due refl (inl (l.1, l.2)))
]

after_round-IsRound :
    (now : ℕ) (ping : ℕ → Ping) (j : ℕ) (o : Option User)
    → IsRound now (ping j) o (after_round now ping j o)
after_round-IsRound now ping j none = refl
after_round-IsRound now ping j (some u) = elim (fresh_cases now u) [
  | inl f ↦ rw f.0 (heard f.1 f.2)
  | inr f ↦ rw f.0 (after_answer-Round now ping (ping j) u f.1)
]

-- A round of keep-alives, where no other thread changes `m_clients` meanwhile. A user that was heard
-- of less than 50 seconds ago, or whose request threw, stays as it is. One whose request gave
-- RESULT_OK or RESULT_SYSERROR with the status ESME_ROK stays with the time of the round; every other
-- one is erased. No user is added. A connection stands in `m_clients` once.
pub keep_alive_round-lookup :
    (now : ℕ) (ping : ℕ → Ping) (j : ℕ) (clients : Clients)
    → AreDistinct clients
    → IsRound now (ping j) (lookup j clients) (lookup j (keep_alive_round now ping clients clients))
keep_alive_round-lookup now ping j clients distinct =
    subst (IsRound now (ping j) (lookup j clients))
      (sym (keep_alive_round_all now ping j clients clients distinct refl))
      (after_round-IsRound now ping j (lookup j clients))
