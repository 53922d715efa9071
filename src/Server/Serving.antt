-- ===== src/Server/Serving.antt =====
-- What a server keeps true, under the operations that do not call the user manager.
use libsmpp.Prelude.{
  ℕ, arith, ◌≡◌, ◌≢◌, ◌⊎◌, inl, inr, ◌||◌, ◌&&◌, Bool, Bool-cases, true, false, List, [], ◌∷◌,
}
use libsmpp.Users.Clients.{lookup}
use libsmpp.Users.Lookup.{bound}
use libsmpp.Server.State.{Server, accept_connection, start, stop, is_in, without, on_new_connection}

-- The connection of every bound user is open, or among those that were cut without an event.
abbrev pub IsServed : List ℕ → Server → Type 0
IsServed cut s =
    (k : ℕ)
    → bound (lookup k s.clients) ≡ true
    → (is_in k s.connections ≡ true) ⊎ (is_in k cut ≡ true)

pub is_in-without :
    (k id : ℕ) (xs : List ℕ) → k ≢ id → is_in k xs ≡ true → is_in k (without id xs) ≡ true
unfolding is_in without
is_in-without k id [] ne h = absurd cc
is_in-without k id (x ∷ xs) ne h = ground (arith, is_in-without k id xs ne)

pub is_in-cons : (k x : ℕ) (xs : List ℕ) → is_in k xs ≡ true → is_in k (x ∷ xs) ≡ true
unfolding is_in
is_in-cons k x xs h = ground (arith, h)

-- Closing one connection leaves the others as they are.
pub stays :
    (k id : ℕ) (xs cut : List ℕ)
    → k ≢ id
    → (is_in k xs ≡ true) ⊎ (is_in k cut ≡ true)
    → (is_in k (without id xs) ≡ true) ⊎ (is_in k cut ≡ true)
stays k id xs cut ne (inl h) = inl (is_in-without k id xs ne h)
stays k id xs cut ne (inr h) = inr h

pub new_connection-IsServed :
    (cut : List ℕ) (error : Bool) (id : ℕ) (s : Server)
    → IsServed cut s
    → IsServed cut (on_new_connection error id s)
unfolding on_new_connection accept_connection
new_connection-IsServed cut true id s h k b = h k b
new_connection-IsServed cut false id s h k b = elim (h k b) [
  | inl there ↦ inl (is_in-cons k id s.connections there)
  | inr gone ↦ inr gone
]

pub start-IsServed :
    (cut : List ℕ) (can_open can_listen : Bool) (n : ℕ) (s : Server)
    → IsServed cut s
    → IsServed cut (start can_open can_listen n s).1
unfolding start accept_connection
start-IsServed cut can_open can_listen n s h =
    elim (Bool-cases (s.is_open || (can_open && can_listen))) [
      | inl e ↦ simp e h
      | inr e ↦ simp e h
    ]

pub stop-IsServed : (cut : List ℕ) (s : Server) → IsServed cut s → IsServed cut (stop s)
unfolding stop
stop-IsServed cut s h = elim (Bool-cases s.is_running) [ inl e ↦ simp e h | inr e ↦ simp e h ]
