-- ===== src/Users/Clients.antt =====
-- `m_clients`: a `std::map` from the identifiers of connections to users, in ascending order.
use libsmpp.Prelude.{ℕ, ◌==◌, ltb, if◌then◌else◌, Option, none, some, List, [], ◌∷◌}
use libsmpp.Users.Address.{Text, UserAddress}

-- BIND_RECEIVER, BIND_TRANSMITTER and BIND_TRANSCEIVER.
pub data BindMode : Type 0 where
  receiver transmitter transceiver : BindMode

-- `SMPPUser`; its connection by the identifier.
pub record User : Type 0 where
  pub connection : ℕ
  pub bind_mode : BindMode
  pub system_id : Text
  pub addresses : List UserAddress
  pub last_keep_alive : ℕ

abbrev pub Clients : Type 0
Clients = List (ℕ × User)

unfoldable pub lookup : ℕ → Clients → Option User
lookup id [] = none
lookup id ((k, u) ∷ cs) = if id == k then some u else lookup id cs

-- `erase` by key.
unfoldable pub erase : ℕ → Clients → Clients
erase id [] = []
erase id ((k, u) ∷ cs) = let rest = erase id cs in if id == k then rest else (k, u) ∷ rest

-- `insert` changes nothing where the key is there.
unfoldable pub insert : ℕ → User → Clients → Clients
insert id u [] = (id, u) ∷ []
insert id u ((k, v) ∷ cs) =
    let rest = insert id u cs in
    if ltb id k then (id, u) ∷ (k, v) ∷ cs else (if id == k then (k, v) ∷ cs else (k, v) ∷ rest)

-- A change of the user that a key has, through its `shared_ptr`.
unfoldable pub modify : ℕ → (User → User) → Clients → Clients
modify id f [] = []
modify id f ((k, u) ∷ cs) =
    let rest = modify id f cs in if id == k then (k, f u) ∷ cs else (k, u) ∷ rest
