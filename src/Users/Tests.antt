-- ===== src/Users/Tests.antt =====
-- The user manager at work: a transceiver binds, and sends a message.
use libsmpp.Prelude.{
  ℕ, ◌≡◌, ◌⊎◌, ◌↔◌, ◌≤◌, refl, Bool, true, Option, some, List, [], ◌∷◌, take, arith, if◌then◌else◌,
  ◌==◌,
}
use libsmpp.Codec.CommandStatus
use libsmpp.Connection.Pending.{ok, timeout}
use Prim.Native.String.{String}
use libsmpp.Converter.Iconv.{Converted, converted}
use libsmpp.Commands.Submit.{
  Submit as DeliverSm, Address, get_source_address, get_destination_address, get_text,
}
use libsmpp.Users.Address.{
  Text, explicit, range, matches, is_empty, parse_addresses, parse_all, parse_address, owns_address,
  text_eq,
}
use libsmpp.Users.Clients.{transceiver, User, Clients, lookup, insert}
use libsmpp.Users.Lookup.{bound}
use libsmpp.Users.Requests.{
  Bind, Submit, bind, submit_sm, login_ok, delivery_ok, Callbacks, response, delivered, Outcome,
  done,
}
use libsmpp.Users.Manager.{
  login_status, delivery_status, is_receiver, is_transmitter, bind_addresses, finish_bind, validate,
  on_bind, deliver, on_submit, on_command_of, on_command,
}
use libsmpp.Users.Ranges.{IsNumeral, value, matches-range, matches_wraps}
use libsmpp.Users.Effects.{replies}
use libsmpp.Users.States.{on_command_bound, on_command_other, on_command_replies}
use libsmpp.Users.KeepAlive.{Ping, pinged, IsRound, keep_alive_round, keep_alive_round-lookup}
use libsmpp.Users.Sending.{
  IsFirst, owner, answered, send_to, encoded, send_message, send_message-ok,
}
use libsmpp.Users.Delivery.{delivers, allowed, on_command-delivers}

-- An application that accepts everything, and texts without separators.
abbrev cb : Callbacks
cb = record {
  validate_user = λ id mode system_id password addresses. login_ok;
  deliver_message = λ id from to text. delivery_ok;
}

abbrev whole : ℕ → Text → List Text
whole separator s = s ∷ []

abbrev yes_int : Text → Bool
yes_int s = true

abbrev as_is : ℕ → Text → Text
as_is data_coding s = s

abbrev quiet : Clients → Clients
quiet cs = cs

abbrev request : Bind
request = record {
  mode = transceiver;
  system_id = 0x61 ∷ [];
  password = [];
  address_range = 0x35 ∷ [];
}

abbrev user : User
user = record {
  connection = 3;
  bind_mode = transceiver;
  system_id = 0x61 ∷ [];
  addresses = explicit (0x35 ∷ []) ∷ [];
  last_keep_alive = 0;
}

abbrev other_user : User
other_user = record {
  connection = 9;
  bind_mode = transceiver;
  system_id = [];
  addresses = [];
  last_keep_alive = 0;
}

abbrev after_bind : Outcome
after_bind = record {
  clients = (3, user) ∷ (9, other_user) ∷ [];
  events = response CommandStatus.esme_rok ∷ [];
  keep = true;
}

bind_run :
    on_command whole yes_int as_is (some cb) quiet 100 3 (bind request) ((9, other_user) ∷ [])
    ≡ done after_bind
unfolding on_command on_command_of on_bind validate finish_bind login_status lookup insert
    bind_addresses is_transmitter is_empty parse_addresses parse_all parse_address
bind_run = refl

abbrev message : Submit
message = record {
  source = 0x35 ∷ [];
  destination = 0x36 ∷ [];
  data_coding = 0;
  text = 0x68 ∷ 0x69 ∷ [];
}

abbrev after_submit : Outcome
after_submit = record {
  clients = (3, user) ∷ [];
  events =
      delivered (0x35 ∷ []) (0x36 ∷ []) (0x68 ∷ 0x69 ∷ []) ∷ response CommandStatus.esme_rok ∷ [];
  keep = true;
}

submit_run :
    on_command whole yes_int as_is (some cb) quiet 100 3 (submit_sm (some message)) ((3, user) ∷ [])
    ≡ done after_submit
unfolding on_command on_command_of on_submit deliver is_receiver is_transmitter lookup
    delivery_status owns_address matches text_eq
submit_run = refl

on_command_bound_example : bound (lookup 3 after_bind.clients) ≡ true
on_command_bound_example =
    on_command_bound whole yes_int as_is (some cb) quiet 100 3 ((9, other_user) ∷ []) (bind request)
      after_bind refl bind_run

on_command_other_example :
    (lookup 9 after_bind.clients ≡ lookup 9 ((9, other_user) ∷ []))
    ⊎ (lookup 9 after_bind.clients ≡ lookup 9 ((9, other_user) ∷ []))
on_command_other_example =
    on_command_other whole yes_int as_is (some cb) quiet 100 3 ((9, other_user) ∷ []) (bind request)
      after_bind refl bind_run 9 (λ e. absurd (omega arith))

on_command_replies_example : replies after_submit.events ≡ 1
on_command_replies_example =
    on_command_replies whole yes_int as_is (some cb) quiet 100 3 ((3, user) ∷ [])
      (submit_sm (some message)) after_submit refl submit_run

on_command-delivers_example :
    delivers after_submit.events ≡ allowed (lookup 3 ((3, user) ∷ [])) (submit_sm (some message))
on_command-delivers_example =
    on_command-delivers whole yes_int as_is cb quiet 100 3 ((3, user) ∷ [])
      (submit_sm (some message)) after_submit submit_run

-- "1", "9" and "5".
matches-range_example : (matches (range (0x31 ∷ []) (0x39 ∷ [])) (0x35 ∷ []) ≡ true) ↔ (
    (1 ≤ 1)
    × (1 ≤ 1)
    × (value 0 (0x31 ∷ []) ≤ value 0 (0x35 ∷ []))
    × (value 0 (0x35 ∷ []) ≤ value 0 (0x39 ∷ [])))
unfolding value
matches-range_example =
    matches-range (0x31 ∷ []) (0x39 ∷ []) (0x35 ∷ [])
      (((omega arith, omega arith), tt), omega arith)
      (((omega arith, omega arith), tt), omega arith)
      (((omega arith, omega arith), tt), omega arith) (omega arith) (omega arith) (omega arith)

-- "0000000001", "0000000009" and "4294967301".
abbrev first : Text
first = 48 ∷ 48 ∷ 48 ∷ 48 ∷ 48 ∷ 48 ∷ 48 ∷ 48 ∷ 48 ∷ 49 ∷ []

abbrev last : Text
last = 48 ∷ 48 ∷ 48 ∷ 48 ∷ 48 ∷ 48 ∷ 48 ∷ 48 ∷ 48 ∷ 57 ∷ []

abbrev beyond : Text
beyond = 52 ∷ 50 ∷ 57 ∷ 52 ∷ 57 ∷ 54 ∷ 55 ∷ 51 ∷ 48 ∷ 49 ∷ []

first-IsNumeral : IsNumeral first
first-IsNumeral = (
  (
    (omega arith, omega arith),
    (
      (omega arith, omega arith),
      (
        (omega arith, omega arith),
        (
          (omega arith, omega arith),
          (
            (omega arith, omega arith),
            (
              (omega arith, omega arith),
              (
                (omega arith, omega arith),
                (
                  (omega arith, omega arith),
                  ((omega arith, omega arith), ((omega arith, omega arith), tt)),
                ),
              ),
            ),
          ),
        ),
      ),
    ),
  ),
  omega arith,
)

last-IsNumeral : IsNumeral last
last-IsNumeral = (
  (
    (omega arith, omega arith),
    (
      (omega arith, omega arith),
      (
        (omega arith, omega arith),
        (
          (omega arith, omega arith),
          (
            (omega arith, omega arith),
            (
              (omega arith, omega arith),
              (
                (omega arith, omega arith),
                (
                  (omega arith, omega arith),
                  ((omega arith, omega arith), ((omega arith, omega arith), tt)),
                ),
              ),
            ),
          ),
        ),
      ),
    ),
  ),
  omega arith,
)

beyond-IsNumeral : IsNumeral beyond
beyond-IsNumeral = (
  (
    (omega arith, omega arith),
    (
      (omega arith, omega arith),
      (
        (omega arith, omega arith),
        (
          (omega arith, omega arith),
          (
            (omega arith, omega arith),
            (
              (omega arith, omega arith),
              (
                (omega arith, omega arith),
                (
                  (omega arith, omega arith),
                  ((omega arith, omega arith), ((omega arith, omega arith), tt)),
                ),
              ),
            ),
          ),
        ),
      ),
    ),
  ),
  omega arith,
)

matches_wraps_example : matches (range first last) beyond ≡ true
unfolding value
matches_wraps_example =
    matches_wraps first last beyond first-IsNumeral last-IsNumeral beyond-IsNumeral (omega arith)
      (omega arith) (omega arith) (omega arith) (omega arith) (omega arith)

abbrev agreed : ℕ → DeliverSm Address → Option ℕ
agreed connection sm = some CommandStatus.esme_rok

abbrev as_is_left : Text → Text
as_is_left s = s

abbrev same : String → String → List ℕ → Converted
same from to text = converted text

send_run :
    send_message 0x0B same as_is_left agreed ((3, user) ∷ []) (0x36 ∷ []) (0x35 ∷ []) (0x68 ∷ [])
    ≡ delivery_ok
unfolding send_message send_to answered owner owns_address matches text_eq
send_run = refl

send_message-ok_example :
    (u : User) × IsFirst (0x35 ∷ []) ((3, user) ∷ []) u
    × (sm : DeliverSm Address) × (agreed u.connection sm ≡ some CommandStatus.esme_rok)
    × (get_source_address sm ≡ some (0x36 ∷ []))
    × (get_destination_address sm ≡ some (0x35 ∷ []))
    × (sm.data_coding ≡ 0x0B)
    × (get_text sm ≡ take 1024 (encoded 0x0B same as_is_left agreed (0x68 ∷ [])))
send_message-ok_example =
    send_message-ok 0x0B same as_is_left agreed ((3, user) ∷ []) (0x36 ∷ []) (0x35 ∷ []) (0x68 ∷ [])
      (omega arith, tt) (omega arith, tt) send_run

-- The user at 3 answers, the one at 9 does not.
abbrev half : ℕ → Ping
half id = if id == 3 then pinged ok 0 else pinged timeout 0

keep_alive_round-lookup_example :
    IsRound 100 (half 9) (lookup 9 ((3, user) ∷ (9, other_user) ∷ [])) (
      lookup 9 (
        keep_alive_round 100 half
          ((3, user) ∷ (9, other_user) ∷ [])
          ((3, user) ∷ (9, other_user) ∷ [])))
keep_alive_round-lookup_example =
    keep_alive_round-lookup 100 half 9 ((3, user) ∷ (9, other_user) ∷ [])
      (((λ e. absurd (omega arith)), tt), (tt, tt))
