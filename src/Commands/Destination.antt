-- ===== src/Commands/Destination.antt =====
-- The addresses of a `CSMPPSubmitSingle` or a `CSMPPDelivery`, set and read back.
use libsmpp.Prelude.{
  ℕ, ◌≡◌, ltb, ltb→lt, ltb→ge, if◌then◌else◌, Bool-cases, inl, inr, none, some, List, length, take,
}
use libsmpp.Commands.Arrays.{
  IsPlain, c_string-memcpy_min, c_string-memcpy_min_full, c_string-snprintf,
}
use libsmpp.Commands.Submit.{
  zeros, new_submit, cleared, get_destination_address, set_destination, get_source_address,
  set_source_address,
}

destination_of_new :
    (address : List ℕ) (ton npi : ℕ)
    → IsPlain address
    → get_destination_address (set_destination address ton npi new_submit)
      ≡ (if ltb (length address) 21 then some address else none)
unfolding get_destination_address set_destination new_submit cleared zeros
destination_of_new address ton npi h = elim (Bool-cases (ltb (length address) 21)) [
  | inl e ↦ rw e (c_string-memcpy_min 21 address h (ltb→lt (length address) 21 e))
  | inr e ↦ rw e (c_string-memcpy_min_full (zeros 21) address h (ltb→ge (length address) 21 e))
]

-- A destination of at most 20 octets that was set on a new request is read back; a longer one fills
-- the array, and `getDestinationAddress` reads on behind it. A source is cut to 20 octets.
pub get_destination_address-set_destination :
    (address : List ℕ) (ton npi : ℕ)
    → IsPlain address
    → (get_destination_address (set_destination address ton npi new_submit)
        ≡ (if ltb (length address) 21 then some address else none))
      × (get_source_address (set_source_address address ton npi new_submit)
          ≡ some (take 20 address))
unfolding get_source_address set_source_address new_submit cleared zeros
get_destination_address-set_destination address ton npi h =
    (destination_of_new address ton npi h, c_string-snprintf (zeros 21) address h)
