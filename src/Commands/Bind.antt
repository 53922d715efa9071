-- ===== src/Commands/Bind.antt =====
-- `CBindCommand` of smppcommands.hpp: what a bind request and its response hold.
use libsmpp.Prelude.{
  ℕ, ◌%◌, ◌-◌, ◌<◌, ◌≡◌, refl, subst, ◌==◌, leb, if◌then◌else◌, Option, none, some, List, [], ◌∷◌,
  length, take, gt→leb, le→leb, arith,
}
use libsmpp.Codec.TlvId
use libsmpp.Commands.Arrays.{
  c_string, snprintf, memcpy_min, IsPlain, c_string-snprintf, c_string-memcpy_min,
}
use libsmpp.Commands.Submit.{zeros, Tlv, val08, octets_of, build}

-- The request: the arrays of a bind_receiver_t, which has the same fields as the other two.
pub record Bind : Type 0 where
  pub system_id : List ℕ
  pub password : List ℕ
  pub system_type : List ℕ
  pub interface_version : ℕ
  pub addr_ton : ℕ
  pub addr_npi : ℕ
  pub address_range : List ℕ

pub record BindResp : Type 0 where
  pub system_id : List ℕ
  pub tlv : List Tlv

abbrev pub smpp_version : ℕ
smpp_version = 0x34

-- The constructor.
unfoldable pub new_bind : Bind
unfolding zeros
new_bind = record {
  system_id = zeros 16;
  password = zeros 9;
  system_type = zeros 13;
  interface_version = smpp_version;
  addr_ton = 0;
  addr_npi = 0;
  address_range = zeros 41;
}

unfoldable pub new_bind_resp : BindResp
unfolding zeros
new_bind_resp = record { system_id = zeros 16; tlv = [] }

-- An empty text leaves the array as it is.
unfoldable pub set_unless_empty : List ℕ → List ℕ → List ℕ
set_unless_empty array [] = array
set_unless_empty array (c ∷ cs) = snprintf array (c ∷ cs)

unfoldable pub set_system_info : List ℕ → List ℕ → List ℕ → Bind → Bind
set_system_info id password type b = record b {
  system_id = snprintf b.system_id id;
  password = snprintf b.password password;
  system_type = set_unless_empty b.system_type type;
}

unfoldable pub set_address : List ℕ → ℕ → ℕ → Bind → Bind
set_address range ton npi b = record b {
  addr_ton = ton % 256;
  addr_npi = npi % 256;
  address_range = set_unless_empty b.address_range range;
}

unfoldable pub get_system_id : Bind → Option (List ℕ)
get_system_id b = c_string b.system_id

unfoldable pub get_password : Bind → Option (List ℕ)
get_password b = c_string b.password

unfoldable pub get_system_type : Bind → Option (List ℕ)
get_system_type b = c_string b.system_type

unfoldable pub get_address_range : Bind → Option (List ℕ)
get_address_range b = c_string b.address_range

unfoldable pub get_response_system_id : BindResp → Option (List ℕ)
get_response_system_id r = c_string r.system_id

-- `value.val08`, the first octet of the union.
unfoldable pub first_octet : List ℕ → ℕ
first_octet [] = 0
first_octet (c ∷ cs) = c

-- The first version in the chain, and 0 where there is none.
unfoldable pub interface_version_of : List Tlv → ℕ
interface_version_of [] = 0
interface_version_of (t ∷ ts) =
    let rest = interface_version_of ts in
    if t.tag == TlvId.sc_interface_version then first_octet (octets_of t.value) else rest

unfoldable pub get_response_interface_version : BindResp → ℕ
get_response_interface_version r = interface_version_of r.tlv

-- `setResponseSystemId` copies the whole text, whatever the length of the array. `none` stands for a
-- copy that writes behind the array.
unfoldable pub set_response_system_id : List ℕ → BindResp → Option BindResp
set_response_system_id id r =
    let version : Tlv = record {
      tag = TlvId.sc_interface_version;
      size = 1;
      value = val08 smpp_version;
    } in
    if leb (length id) (length r.system_id)
    then some (record r { system_id = memcpy_min r.system_id id; tlv = build r.tlv version })
    else none

-- Identifier, password and type that were set are read back, cut to the rooms of their arrays; an
-- empty type leaves the one that was there.
pub get_system_id-set_system_info :
    (id password type : List ℕ) (b : Bind)
    → IsPlain id
    → IsPlain password
    → length b.system_id ≡ 16
    → length b.password ≡ 9
    → (get_system_id (set_system_info id password type b) ≡ some (take 15 id))
      × (get_password (set_system_info id password type b) ≡ some (take 8 password))
      × (get_system_type (set_system_info id password [] b) ≡ get_system_type b)
unfolding get_system_id get_password get_system_type set_system_info set_unless_empty
get_system_id-set_system_info id password type b p q l k = (
  subst (λ (n : ℕ). c_string (snprintf b.system_id id) ≡ some (take (n - 1) id)) l
      (c_string-snprintf b.system_id id p),
  subst (λ (n : ℕ). c_string (snprintf b.password password) ≡ some (take (n - 1) password)) k
      (c_string-snprintf b.password password q),
  refl,
)

-- A system identifier of at most 15 octets that is set on a new response is read back, with the
-- version of the protocol.
pub get_response_system_id-set :
    (id : List ℕ)
    → IsPlain id
    → length id < 16
    → (r : BindResp) × (set_response_system_id id new_bind_resp ≡ some r)
      × (get_response_system_id r ≡ some id)
      × (get_response_interface_version r ≡ smpp_version)
unfolding set_response_system_id get_response_system_id get_response_interface_version
    interface_version_of new_bind_resp build first_octet octets_of zeros
get_response_system_id-set id p short = (
  record {
    system_id = memcpy_min (zeros 16) id;
    tlv = record { tag = TlvId.sc_interface_version; size = 1; value = val08 smpp_version } ∷ [];
  },
  rw (le→leb (length id) 16 (omega arith)) refl,
  c_string-memcpy_min 16 id p short,
  refl,
)

-- A longer one than the array is written behind its end.
pub set_response_system_id_overruns :
    (id : List ℕ) (r : BindResp)
    → length r.system_id < length id
    → set_response_system_id id r ≡ none
unfolding set_response_system_id
set_response_system_id_overruns id r long = rw (gt→leb (length id) (length r.system_id) long) refl
