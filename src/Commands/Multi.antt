-- ===== src/Commands/Multi.antt =====
-- `CSMPPSubmitMulti` of smppcommands.hpp, with the chains of libsmpp34/smpp34_params.c.
use mathlib.Core.List.{map-append}
use libsmpp.Prelude.{
  ℕ, zero, suc, ◌%◌, ◌≡◌, refl, ap, ltb, if◌then◌else◌, Bool, true, Option, List, [], ◌∷◌, ◌++◌,
  length, get_or, take, map, append_assoc, append-nil, ◌<◌, ◌≤◌, ◌∙◌, arith,
}
use libsmpp.Commands.Arrays.{c_string, memcpy_min, take_all}
use libsmpp.Commands.Submit.{zeros, build, Submit}

-- `dad_t` with the address of an SME.
pub record Dad : Type 0 where
  pub dest_flag : ℕ
  pub destination_addr : List ℕ

-- `dest_addr_def` with its count. The chain may end in a pointer to entries that were freed.
pub record Destinations : Type 0 where
  pub number_of_dests : ℕ
  pub dest_addr_def : List Dad
  pub is_dangling : Bool

-- The entry of one address: cleared, then DEST_FLAG_SME and the address.
unfoldable pub dad_of : List ℕ → Dad
dad_of address = record { dest_flag = 1; destination_addr = memcpy_min (zeros 21) address }

-- The loop from the last address to the first.
unfoldable pub build_dads : ℕ → List (List ℕ) → List Dad → List Dad
build_dads zero addresses chain = chain
build_dads (suc i) addresses chain =
    build_dads i addresses (build chain (dad_of (get_or addresses i [])))

-- `destroy_dad` frees the chain, and the pointer to it stays.
unfoldable pub destroyed : List Dad → Bool → Bool
destroyed [] is_dangling = is_dangling
destroyed (d ∷ ds) is_dangling = true

unfoldable pub set_destinations : List (List ℕ) → Submit Destinations → Submit Destinations
set_destinations addresses s = record s {
  destination = record {
    number_of_dests = length addresses % 256;
    dest_addr_def = build_dads (length addresses) addresses [];
    is_dangling = destroyed s.destination.dest_addr_def s.destination.is_dangling;
  };
}

-- `submit_multi_resp_t`: `no_unsuccess` and the addresses of the chain `unsuccess_smes`.
pub record MultiResp : Type 0 where
  pub no_unsuccess : ℕ
  pub unsuccess_smes : List (List ℕ)

-- `getFailedAddresses`, each address as `c_string` reads it.
unfoldable pub get_failed_addresses : MultiResp → List (Option (List ℕ))
get_failed_addresses r = if ltb 0 r.no_unsuccess then map c_string r.unsuccess_smes else []

take_next {ℓ} :
    {A : Type ℓ} (i : ℕ) (xs : List A) (d : A)
    → i < length xs
    → take (suc i) xs ≡ take i xs ++ (get_or xs i d ∷ [])
take_next i [] d h = absurd (omega arith)
take_next zero (x ∷ xs) d h = refl
take_next (suc i) (x ∷ xs) d h = ap (λ t. x ∷ t) (take_next i xs d (omega arith))

build_dads-map :
    (i : ℕ) (addresses : List (List ℕ)) (chain : List Dad)
    → i ≤ length addresses
    → build_dads i addresses chain ≡ map dad_of (take i addresses) ++ chain
unfolding build_dads build
build_dads-map zero addresses chain h = refl
build_dads-map (suc i) addresses chain h =
    build_dads-map i addresses (dad_of (get_or addresses i []) ∷ chain) (omega arith)
    ∙ rw (take_next i addresses [] (omega arith), map-append, append_assoc) refl

-- The chain has an entry for each address in the order of the addresses, which are counted modulo
-- 256.
pub set_destinations_lem :
    (addresses : List (List ℕ)) (s : Submit Destinations)
    → ((set_destinations addresses s).destination.dest_addr_def ≡ map dad_of addresses)
      × ((set_destinations addresses s).destination.number_of_dests ≡ length addresses % 256)
unfolding set_destinations
set_destinations_lem addresses s = (
  build_dads-map (length addresses) addresses [] (omega arith)
      ∙ rw (append-nil, take_all (length addresses) addresses (omega arith)) refl,
  refl,
)

-- A chain that was there before is freed and stays in reach behind the new one.
pub set_destinations_dangles :
    (addresses : List (List ℕ)) (s : Submit Destinations) (d : Dad) (ds : List Dad)
    → s.destination.dest_addr_def ≡ d ∷ ds
    → (set_destinations addresses s).destination.is_dangling ≡ true
unfolding set_destinations destroyed
set_destinations_dangles addresses s d ds h = rw h refl
