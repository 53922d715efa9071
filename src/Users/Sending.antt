-- ===== src/Users/Sending.antt =====
-- `CSMPPUserManager::SendMessage`: a message of the application to one of the bound users.
use Prim.Native.String.{String}
use libsmpp.Prelude.{
  ◌%◌, ◌∙◌, List, length, take, ltb, leb, Bool-cases, ℕ, ◌≡◌, subst, some_eq, if-cases, refl, ap,
  ◌==◌, ==_iff, if◌then◌else◌, Bool, true, false, inl, inr, Option, none, some, [], ◌∷◌, ◌++◌, All,
}
use libsmpp.Codec.CommandStatus
use libsmpp.Converter.Iconv.{Converted, converted, failed}
use libsmpp.Converter.Charset.{get_charset_from_data_coding, convert_internal}
use libsmpp.Commands.Arrays.{IsPlain, c_string}
use libsmpp.Commands.Submit.{
  Submit, Address, new_submit, cleared, set_destination, set_source_address, set_text,
  set_data_coding, set_short_message, set_payload, get_source_address, get_destination_address,
  get_text,
}
use libsmpp.Commands.Text.{get_text-set_text}
use libsmpp.Commands.Destination.{get_destination_address-set_destination}
use libsmpp.Users.Address.{Text, owns_address}
use libsmpp.Users.Clients.{User, Clients}
use libsmpp.Users.Requests.{
  DeliveryResult, delivery_ok, delivery_rejected, delivery_inv_dest_addr, delivery_unknown_error,
}

-- The loop over `m_clients`.
unfoldable pub owner : Text → Clients → Option User
owner to [] = none
owner to ((k, u) ∷ cs) =
    let rest = owner to cs in if owns_address u.addresses to then some u else rest

-- `m_encoding`; the conversion of `iconv_wrapper`, with what a failed one leaves in `encoded_message`;
-- and `SendRequest` of a connection: none where it does not give RESULT_OK, or the `command_status` of
-- the answer.
module _ (encoding : ℕ) (convert : String → String → List ℕ → Converted) (left : Text → Text)
    (send_request : ℕ → Submit Address → Option ℕ) where
  unfoldable pub text_of : Text → Converted → Text
  text_of message (converted text) = text
  text_of message (failed res) = left message

  unfoldable pub encoded : Text → Text
  encoded message =
      let charset = get_charset_from_data_coding (encoding % 256) in
      text_of message (convert_internal convert "UTF-8" charset message)

  -- The request of the DELIVER_SM, with TON_UNKNOWN and NPI_UNKNOWN.
  unfoldable pub delivery : Text → Text → Text → Submit Address
  delivery from to message =
      let addressed = set_destination to 0 0 (set_source_address from 0 0 new_submit) in
      set_text (encoded message) false (set_data_coding encoding addressed)

  unfoldable pub answered : Option ℕ → DeliveryResult
  answered none = delivery_unknown_error
  answered (some status) =
      if status == CommandStatus.esme_rok then delivery_ok else delivery_rejected

  unfoldable pub send_to : Option User → Text → Text → Text → DeliveryResult
  send_to none from to message = delivery_inv_dest_addr
  send_to (some u) from to message = answered (send_request u.connection (delivery from to message))

  unfoldable pub send_message : Clients → Text → Text → Text → DeliveryResult
  send_message clients from to message = send_to (owner to clients) from to message

-- The users in front of the one that is found do not own the address.
abbrev pub IsFirst : Text → Clients → User → Type 0
IsFirst to clients u =
    (before : Clients) × (k : ℕ) × (after : Clients) × (clients ≡ before ++ ((k, u) ∷ after))
    × All (λ c. owns_address c.1.addresses to ≡ false) before
    × (owns_address u.addresses to ≡ true)

owner-IsFirst :
    (to : Text) (clients : Clients) (u : User) → owner to clients ≡ some u → IsFirst to clients u
unfolding owner
owner-IsFirst to [] u h = absurd cc
owner-IsFirst to ((k, v) ∷ cs) u h =
    elim (if-cases (owns_address v.addresses to) (some v) (owner to cs) (some u) h) [
      | inl p ↦ (
        [],
        k,
        cs,
        ap (λ (w : User). (k, w) ∷ cs) (some_eq p.1),
        tt,
        subst (λ (w : User). owns_address w.addresses to ≡ true) (some_eq p.1) p.0,
      )
      | inr p ↦
          let r = owner-IsFirst to cs u p.1 in
          ((k, v) ∷ r.0, r.1, r.2, ap (λ (ds : Clients). (k, v) ∷ ds) r.3, (p.0, r.4), r.5)
    ]

accepted : (b : Bool) → (if b then delivery_ok else delivery_rejected) ≡ delivery_ok → b ≡ true
accepted true h = refl
accepted false h = absurd cc

-- The text is set last, and touches nothing else.
set_text_others :
    (text : Text) (s : Submit Address)
    → ((set_text text false s).source_addr ≡ s.source_addr)
      × ((set_text text false s).destination ≡ s.destination)
      × ((set_text text false s).data_coding ≡ s.data_coding)
unfolding set_text set_short_message set_payload
set_text_others text s = elim (Bool-cases (leb (length text) 254)) [
  | inl e ↦ simp e (refl, refl, refl)
  | inr e ↦ simp e (refl, refl, refl)
]

module _ (encoding : ℕ) (convert : String → String → List ℕ → Converted) (left : Text → Text)
    (send_request : ℕ → Submit Address → Option ℕ) where
  answered-ok :
      (o : Option ℕ)
      → answered encoding convert left send_request o ≡ delivery_ok
      → o ≡ some CommandStatus.esme_rok
  unfolding answered
  answered-ok none h = absurd cc
  answered-ok (some status) h =
      ap (λ (n : ℕ). some n)
        ((==_iff status CommandStatus.esme_rok).0 (accepted (status == CommandStatus.esme_rok) h))

  send_to-ok :
      (o : Option User) (from to message : Text)
      → send_to encoding convert left send_request o from to message ≡ delivery_ok
      → (u : User) × (o ≡ some u)
        × (send_request u.connection (delivery encoding convert left send_request from to message)
            ≡ some CommandStatus.esme_rok)
  unfolding send_to
  send_to-ok none from to message h = absurd cc
  send_to-ok (some u) from to message h = (u, refl, answered-ok _ h)

  -- What the request of `SendMessage` has.
  delivery_fields :
      (from to message : Text)
      → IsPlain from
      → IsPlain to
      → let request = delivery encoding convert left send_request from to message in
        (get_source_address request ≡ some (take 20 from))
        × (get_destination_address request ≡ (if ltb (length to) 21 then some to else none))
        × (request.data_coding ≡ encoding % 256)
        × (get_text request ≡ take 1024 (encoded encoding convert left send_request message))
  unfolding delivery get_source_address get_destination_address set_destination set_source_address
      set_data_coding new_submit cleared
  delivery_fields from to message p q =
      let text = encoded encoding convert left send_request message in
      let s =
        set_data_coding encoding
          (set_destination to 0 0 (set_source_address from 0 0 new_submit)) in
      let kept = set_text_others text s in
      (
        ap c_string kept.0 ∙ (get_destination_address-set_destination from 0 0 p).1,
        ap (λ (a : Address). c_string a.address) kept.1
            ∙ (get_destination_address-set_destination to 0 0 q).0,
        kept.2,
        get_text-set_text text false s tt,
      )

  -- `SendMessage` gives DELIVERY_OK only where the first user that owns the destination was sent a
  -- request and answered ESME_ROK. The request has the first 20 octets of the source, the destination
  -- if that has at most 20 octets, `m_encoding`, and the first 1024 octets of the converted text. The
  -- addresses have no NUL inside.
  pub send_message-ok :
      (clients : Clients) (from to message : Text)
      → IsPlain from
      → IsPlain to
      → send_message encoding convert left send_request clients from to message ≡ delivery_ok
      → (u : User) × IsFirst to clients u
        × (request : Submit Address) × (send_request u.connection request
            ≡ some CommandStatus.esme_rok)
        × (get_source_address request ≡ some (take 20 from))
        × (get_destination_address request ≡ (if ltb (length to) 21 then some to else none))
        × (request.data_coding ≡ encoding % 256)
        × (get_text request ≡ take 1024 (encoded encoding convert left send_request message))
  unfolding send_message
  send_message-ok clients from to message p q h =
      let r = send_to-ok (owner to clients) from to message h in
      let request = delivery encoding convert left send_request from to message in
      let f = delivery_fields from to message p q in
      (r.0, owner-IsFirst to clients r.0 r.1, request, r.2, f.0, f.1, f.2, f.3)
