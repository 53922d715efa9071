-- ===== src/Commands/RoundTrip.antt =====
-- A request that one command packs, unpacked by another of the same class.
use libsmpp.Prelude.{
  ℕ, ◌<◌, ◌≡◌, ◌==◌, ==_iff, refl, sym, ap, ◌∙◌, subst, some_eq, Option, none, some, List, [],
  append-nil,
}
use libsmpp.Codec.Frames.{Frame, frame, frame_of}
use libsmpp.Codec.Fields.{packed_parts, packed_part, packed_field}
use libsmpp.Codec.Pdu.{PduOf, Pdu, pack_any, smpp34_pack, smpp34_unpack}
use libsmpp.Codec.Assembled.{pack_frame-some}
use libsmpp.Codec.RoundTrip.{>>=-eq-some}
use libsmpp.Codec.RoundTrip.Words.{guard_true}
use libsmpp.Codec.RoundTrip.Pdus.{IsPduOf, received, received_pdu, smpp34_unpack-pack}
use libsmpp.Commands.Command.{
  Command, command_id_of, command_status_of, sequence_number_of, unpacked, pack_request,
  checked_request, request_outcome, unpack_request,
}

-- The fields of the header behind the length.
abbrev SameHeader : (f : Option Frame) → PduOf f → PduOf f → Type 0
SameHeader f x y =
    (command_id_of f x ≡ command_id_of f y)
    × (command_status_of f x ≡ command_status_of f y)
    × (sequence_number_of f x ≡ sequence_number_of f y)

received-SameHeader :
    (f : Option Frame) (size : ℕ) (x x' : PduOf f) (octets : List ℕ)
    → pack_any f size x ≡ some (octets, x')
    → SameHeader f (received f x') x
unfolding pack_any command_id_of command_status_of sequence_number_of packed_parts packed_part
    packed_field
received-SameHeader none size x x' octets h = (refl, refl, refl)
received-SameHeader (some (frame body tlv)) size x x' octets h =
    let e = (pack_frame-some body tlv size x x' octets h).6 in
    subst
      (λ (y : Pdu (frame body tlv)).
        SameHeader (some (frame body tlv)) (received_pdu (frame body tlv) y) x)
      (sym e) (refl, refl, refl)

module _ (id : ℕ) (c d : Command id) where
  checked_request-SameHeader :
      (r : PduOf (frame_of id))
      → SameHeader (frame_of id) r c.request
      → command_id_of (frame_of id) d.request ≡ command_id_of (frame_of id) c.request
      → checked_request d r
        ≡ unpacked (command_status_of (frame_of id) c.request) (record d { request = r })
  unfolding checked_request
  checked_request-SameHeader r same e =
      rw
        ((==_iff (command_id_of (frame_of id) r) (command_id_of (frame_of id) d.request)).1
          (same.0 ∙ sym e))
        (ap (λ (status : ℕ). unpacked status (record d { request = r })) same.1)

  -- What one command packs, another of the same class unpacks without an error: it gives the status of
  -- the request, and has the struct as `smpp34_pack` left it, with every chain in the opposite order and
  -- the same sequence number. The fields of the request have their C types, its counts are right, and
  -- both commands have the same command_id.
  pub unpack_request-pack_request :
      (size : ℕ) (octets : List ℕ)
      → IsPduOf (frame_of id) c.request
      → command_id_of (frame_of id) d.request ≡ command_id_of (frame_of id) c.request
      → size < 4294967296
      → pack_request c size ≡ some octets
      → (x' : PduOf (frame_of id)) × (smpp34_pack id size c.request ≡ some (octets, x'))
        × (unpack_request d octets
            ≡ unpacked
                (command_status_of (frame_of id) c.request)
                (record d { request = received (frame_of id) x' }))
        × (sequence_number_of (frame_of id) (received (frame_of id) x')
            ≡ sequence_number_of (frame_of id) c.request)
  unfolding pack_request unpack_request request_outcome smpp34_pack
  unpack_request-pack_request size octets is e small h =
      let g = guard_true (command_id_of (frame_of id) c.request == id) _ octets h in
      let m = >>=-eq-some (smpp34_pack id size c.request) _ octets g.1 in
      let x' = m.0.1 in
      let packs : smpp34_pack id size c.request ≡ some (octets, x') =
        m.1 ∙ ap (λ (bs : List ℕ). some (bs, x')) (some_eq m.2) in
      let same = received-SameHeader (frame_of id) size c.request x' octets packs in
      let reads : smpp34_unpack id octets ≡ some (received (frame_of id) x') =
        subst (λ (bs : List ℕ). smpp34_unpack id bs ≡ some (received (frame_of id) x'))
          (append-nil octets) (smpp34_unpack-pack id size c.request x' octets [] is small packs) in
      (
        x',
        packs,
        ap (request_outcome d) reads
            ∙ checked_request-SameHeader (received (frame_of id) x') same e,
        same.2,
      )
