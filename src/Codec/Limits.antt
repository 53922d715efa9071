-- ===== src/Codec/Limits.antt =====
-- Where the two directions of the codec draw the line for a short message.
use libsmpp.Prelude.{
  ℕ, ◌≡◌, refl, leb, le→leb, Bool-cases, inl, inr, true, none, some, List, ◌++◌, length, arith,
}
use libsmpp.Codec.Octets.{pack_octet8, unpack_octets}
use libsmpp.Codec.RoundTrip.Words.{unpack_octets-append}

-- A short message that fills its field is refused by OCTET8 of `smpp34_pack`, however much room
-- there is, and accepted by OCTET8 of `smpp34_unpack`.
pub octet8_limit :
    (size left : ℕ) (array rest : List ℕ)
    → length array ≡ size
    → (pack_octet8 size (length array) array left ≡ none)
      × (unpack_octets size (length array) (array ++ rest) ≡ some (array, rest))
unfolding pack_octet8
octet8_limit size left array rest full =
    let over : leb size (length array) ≡ true = le→leb size (length array) (omega arith) in
    (
      elim (Bool-cases (leb left (length array))) [ inl e ↦ rw e refl | inr e ↦ rw (e, over) refl ],
      unpack_octets-append size array rest (omega arith),
    )
