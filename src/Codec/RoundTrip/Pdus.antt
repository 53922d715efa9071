-- ===== src/Codec/RoundTrip/Pdus.antt =====
-- Whole PDUs: `smpp34_unpack` after `smpp34_pack`.
use libsmpp.Prelude.{
  ℕ, ◌+◌, ◌-◌, ◌<◌, ◌≡◌, ◌==◌, ==_iff, refl, ap, ◌∙◌, subst, Bool, some_eq, true, false, ◌&&◌,
  and_left, and_right, if◌then◌else◌, Option, none, some, List, [], ◌∷◌, ◌++◌, append_assoc, length,
  length-append, arith,
}
use libsmpp.Codec.Checks.{valid, value_dec}
use libsmpp.Codec.Rules.{Rules}
use libsmpp.Codec.Frames.{Part, Frame, frame, header, frame_of, first_of, protocol}
use libsmpp.Codec.Octets.{w32, big_endian, unpack_word}
use libsmpp.Codec.Fields.{Parts, unpack_parts}
use libsmpp.Codec.Pdu.{
  Tlvs, unpack_optional, Pdu, pack_frame, unpack_frame, PduOf, pack_any, unpack_any, smpp34_pack,
  smpp34_unpack,
}
use libsmpp.Codec.Assembled.{pack_frame-some, length-big_endian}
use libsmpp.Codec.RoundTrip.Words.{take_word-big_endian}
use libsmpp.Codec.RoundTrip.Parts.{
  AreParts, received_parts, sized_field, sized_parts, pack_parts-Restores,
}
use libsmpp.Codec.RoundTrip.Tlvs.{AreTlvs, received_tlvs, pack_tlvs-optional}

-- A struct whose fields have their C types, and whose counts are right.
abbrev pub IsPdu : (f : Frame) → Pdu f → Type 0
IsPdu (frame body tlv) x = AreParts (header ++ body) x.1 × AreTlvs tlv x.2

abbrev pub received_pdu : (f : Frame) → Pdu f → Pdu f
received_pdu (frame body tlv) x = (x.0, received_parts (header ++ body) x.1, received_tlvs tlv x.2)

unfoldable sized_frame : Frame → Bool
sized_frame (frame body tlv) = sized_parts (header ++ body)

length_word :
    (n : ℕ) (bs : List ℕ)
    → n < 4294967296
    → unpack_word w32 value_dec (big_endian w32 n ++ bs) ≡ some (n, bs)
unfolding unpack_word valid
length_word n bs small = rw (take_word-big_endian w32 n bs small) refl

same_length : (n m : ℕ) → n ≡ m → (n == m) ≡ true
same_length n m e = (==_iff n m).1 e

-- The steps of `smpp34_unpack`, for a PDU of `n` octets.
unpack_frame_steps :
    (body : List Part) (tlv : Option Rules) (n : ℕ) (bs fields optional rest : List ℕ)
    (y : Parts (header ++ body)) (chain : Tlvs tlv)
    → length bs ≡ n + length rest
    → unpack_word w32 value_dec bs ≡ some (n, fields)
    → unpack_parts (header ++ body) fields ≡ some (y, optional)
    → unpack_optional tlv (n + length rest) n optional ≡ some (chain, rest)
    → unpack_frame (frame body tlv) bs ≡ some (n, y, chain)
unfolding unpack_frame
unpack_frame_steps body tlv n bs fields optional rest y chain total first second third =
    rw (first, second, total, third, same_length n (n + length rest - length rest) (omega arith))
      refl

unpack_frame-parts :
    (body : List Part) (tlv : Option Rules) (ps ts rest : List ℕ) (y : Parts (header ++ body))
    (chain : Tlvs tlv)
    → 4 + length (ps ++ ts) < 4294967296
    → unpack_parts (header ++ body) (ps ++ (ts ++ rest)) ≡ some (y, ts ++ rest)
    → unpack_optional tlv (4 + length (ps ++ ts) + length rest) (4 + length (ps ++ ts)) (ts ++ rest)
      ≡ some (chain, rest)
    → unpack_frame (frame body tlv) ((big_endian w32 (4 + length (ps ++ ts)) ++ (ps ++ ts)) ++ rest)
      ≡ some (4 + length (ps ++ ts), y, chain)
unpack_frame-parts body tlv ps ts rest y chain small fields optional =
    let n = 4 + length (ps ++ ts) in
    let word = big_endian w32 n in
    let first : unpack_word w32 value_dec ((word ++ (ps ++ ts)) ++ rest)
        ≡ some (n, ps ++ (ts ++ rest)) =
      ap (λ (xs : List ℕ). unpack_word w32 value_dec xs)
        (append_assoc word (ps ++ ts) rest
          ∙ ap (λ (xs : List ℕ). word ++ xs) (append_assoc ps ts rest))
      ∙ length_word n (ps ++ (ts ++ rest)) small in
    unpack_frame_steps body tlv n ((word ++ (ps ++ ts)) ++ rest) (ps ++ (ts ++ rest)) (ts ++ rest)
      rest y chain
      (omega (arith, length-append (word ++ (ps ++ ts)) rest, length-big_endian n (ps ++ ts))) first
      fields optional

unpack_frame-pack_frame :
    (f : Frame) (size : ℕ) (x x' : Pdu f) (octets rest : List ℕ)
    → sized_frame f ≡ true
    → IsPdu f x
    → size < 4294967296
    → pack_frame f size x ≡ some (octets, x')
    → unpack_frame f (octets ++ rest) ≡ some (received_pdu f x')
unfolding sized_frame
unpack_frame-pack_frame (frame body tlv) size x x' octets rest sized is small h =
    let p = pack_frame-some body tlv size x x' octets h in
    let fields =
      pack_parts-Restores (header ++ body) x.1 sized is.0 (size - 4) p.0 (p.1 ++ rest) p.2 in
    let optional =
      pack_tlvs-optional tlv x.2 (4 + length (p.0 ++ p.1)) (size - 4 - length p.0) p.1 rest is.1
        (omega (arith, length-append p.0 p.1)) p.3 in
    rw (p.5, p.6)
      (unpack_frame-parts body tlv p.0 p.1 rest _ _ (omega (arith, p.4)) fields optional)

-- Every frame of the protocol has room for its texts.
all_sized : List (ℕ × Frame) → Bool
all_sized [] = true
all_sized (c ∷ cases) = sized_frame c.1 && all_sized cases

protocol_sized : all_sized protocol ≡ true
unfolding all_sized sized_frame sized_parts sized_field
protocol_sized = refl

chosen_sized :
    (b : Bool) (g f : Frame) (others : Option Frame)
    → sized_frame g ≡ true
    → (others ≡ some f → sized_frame f ≡ true)
    → (if b then some g else others) ≡ some f
    → sized_frame f ≡ true
chosen_sized true g f others here there h =
    subst (λ (c : Frame). sized_frame c ≡ true) (some_eq h) here
chosen_sized false g f others here there h = there h

first_of-sized :
    (cases : List (ℕ × Frame)) (type : ℕ) (f : Frame)
    → all_sized cases ≡ true
    → first_of cases type ≡ some f
    → sized_frame f ≡ true
unfolding all_sized
first_of-sized [] type f all h = absurd cc
first_of-sized (c ∷ cases) type f all h =
    chosen_sized (type == c.0) c.1 f (first_of cases type) (and_left _ _ all)
      (first_of-sized cases type f (and_right _ _ all)) h

-- The same for the struct of a type.
abbrev pub IsPduOf : (f : Option Frame) → PduOf f → Type 0
IsPduOf none x = Unit
IsPduOf (some f) x = IsPdu f x

abbrev pub received : (f : Option Frame) → PduOf f → PduOf f
received none x = x
received (some f) x = received_pdu f x

unpack_any-pack_any :
    (f : Option Frame) (size : ℕ) (x x' : PduOf f) (octets rest : List ℕ)
    → ((g : Frame) → f ≡ some g → sized_frame g ≡ true)
    → IsPduOf f x
    → size < 4294967296
    → pack_any f size x ≡ some (octets, x')
    → unpack_any f (octets ++ rest) ≡ some (received f x')
unfolding pack_any unpack_any
unpack_any-pack_any none size x x' octets rest sized is small h = absurd cc
unpack_any-pack_any (some f) size x x' octets rest sized is small h =
    unpack_frame-pack_frame f size x x' octets rest (sized f refl) is small h

-- For every type of PDU, `smpp34_unpack` reads back what `smpp34_pack` wrote from a struct whose
-- fields have their C types and whose counts are right, whatever octets follow: it gives the struct
-- as `smpp34_pack` left it, with every chain in the opposite order.
pub smpp34_unpack-pack :
    (type size : ℕ) (x x' : PduOf (frame_of type)) (octets rest : List ℕ)
    → IsPduOf (frame_of type) x
    → size < 4294967296
    → smpp34_pack type size x ≡ some (octets, x')
    → smpp34_unpack type (octets ++ rest) ≡ some (received (frame_of type) x')
unfolding smpp34_pack smpp34_unpack frame_of
smpp34_unpack-pack type size x x' octets rest is small h =
    unpack_any-pack_any (frame_of type) size x x' octets rest
      (λ g e. first_of-sized protocol type g protocol_sized e) is small h
