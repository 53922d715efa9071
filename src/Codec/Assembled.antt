-- ===== src/Codec/Assembled.antt =====
-- The octets of a whole PDU: how `smpp34_pack` puts the parts together.
use libsmpp.Prelude.{
  ℕ, ◌+◌, ◌-◌, ◌≤◌, ◌≡◌, refl, ap, ap₂, sym, ◌∙◌, subst, Option, none, some, some_eq, List, ◌++◌,
  length, drop, arith,
}
use libsmpp.Codec.Rules.{Rules}
use libsmpp.Codec.Checks.{value_dec}
use libsmpp.Codec.Frames.{Part, Frame, frame, header, frame_of}
use libsmpp.Codec.Octets.{◌▹◌, w32, big_endian, pack_word}
use libsmpp.Codec.Fields.{pack_parts, packed_parts}
use libsmpp.Codec.Pdu.{pack_tlvs, Pdu, pack_frame, PduOf, pack_any, smpp34_pack}
use libsmpp.Codec.RoundTrip.{>>=-eq-some, ▹-some}
use libsmpp.Codec.RoundTrip.Words.{pack_word-some}
use libsmpp.Codec.Room.{Fits, ▹-Fits, pack_word-Fits, pack_parts-Fits, pack_tlvs-Fits}

pack_whole-Fits :
    (body : List Part) (tlv : Option Rules) (x : Pdu (frame body tlv))
    → Fits (pack_word w32 value_dec x.0 ▹ pack_parts (header ++ body) x.1 ▹ pack_tlvs tlv x.2)
pack_whole-Fits body tlv x =
    ▹-Fits (pack_word w32 value_dec x.0) (pack_parts (header ++ body) x.1 ▹ pack_tlvs tlv x.2)
      (pack_word-Fits w32 value_dec x.0)
      (▹-Fits (pack_parts (header ++ body) x.1) (pack_tlvs tlv x.2)
        (pack_parts-Fits (header ++ body) x.1) (pack_tlvs-Fits tlv x.2))

-- The first four octets of a PDU, and what stands behind them.
behind_length :
    (v : ℕ) (four ys raw : List ℕ)
    → big_endian w32 v ≡ four
    → four ++ ys ≡ raw
    → (length four ≡ 4) × (length raw ≡ 4 + length ys) × (drop 4 raw ≡ ys)
unfolding big_endian
behind_length v four ys raw e f = rw (sym f, sym e) (refl, omega arith, refl)

pub length-big_endian : (v : ℕ) (xs : List ℕ) → length (big_endian w32 v ++ xs) ≡ 4 + length xs
unfolding big_endian
length-big_endian v xs = omega arith

-- The three parts of a PDU that was packed: the header's first field, the fields and the optional
-- parameters; and what becomes of them.
pub pack_frame-some :
    (body : List Part) (tlv : Option Rules) (size : ℕ) (x x' : Pdu (frame body tlv))
    (octets : List ℕ)
    → pack_frame (frame body tlv) size x ≡ some (octets, x')
    → (ps ts : List ℕ) × (pack_parts (header ++ body) x.1 (size - 4) ≡ some ps)
      × (pack_tlvs tlv x.2 (size - 4 - length ps) ≡ some ts)
      × (4 + length (ps ++ ts) ≤ size)
      × (octets ≡ big_endian w32 (4 + length (ps ++ ts)) ++ (ps ++ ts))
      × (x' ≡ (4 + length (ps ++ ts), packed_parts (header ++ body) x.1, x.2))
unfolding pack_frame
pack_frame-some body tlv size x x' octets h =
    let fields = header ++ body in
    let m = >>=-eq-some _ _ (octets, x') h in
    let a =
      ▹-some (pack_word w32 value_dec x.0) (pack_parts fields x.1 ▹ pack_tlvs tlv x.2) size m.0
        m.1 in
    let b = ▹-some (pack_parts fields x.1) (pack_tlvs tlv x.2) (size - length a.0) a.1 a.3 in
    let w = behind_length x.0 a.0 a.1 m.0 (pack_word-some w32 value_dec x.0 size a.0 a.2).1 a.4 in
    let total : length m.0 ≡ 4 + length (b.0 ++ b.1) =
      w.1 ∙ ap (λ (xs : List ℕ). 4 + length xs) (sym b.4) in
    let behind : drop 4 m.0 ≡ b.0 ++ b.1 = w.2 ∙ sym b.4 in
    let fit = pack_whole-Fits body tlv x size m.0 m.1 in
    let result = some_eq m.2 in
    (
      b.0,
      b.1,
      subst (λ (n : ℕ). pack_parts fields x.1 (size - n) ≡ some b.0) w.0 b.2,
      subst (λ (n : ℕ). pack_tlvs tlv x.2 (size - n - length b.0) ≡ some b.1) w.0 b.3,
      omega (arith, total, fit),
      sym (ap (λ t. t.0) result)
          ∙ ap₂ (λ (n : ℕ) (xs : List ℕ). big_endian w32 n ++ xs) total behind,
      sym (ap (λ t. t.1) result) ∙ ap (λ (n : ℕ). (n, packed_parts fields x.1, x.2)) total,
    )

-- The field `command_length` of a frame's struct.
abbrev frame_length : (f : Frame) → Pdu f → ℕ
frame_length (frame body tlv) x = x.0

pack_frame_room :
    (f : Frame) (size : ℕ) (x x' : Pdu f) (octets : List ℕ)
    → pack_frame f size x ≡ some (octets, x')
    → (length octets ≤ size) × (frame_length f x' ≡ length octets)
pack_frame_room (frame body tlv) size x x' octets h =
    let p = pack_frame-some body tlv size x x' octets h in
    let whole = length-big_endian (4 + length (p.0 ++ p.1)) (p.0 ++ p.1) in
    (rw p.5 (omega (arith, p.4, whole)), rw (p.5, p.6) (sym whole))

-- The same for the struct of a type.
abbrev pub command_length : (f : Option Frame) → PduOf f → ℕ
command_length none x = 0
command_length (some f) x = frame_length f x

pack_any_room :
    (f : Option Frame) (size : ℕ) (x x' : PduOf f) (octets : List ℕ)
    → pack_any f size x ≡ some (octets, x')
    → (length octets ≤ size) × (command_length f x' ≡ length octets)
unfolding pack_any
pack_any_room none size x x' octets h = absurd cc
pack_any_room (some f) size x x' octets h = pack_frame_room f size x x' octets h

-- For every type of PDU, `smpp34_pack` writes no octet behind the end of its buffer, and the length
-- that it leaves in the source is the number of octets that it wrote.
pub smpp34_pack_room :
    (type size : ℕ) (x x' : PduOf (frame_of type)) (octets : List ℕ)
    → smpp34_pack type size x ≡ some (octets, x')
    → (length octets ≤ size) × (command_length (frame_of type) x' ≡ length octets)
unfolding smpp34_pack
smpp34_pack_room type size x x' octets h = pack_any_room (frame_of type) size x x' octets h
