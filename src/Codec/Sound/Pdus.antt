-- ===== src/Codec/Sound/Pdus.antt =====
-- The optional parameters and whole PDUs.
use libsmpp.Prelude.{
  ℕ, zero, suc, ◌-◌, ◌≤◌, ◌≡◌, ◌==◌, ==_iff, if-cases, subst, ltb, inl, inr, Option, none, some,
  some_eq, List, [], ◌∷◌, ◌++◌, length, All, arith,
}
use libsmpp.Codec.Checks.{value_dec, tlv_id}
use libsmpp.Codec.Rules.{Kind, val08, val16, val32, octet, Rules, kind_of}
use libsmpp.Codec.Frames.{Frame, frame, header, frame_of}
use libsmpp.Codec.Octets.{give, w08, w16, w32, unpack_word}
use libsmpp.Codec.Fields.{unpack_parts}
use libsmpp.Codec.Pdu.{
  Tlv, unpack_tlv_value, unpack_tlv, unpack_tlvs, unpack_optional, Pdu, unpack_frame, PduOf,
  unpack_any, smpp34_unpack,
}
use libsmpp.Codec.Assembled.{command_length}
use libsmpp.Codec.RoundTrip.{>>=-eq-some}
use libsmpp.Codec.RoundTrip.Words.{guard_true, guard_false}
use libsmpp.Codec.Fitting.{AreOctets, IsWord, FitsTlvValue, FitsTlv, FitsTlvs, FitsPdu, FitsPduOf}
use libsmpp.Codec.Accepted.{
  Yields, landed, give-Yields, ▸-Yields, unpack_word-Yields, unpack_octets-Yields,
}
use libsmpp.Codec.Sound.{unpack_parts-Yields}

unpack_tlv_value-Yields :
    (k : Kind) (len : ℕ) → Yields (unpack_tlv_value k len) (λ v. FitsTlvValue k len v)
unfolding unpack_tlv_value
unpack_tlv_value-Yields val08 len = unpack_word-Yields w08 value_dec
unpack_tlv_value-Yields val16 len = unpack_word-Yields w16 value_dec
unpack_tlv_value-Yields val32 len = unpack_word-Yields w32 value_dec
unpack_tlv_value-Yields (octet size) len = unpack_octets-Yields size len

module _ (rules : Rules) where
  unpack_tlv-Yields : Yields (unpack_tlv rules) (λ t. FitsTlv rules t)
  unfolding unpack_tlv
  unpack_tlv-Yields =
      ▸-Yields (unpack_word w16 tlv_id) _ (IsWord w16 tlv_id) (λ t. FitsTlv rules t)
        (unpack_word-Yields w16 tlv_id)
        (λ tag p.
          ▸-Yields (unpack_word w16 value_dec) _ (IsWord w16 value_dec) (λ t. FitsTlv rules t)
            (unpack_word-Yields w16 value_dec)
            (λ len q.
              ▸-Yields (unpack_tlv_value (kind_of rules tag) len) (λ value. give (tag, len, value))
                (λ v. FitsTlvValue (kind_of rules tag) len v) (λ t. FitsTlv rules t)
                (unpack_tlv_value-Yields (kind_of rules tag) len)
                (λ value r. give-Yields (λ t. FitsTlv rules t) (tag, len, value) (p, q, r))))

  unpack_tlvs-Yields :
      (total command_length fuel : ℕ) (chain : List (Tlv rules))
      → All (FitsTlv rules) chain
      → Yields (unpack_tlvs rules total command_length fuel chain) (λ ts. All (FitsTlv rules) ts)
  unfolding unpack_tlvs
  unpack_tlvs-Yields total command_length zero chain all bs rest ts octets h =
      let e = guard_false (ltb (total - length bs) command_length) _ (ts, rest) h in
      landed (λ ts. All (FitsTlv rules) ts) chain ts bs rest (length bs) all octets (omega arith)
        e.1
  unpack_tlvs-Yields total command_length (suc fuel) chain all bs rest ts octets h =
      elim (if-cases (ltb (total - length bs) command_length) _ (some (chain, bs)) (some (ts, rest))
        h) [
          | inl p ↦
              let m = >>=-eq-some (unpack_tlv rules bs) _ (ts, rest) p.1 in
              let q = unpack_tlv-Yields bs m.0.1 m.0.0 octets m.1 in
              let r =
                unpack_tlvs-Yields total command_length fuel (m.0.0 ∷ chain) (q.0, all) m.0.1 rest
                  ts q.1 m.2 in
              (r.0, r.1, omega (arith, q.2, r.2))
          | inr p ↦
              landed (λ ts. All (FitsTlv rules) ts) chain ts bs rest (length bs) all octets
                (omega arith) p.1
        ]

unpack_optional-Yields :
    (tlv : Option Rules) (total command_length : ℕ)
    → Yields (unpack_optional tlv total command_length) (λ chain. FitsTlvs tlv chain)
unfolding unpack_optional
unpack_optional-Yields none total command_length bs rest chain octets h =
    landed (λ chain. FitsTlvs none chain) tt chain bs rest (length bs) tt octets (omega arith) h
unpack_optional-Yields (some rules) total command_length bs rest chain octets h =
    unpack_tlvs-Yields rules total command_length (length bs) [] tt bs rest chain octets h

unpack_any-FitsPduOf :
    (f : Option Frame) (bs : List ℕ) (y : PduOf f)
    → AreOctets bs
    → unpack_any f bs ≡ some y
    → FitsPduOf f y × (command_length f y ≤ length bs)
unfolding unpack_any unpack_frame
unpack_any-FitsPduOf none bs y octets h = absurd cc
unpack_any-FitsPduOf (some (frame body tlv)) bs y octets h =
    let l = >>=-eq-some (unpack_word w32 value_dec bs) _ y h in
    let p = >>=-eq-some (unpack_parts (header ++ body) l.0.1) _ y l.2 in
    let t = >>=-eq-some (unpack_optional tlv (length bs) l.0.0 p.0.1) _ y p.2 in
    let e = guard_true (l.0.0 == length bs - length t.0.1) (some (l.0.0, p.0.0, t.0.0)) y t.2 in
    let word = unpack_word-Yields w32 value_dec bs l.0.1 l.0.0 octets l.1 in
    let parts = unpack_parts-Yields (header ++ body) l.0.1 p.0.1 p.0.0 word.1 p.1 in
    let chain = unpack_optional-Yields tlv (length bs) l.0.0 p.0.1 t.0.1 t.0.0 parts.1 t.1 in
    subst (λ (z : Pdu (frame body tlv)). FitsPdu (frame body tlv) z × (z.0 ≤ length bs))
      (some_eq e.1)
      ((parts.0, chain.0), omega (arith, (==_iff l.0.0 (length bs - length t.0.1)).0 e.0))

-- For every type of PDU, what `smpp34_unpack` accepts from a buffer of octets is a struct that fits the
-- frame: a number fits its C type and passes the check of its field, a text fits its array with the
-- NUL and has no other, an array is not longer than its field, and every count is right. Its length is
-- not more than was given.
pub smpp34_unpack-FitsPduOf :
    (type : ℕ) (bs : List ℕ) (y : PduOf (frame_of type))
    → AreOctets bs
    → smpp34_unpack type bs ≡ some y
    → FitsPduOf (frame_of type) y × (command_length (frame_of type) y ≤ length bs)
unfolding smpp34_unpack
smpp34_unpack-FitsPduOf type bs y octets h = unpack_any-FitsPduOf (frame_of type) bs y octets h
