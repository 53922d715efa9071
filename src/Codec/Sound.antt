-- ===== src/Codec/Sound.antt =====
-- What `smpp34_unpack` accepts fits its frame.
pub mod Pdus
use libsmpp.Prelude.{
  ℕ, zero, suc, ◌+◌, ◌-◌, ◌≤◌, ◌<◌, ◌≡◌, ◌≢◌, ◌==◌, ==_iff, ==→ne, if-cases, refl, sym, ap, ◌∙◌,
  subst, ltb, if◌then◌else◌, inl, inr, Bool, true, false, Option, none, some, some_eq, List, [],
  ◌∷◌, ◌++◌, length, All, arith, reverse_aux,
}
use libsmpp.Codec.Checks.{value_dec, dest_flag, tlv_id}
use libsmpp.Codec.Rules.{Kind, val08, val16, val32, octet, Rules, kind_of}
use libsmpp.Codec.Frames.{
  Field, u32, u08, c_octet, Part, plain, octet8, dad, udad, Frame, frame, header, frame_of,
}
use libsmpp.Codec.Octets.{
  ◌>>=◌, Reader, give, ◌▸◌, w08, w16, w32, unpack_word, unpack_c_octet, unpack_octets,
}
use libsmpp.Codec.Fields.{
  Value, Struct, unpack_field, unpack_struct, sme_fields, Dad, sme_address, distribution_list_name,
  no_address, udad_fields, unpack_address, unpack_dad, unpack_chain, PartValue, unpack_part, Parts,
  unpack_parts,
}
use libsmpp.Codec.RoundTrip.{>>=-eq-some}
use libsmpp.Codec.Fitting.{
  IsWord, IsText, IsArray, FitsValue, FitsStruct, FitsDad, FitsPart, FitsParts,
}
use libsmpp.Codec.Accepted.{
  Yields, if-Yields, give-Yields, ▸-Yields, unpack_word-Yields, unpack_c_octet-Yields,
  unpack_octets-Yields,
}

unpack_field-Yields : (f : Field) → Yields (unpack_field f) (λ v. FitsValue f v)
unfolding unpack_field
unpack_field-Yields (u32 par check) = unpack_word-Yields w32 check
unpack_field-Yields (u08 par check) = unpack_word-Yields w08 check
unpack_field-Yields (c_octet par size) = unpack_c_octet-Yields size

unpack_struct-Yields : (fs : List Field) → Yields (unpack_struct fs) (λ x. FitsStruct fs x)
unfolding unpack_struct
unpack_struct-Yields [] = give-Yields (λ x. FitsStruct [] x) tt tt
unpack_struct-Yields (f ∷ fs) =
    ▸-Yields (unpack_field f) _ (λ v. FitsValue f v) (λ x. FitsStruct (f ∷ fs) x)
      (unpack_field-Yields f)
      (λ v p.
        ▸-Yields (unpack_struct fs) (λ x. give (v, x)) (λ x. FitsStruct fs x)
          (λ x. FitsStruct (f ∷ fs) x) (unpack_struct-Yields fs)
          (λ x q. give-Yields (λ y. FitsStruct (f ∷ fs) y) (v, x) (p, q)))

unpack_address-Yields :
    (flag : ℕ) → IsWord w08 dest_flag flag → Yields (unpack_address flag) FitsDad
unfolding unpack_address
unpack_address-Yields flag small =
    if-Yields (flag == 1) _ _ FitsDad
      (λ e.
        ▸-Yields (unpack_struct sme_fields) (λ x. give (sme_address x))
          (λ x. FitsStruct sme_fields x) FitsDad (unpack_struct-Yields sme_fields)
          (λ x p. give-Yields FitsDad (sme_address x) p))
      (λ e.
        if-Yields (flag == 2) _ _ FitsDad
          (λ f.
            ▸-Yields (unpack_c_octet 21) (λ text. give (distribution_list_name text)) (IsText 21)
              FitsDad (unpack_c_octet-Yields 21)
              (λ text p. give-Yields FitsDad (distribution_list_name text) p))
          (λ f. give-Yields FitsDad (no_address flag) (small, ==→ne flag 1 e, ==→ne flag 2 f)))

unpack_dad-Yields : Yields unpack_dad FitsDad
unfolding unpack_dad
unpack_dad-Yields =
    ▸-Yields (unpack_word w08 dest_flag) unpack_address (IsWord w08 dest_flag) FitsDad
      (unpack_word-Yields w08 dest_flag) unpack_address-Yields

unpack_chain-Yields :
    {A : Type 0} (r : Reader A) (P : A → Type 0)
    → Yields r P
    → (n : ℕ) (chain : List A) → All P chain
    → Yields (unpack_chain r n chain) (λ xs. All P xs × (length xs ≡ n + length chain))
unfolding unpack_chain
unpack_chain-Yields r P each zero chain all =
    give-Yields (λ xs. All P xs × (length xs ≡ 0 + length chain)) chain (all, omega arith)
unpack_chain-Yields r P each (suc n) chain all =
    ▸-Yields r _ P (λ xs. All P xs × (length xs ≡ suc n + length chain)) each
      (λ x p bs rest xs octets h.
        let q = unpack_chain-Yields r P each n (x ∷ chain) (p, all) bs rest xs octets h in
        ((q.0.0, omega (arith, q.0.1)), q.1, q.2))

unpack_part-Yields : (p : Part) → Yields (unpack_part p) (λ v. FitsPart p v)
unfolding unpack_part
unpack_part-Yields (plain f) = unpack_field-Yields f
unpack_part-Yields (octet8 count par size) =
    ▸-Yields (unpack_word w08 value_dec) _ (IsWord w08 value_dec)
      (λ v. FitsPart (octet8 count par size) v) (unpack_word-Yields w08 value_dec)
      (λ len p.
        ▸-Yields (unpack_octets size len) (λ array. give (len, array)) (IsArray size len)
          (λ v. FitsPart (octet8 count par size) v) (unpack_octets-Yields size len)
          (λ array q. give-Yields (λ v. FitsPart (octet8 count par size) v) (len, array) (p, q)))
unpack_part-Yields (dad count par) =
    ▸-Yields (unpack_word w08 value_dec) _ (IsWord w08 value_dec) (λ v. FitsPart (dad count par) v)
      (unpack_word-Yields w08 value_dec)
      (λ n p.
        ▸-Yields (unpack_chain unpack_dad n []) (λ chain. give (n, chain))
          (λ xs. All FitsDad xs × (length xs ≡ n + 0)) (λ v. FitsPart (dad count par) v)
          (unpack_chain-Yields unpack_dad FitsDad unpack_dad-Yields n [] tt)
          (λ xs q.
            give-Yields (λ v. FitsPart (dad count par) v) (n, xs) (p, omega (arith, q.1), q.0)))
unpack_part-Yields (udad count par) =
    ▸-Yields (unpack_word w08 value_dec) _ (IsWord w08 value_dec) (λ v. FitsPart (udad count par) v)
      (unpack_word-Yields w08 value_dec)
      (λ n p.
        ▸-Yields (unpack_chain (unpack_struct udad_fields) n []) (λ chain. give (n, chain))
          (λ xs. All (λ x. FitsStruct udad_fields x) xs × (length xs ≡ n + 0))
          (λ v. FitsPart (udad count par) v)
          (unpack_chain-Yields (unpack_struct udad_fields) (λ x. FitsStruct udad_fields x)
            (unpack_struct-Yields udad_fields) n [] tt)
          (λ xs q.
            give-Yields (λ v. FitsPart (udad count par) v) (n, xs) (p, omega (arith, q.1), q.0)))

pub unpack_parts-Yields : (ps : List Part) → Yields (unpack_parts ps) (λ x. FitsParts ps x)
unfolding unpack_parts
unpack_parts-Yields [] = give-Yields (λ x. FitsParts [] x) tt tt
unpack_parts-Yields (p ∷ ps) =
    ▸-Yields (unpack_part p) _ (λ v. FitsPart p v) (λ x. FitsParts (p ∷ ps) x)
      (unpack_part-Yields p)
      (λ v a.
        ▸-Yields (unpack_parts ps) (λ x. give (v, x)) (λ x. FitsParts ps x)
          (λ x. FitsParts (p ∷ ps) x) (unpack_parts-Yields ps)
          (λ x b. give-Yields (λ y. FitsParts (p ∷ ps) y) (v, x) (a, b)))
