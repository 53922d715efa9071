-- ===== src/Codec/RoundTrip/Parts.antt =====
-- The fields of a frame, the chains among them included.
use libsmpp.Prelude.{
  ℕ, ◌<◌, ◌≡◌, ◌≢◌, ne→==, refl, Bool, true, ◌&&◌, and_left, and_right, ltb, ltb→lt, List, [], ◌∷◌,
  length, map, reverse_aux, reverse, All, arith,
}
use libsmpp.Codec.Checks.{dest_flag, value_dec}
use libsmpp.Codec.Frames.{Field, u32, u08, c_octet, Part, plain, octet8, dad, udad}
use libsmpp.Codec.Octets.{
  Writer, Reader, give, ◌▸◌, w08, w32, pack_word, unpack_word, unpack_c_octet, truncated,
  unpack_octets, pack_octet8, pack_c_octet,
}
use libsmpp.Codec.Fields.{
  Value, Struct, pack_field, unpack_field, packed_field, pack_struct, unpack_struct, packed_struct,
  sme_fields, Dad, sme_address, distribution_list_name, no_address, udad_fields, pack_dad,
  unpack_address, unpack_dad, packed_dad, pack_chain, unpack_chain, PartValue, pack_part,
  unpack_part, packed_part, Parts, pack_parts, unpack_parts, packed_parts,
}
use libsmpp.Codec.RoundTrip.{Restores, ▸-Restores, give-Restores, skip-Restores}
use libsmpp.Codec.RoundTrip.Words.{pack_word-Restores, pack_c_octet-Restores, pack_octet8-Restores}

-- A field has the width of its C type, and a text has no NUL inside.
abbrev pub IsValue : (f : Field) → Value f → Type 0
IsValue (u32 par check) v = v < 4294967296
IsValue (u08 par check) v = v < 256
IsValue (c_octet par size) text = All (λ b. b ≢ 0) text

abbrev pub IsStruct : (fs : List Field) → Struct fs → Type 0
IsStruct [] x = Unit
IsStruct (f ∷ fs) x = IsValue f x.0 × IsStruct fs x.1

abbrev pub IsDad : Dad → Type 0
IsDad (sme_address x) = IsStruct sme_fields x
IsDad (distribution_list_name text) = All (λ b. b ≢ 0) text
IsDad (no_address flag) = (flag < 256) × (flag ≢ 1) × (flag ≢ 2)

-- The octet in front of an array or a chain counts its elements.
abbrev pub IsPart : (p : Part) → PartValue p → Type 0
IsPart (plain f) v = IsValue f v
IsPart (octet8 count par size) v = (v.0 < 256) × (v.0 ≡ length v.1)
IsPart (dad count par) v = (v.0 < 256) × (v.0 ≡ length v.1) × All IsDad v.1
IsPart (udad count par) v = (v.0 < 256) × (v.0 ≡ length v.1) × All (IsStruct udad_fields) v.1

abbrev pub AreParts : (ps : List Part) → Parts ps → Type 0
AreParts [] x = Unit
AreParts (p ∷ ps) x = IsPart p x.0 × AreParts ps x.1

-- What arrives: the entries of a chain in the opposite order.
abbrev pub received_part : (p : Part) → PartValue p → PartValue p
received_part (plain f) v = v
received_part (octet8 count par size) v = v
received_part (dad count par) v = (v.0, reverse v.1)
received_part (udad count par) v = (v.0, reverse v.1)

abbrev pub received_parts : (ps : List Part) → Parts ps → Parts ps
received_parts [] x = tt
received_parts (p ∷ ps) x = (received_part p x.0, received_parts ps x.1)

-- The arrays of a frame are not empty.
unfoldable pub sized_field : Field → Bool
sized_field (u32 par check) = true
sized_field (u08 par check) = true
sized_field (c_octet par size) = ltb 0 size

unfoldable pub sized_struct : List Field → Bool
sized_struct [] = true
sized_struct (f ∷ fs) = sized_field f && sized_struct fs

unfoldable pub sized_parts : List Part → Bool
sized_parts [] = true
sized_parts (plain f ∷ ps) = sized_field f && sized_parts ps
sized_parts (octet8 count par size ∷ ps) = sized_parts ps
sized_parts (dad count par ∷ ps) = sized_parts ps
sized_parts (udad count par ∷ ps) = sized_parts ps

pack_field-Restores :
    (f : Field) (v : Value f)
    → sized_field f ≡ true
    → IsValue f v
    → Restores (pack_field f v) (unpack_field f) (packed_field f v)
unfolding pack_field unpack_field packed_field sized_field
pack_field-Restores (u32 par check) v sized is = pack_word-Restores w32 check v is
pack_field-Restores (u08 par check) v sized is = pack_word-Restores w08 check v is
pack_field-Restores (c_octet par size) v sized is =
    pack_c_octet-Restores size v (ltb→lt 0 size sized) is

pack_struct-Restores :
    (fs : List Field) (x : Struct fs)
    → sized_struct fs ≡ true
    → IsStruct fs x
    → Restores (pack_struct fs x) (unpack_struct fs) (packed_struct fs x)
unfolding pack_struct unpack_struct packed_struct sized_struct
pack_struct-Restores [] x sized is = skip-Restores tt
pack_struct-Restores (f ∷ fs) x sized is =
    let first = pack_field-Restores f x.0 (and_left _ _ sized) is.0 in
    let rest = pack_struct-Restores fs x.1 (and_right _ _ sized) is.1 in
    ▸-Restores (pack_field f x.0) (pack_struct fs x.1) (unpack_field f)
      (λ v. unpack_struct fs ▸ λ y. give (v, y)) (packed_field f x.0)
      (packed_field f x.0, packed_struct fs x.1) first
      (give-Restores (pack_struct fs x.1) (unpack_struct fs) (λ y. (packed_field f x.0, y))
        (packed_struct fs x.1) rest)

sme_sized : sized_struct sme_fields ≡ true
unfolding sized_struct sized_field
sme_sized = refl

udad_sized : sized_struct udad_fields ≡ true
unfolding sized_struct sized_field
udad_sized = refl

no_address-Restores :
    (flag : ℕ)
    → IsDad (no_address flag)
    → Restores (pack_word w08 dest_flag flag) unpack_dad (no_address flag)
unfolding unpack_dad ◌▸◌ unpack_address give
no_address-Restores flag is left bs rest h =
    rw
      (
        pack_word-Restores w08 dest_flag flag is.0 left bs rest h,
        ne→== flag 1 is.1,
        ne→== flag 2 is.2,
      )
      refl

pack_dad-Restores : (d : Dad) → IsDad d → Restores (pack_dad d) unpack_dad (packed_dad d)
unfolding pack_dad unpack_dad packed_dad
pack_dad-Restores (sme_address x) is =
    ▸-Restores (pack_word w08 dest_flag 1) (pack_struct sme_fields x) (unpack_word w08 dest_flag)
      unpack_address 1 (sme_address (packed_struct sme_fields x))
      (pack_word-Restores w08 dest_flag 1 (omega arith))
      (unfold unpack_address in
        give-Restores (pack_struct sme_fields x) (unpack_struct sme_fields) sme_address
          (packed_struct sme_fields x) (pack_struct-Restores sme_fields x sme_sized is))
pack_dad-Restores (distribution_list_name text) is =
    ▸-Restores (pack_word w08 dest_flag 2) (pack_c_octet 21 text) (unpack_word w08 dest_flag)
      unpack_address 2 (distribution_list_name (truncated 21 text))
      (pack_word-Restores w08 dest_flag 2 (omega arith))
      (unfold unpack_address in
        give-Restores (pack_c_octet 21 text) (unpack_c_octet 21) distribution_list_name
          (truncated 21 text) (pack_c_octet-Restores 21 text (omega arith) is))
pack_dad-Restores (no_address flag) is = no_address-Restores flag is

pack_chain-Restores :
    {A : Type 0} (w : A → Writer) (r : Reader A) (packed : A → A) (Is : A → Type 0)
    → ((a : A) → Is a → Restores (w a) r (packed a))
    → (xs chain : List A) → All Is xs
    → Restores
        (pack_chain w xs)
        (unpack_chain r (length xs) chain)
        (reverse_aux (map packed xs) chain)
unfolding pack_chain unpack_chain
pack_chain-Restores w r packed Is each [] chain is = skip-Restores chain
pack_chain-Restores w r packed Is each (x ∷ xs) chain is =
    ▸-Restores (w x) (pack_chain w xs) r (λ y. unpack_chain r (length xs) (y ∷ chain)) (packed x)
      (reverse_aux (map packed xs) (packed x ∷ chain)) (each x is.0)
      (pack_chain-Restores w r packed Is each xs (packed x ∷ chain) is.1)

pack_part-Restores :
    (p : Part) (v : PartValue p)
    → sized_parts (p ∷ []) ≡ true
    → IsPart p v
    → Restores (pack_part p v) (unpack_part p) (received_part p (packed_part p v))
unfolding pack_part unpack_part packed_part sized_parts
pack_part-Restores (plain f) v sized is = pack_field-Restores f v (and_left _ _ sized) is
pack_part-Restores (octet8 count par size) v sized is =
    ▸-Restores (pack_word w08 value_dec v.0) (pack_octet8 size v.0 v.1) (unpack_word w08 value_dec)
      (λ len. unpack_octets size len ▸ λ array. give (len, array)) v.0 v
      (pack_word-Restores w08 value_dec v.0 is.0)
      (give-Restores (pack_octet8 size v.0 v.1) (unpack_octets size v.0) (λ array. (v.0, array)) v.1
        (rw is.1 (pack_octet8-Restores size v.1)))
pack_part-Restores (dad count par) v sized is =
    ▸-Restores (pack_word w08 value_dec v.0) (pack_chain pack_dad v.1) (unpack_word w08 value_dec)
      (λ n. unpack_chain unpack_dad n [] ▸ λ chain. give (n, chain)) v.0
      (v.0, reverse (map packed_dad v.1)) (pack_word-Restores w08 value_dec v.0 is.0)
      (give-Restores (pack_chain pack_dad v.1) (unpack_chain unpack_dad v.0 []) (λ c. (v.0, c))
        (reverse (map packed_dad v.1))
        (rw is.1
          (pack_chain-Restores pack_dad unpack_dad packed_dad IsDad pack_dad-Restores v.1 [] is.2)))
pack_part-Restores (udad count par) v sized is =
    ▸-Restores (pack_word w08 value_dec v.0) (pack_chain (pack_struct udad_fields) v.1)
      (unpack_word w08 value_dec)
      (λ n. unpack_chain (unpack_struct udad_fields) n [] ▸ λ chain. give (n, chain)) v.0
      (v.0, reverse (map (packed_struct udad_fields) v.1))
      (pack_word-Restores w08 value_dec v.0 is.0)
      (give-Restores (pack_chain (pack_struct udad_fields) v.1)
        (unpack_chain (unpack_struct udad_fields) v.0 []) (λ c. (v.0, c))
        (reverse (map (packed_struct udad_fields) v.1))
        (rw is.1 (
          pack_chain-Restores (pack_struct udad_fields) (unpack_struct udad_fields)
            (packed_struct udad_fields) (IsStruct udad_fields)
            (λ x. pack_struct-Restores udad_fields x udad_sized) v.1 [] is.2)))

-- Of a list of parts, the first and the others.
sized_first :
    (p : Part) (ps : List Part) → sized_parts (p ∷ ps) ≡ true → sized_parts (p ∷ []) ≡ true
unfolding sized_parts
sized_first (plain f) ps h = rw (and_left (sized_field f) (sized_parts ps) h) refl
sized_first (octet8 count par size) ps h = refl
sized_first (dad count par) ps h = refl
sized_first (udad count par) ps h = refl

sized_others : (p : Part) (ps : List Part) → sized_parts (p ∷ ps) ≡ true → sized_parts ps ≡ true
unfolding sized_parts
sized_others (plain f) ps h = and_right _ _ h
sized_others (octet8 count par size) ps h = h
sized_others (dad count par) ps h = h
sized_others (udad count par) ps h = h

pub pack_parts-Restores :
    (ps : List Part) (x : Parts ps)
    → sized_parts ps ≡ true
    → AreParts ps x
    → Restores (pack_parts ps x) (unpack_parts ps) (received_parts ps (packed_parts ps x))
unfolding pack_parts unpack_parts packed_parts
pack_parts-Restores [] x sized is = skip-Restores tt
pack_parts-Restores (p ∷ ps) x sized is =
    let v = received_part p (packed_part p x.0) in
    let y = received_parts ps (packed_parts ps x.1) in
    ▸-Restores (pack_part p x.0) (pack_parts ps x.1) (unpack_part p)
      (λ v. unpack_parts ps ▸ λ y. give (v, y)) v (v, y)
      (pack_part-Restores p x.0 (sized_first p ps sized) is.0)
      (give-Restores (pack_parts ps x.1) (unpack_parts ps) (λ z. (v, z)) y
        (pack_parts-Restores ps x.1 (sized_others p ps sized) is.1))
