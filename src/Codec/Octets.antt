-- ===== src/Codec/Octets.antt =====
-- The macros of smpp34_pack.c and smpp34_unpack.c for one value: U32, U16, U08, C_OCTET, OCTET8 and
-- OCTET16.
use libsmpp.Prelude.{
  ℕ, suc, ◌+◌, ◌-◌, ◌*◌, ◌/◌, ◌%◌, ◌==◌, ltb, leb, if◌then◌else◌, Option, none, some, List, [], ◌∷◌,
  ◌++◌, length, take, drop,
}
use libsmpp.Codec.Checks.{Check, valid}

infixl 5 ◌>>=◌
abbrev pub ◌>>=◌ {ℓ κ} : {A : Type ℓ} {B : Type κ} → Option A → (A → Option B) → Option B
none >>= f = none
some a >>= f = f a

-- What a macro of `smpp34_pack` does with `left` octets of room: it fails, or the octets that it
-- appends at `aux`.
abbrev pub Writer : Type 0
Writer = ℕ → Option (List ℕ)

-- What a macro of `smpp34_unpack` does with the `left` octets at `aux`: it fails, or the value and
-- the octets behind it.
abbrev pub Reader : Type 0 → Type 0
Reader A = List ℕ → Option (A × List ℕ)

-- One macro after another.
unfoldable pub skip : Writer
skip left = some []

infixr 20 ◌▹◌
unfoldable pub ◌▹◌ : Writer → Writer → Writer
(p ▹ q) left = p left >>= λ bs. q (left - length bs) >>= λ cs. some (bs ++ cs)

unfoldable pub give : {A : Type 0} → A → Reader A
give a bs = some (a, bs)

infixr 20 ◌▸◌
unfoldable pub ◌▸◌ : {A B : Type 0} → Reader A → (A → Reader B) → Reader B
(r ▸ k) bs = r bs >>= λ t. k t.0 t.1

pub data Width : Type 0 where
  w08 w16 w32 : Width

-- `htonl`, `htons`, and an octet as it is.
unfoldable pub big_endian : Width → ℕ → List ℕ
big_endian w08 v = v ∷ []
big_endian w16 v = v / 256 ∷ v % 256 ∷ []
big_endian w32 v = v / 16777216 ∷ v / 65536 % 256 ∷ v / 256 % 256 ∷ v % 256 ∷ []

-- U32, U16 and U08 of `smpp34_pack`.
unfoldable pub pack_word : Width → Check → ℕ → Writer
pack_word width check v left =
    if leb left (length (big_endian width v))
    then none
    else (if valid check v then some (big_endian width v) else none)

-- `ntohl` and `ntohs` of the octets that are there.
unfoldable pub take_word : Width → Reader ℕ
take_word w08 (a ∷ bs) = some (a, bs)
take_word w16 (a ∷ b ∷ bs) = some (a * 256 + b, bs)
take_word w32 (a ∷ b ∷ c ∷ d ∷ bs) = some (((a * 256 + b) * 256 + c) * 256 + d, bs)
take_word width bs = none

-- U32, U16 and U08 of `smpp34_unpack`.
unfoldable pub unpack_word : Width → Check → Reader ℕ
unpack_word width check bs = take_word width bs >>= λ t. if valid check t.0 then some t else none

-- What C_OCTET leaves in the field of the source: the text, cut to the size of the field.
unfoldable pub truncated : ℕ → List ℕ → List ℕ
truncated size text = if ltb size (suc (length text)) then take (size - 1) text else text

-- C_OCTET of `smpp34_pack`. `text` is what `strlen` finds in the field; it is longer than the field
-- where that has no NUL.
unfoldable pub pack_c_octet : ℕ → List ℕ → Writer
pack_c_octet size text left =
    if ltb left (suc (length text)) then none else some (truncated size text ++ (0 ∷ []))

-- The octets up to a NUL, and the ones behind it.
unfoldable pub until_nul : Reader (List ℕ)
until_nul [] = none
until_nul (b ∷ bs) =
    let rest = until_nul bs in if b == 0 then some ([], bs) else (rest >>= λ t. some (b ∷ t.0, t.1))

-- C_OCTET of `smpp34_unpack`.
unfoldable pub unpack_c_octet : ℕ → Reader (List ℕ)
unpack_c_octet size bs = until_nul bs >>= λ t. if ltb size (suc (length t.0)) then none else some t

-- OCTET8 of `smpp34_pack`, with the length octet that stands in front of the field.
unfoldable pub pack_octet8 : ℕ → ℕ → List ℕ → Writer
pack_octet8 size len array left =
    if leb left len then none else (if leb size len then none else some (take len array))

-- OCTET16 of `smpp34_pack`.
unfoldable pub pack_octet16 : ℕ → ℕ → List ℕ → Writer
pack_octet16 size len array left =
    if leb left len then none else (if ltb size len then none else some (take len array))

-- OCTET8 and OCTET16 of `smpp34_unpack`.
unfoldable pub unpack_octets : ℕ → ℕ → Reader (List ℕ)
unpack_octets size len bs =
    if ltb (length bs) len
    then none
    else (if ltb size len then none else some (take len bs, drop len bs))
