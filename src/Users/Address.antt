-- ===== src/Users/Address.antt =====
-- The addresses of a user: `ExplicitUserAddress`, `RangeUserAddress` and `SMPPUser::ownsAddress`.
use libsmpp.Prelude.{
  ℕ, ◌+◌, ◌-◌, ◌*◌, ◌%◌, ◌^◌, ◌==◌, ltb, leb, min, if◌then◌else◌, Bool, true, false, ◌&&◌, ◌||◌,
  List, [], ◌∷◌, length, Option, none, some,
}

-- A `std::string`, by its octets.
abbrev pub Text : Type 0
Text = List ℕ

unfoldable pub text_eq : Text → Text → Bool
text_eq [] [] = true
text_eq [] (d ∷ t) = false
text_eq (c ∷ s) [] = false
text_eq (c ∷ s) (d ∷ t) = c == d && text_eq s t

-- `operator>` of strings.
unfoldable pub text_gt : Text → Text → Bool
text_gt [] t = false
text_gt (c ∷ s) [] = true
text_gt (c ∷ s) (d ∷ t) = ltb d c || (c == d && text_gt s t)

-- `isspace` and `isdigit` in the C locale.
unfoldable pub is_space : ℕ → Bool
is_space c = c == 32 || (leb 9 c && leb c 13)

unfoldable pub is_digit : ℕ → Bool
is_digit c = leb b'0' c && leb c b'9'

unfoldable pub skip_spaces : Text → Text
skip_spaces [] = []
skip_spaces (c ∷ s) = if is_space c then skip_spaces s else c ∷ s

-- The value of the leading digits, behind `acc`, and the text behind them.
unfoldable pub digits : ℕ → Text → ℕ × Text
digits acc [] = (acc, [])
digits acc (c ∷ s) = if is_digit c then digits (acc * 10 + (c - b'0')) s else (acc, c ∷ s)

-- A sign, and whether it is a minus.
unfoldable pub sign : Text → Bool × Text
sign [] = (false, [])
sign (c ∷ s) = if c == b'-' then (true, s) else (if c == b'+' then (false, s) else (false, c ∷ s))

unfoldable pub starts_with_digit : Text → Bool
starts_with_digit [] = false
starts_with_digit (c ∷ s) = is_digit c

-- A `long` of 64 bits, cut to `int`: as the residue modulo 2 ^ 32. `strtol` stops at LONG_MAX and
-- LONG_MIN.
unfoldable pub to_int : Bool → ℕ → ℕ
to_int false n = min n (2 ^ 63 - 1) % 2 ^ 32
to_int true n = (2 ^ 64 - min n (2 ^ 63)) % 2 ^ 32

-- `(int)strtol(s, &end, 10)` with the text at `end`. Without a digit it is 0, and `end` is `s`.
unfoldable pub strtol : Text → ℕ × Text
strtol s =
    let signed = sign (skip_spaces s) in
    let number = digits 0 signed.1 in
    if starts_with_digit signed.1 then (to_int signed.0 number.0, number.1) else (0, s)

unfoldable pub atoi : Text → ℕ
atoi s = (strtol s).0

-- `<=` of two `int`s, by their residues.
unfoldable pub int_le : ℕ → ℕ → Bool
int_le a b = leb ((a + 2 ^ 31) % 2 ^ 32) ((b + 2 ^ 31) % 2 ^ 32)

unfoldable pub is_empty : Text → Bool
is_empty [] = true
is_empty (c ∷ s) = false

-- `UserAddress`, by its two derived classes.
pub data UserAddress : Type 0 where
  explicit : Text → UserAddress
  range : Text → Text → UserAddress

unfoldable pub matches : UserAddress → Text → Bool
matches (explicit own) address = text_eq address own
matches (range start end) address =
    let parsed = strtol address in
    if ltb (length address) (length start) || ltb (length end) (length address)
    then false
    else (if is_empty parsed.1
        then int_le (atoi start) parsed.0 && int_le parsed.0 (atoi end)
        else false)

unfoldable pub owns_address : List UserAddress → Text → Bool
owns_address [] address = false
owns_address (a ∷ addresses) address = matches a address || owns_address addresses address

-- The set of addresses of a bind request: 2000-2999|4000. Splitting a text at a separator and
-- `lexical_cast` to `int` are Boost's.
module _ (split : ℕ → Text → List Text) (is_int : Text → Bool) where
  -- One element of the set, or `none` where the request is rejected.
  unfoldable pub parse_address : Text → Option UserAddress
  parse_address it = elim (split b'-' it) [
    | start ∷ [] ↦ some (explicit it)
    | start ∷ end ∷ [] ↦
        if text_gt start end
        then none
        else (if is_int start && is_int end then some (range start end) else none)
    | _ ↦ none
  ]

  unfoldable pub parse_all : List Text → Option (List UserAddress)
  parse_all [] = some []
  parse_all (it ∷ rest) = elim (parse_address it) [
    | none ↦ none
    | some a ↦ elim (parse_all rest) [ none ↦ none | some others ↦ some (a ∷ others) ]
  ]

  unfoldable pub parse_addresses : Text → Option (List UserAddress)
  parse_addresses user_addresses = parse_all (split b'|' user_addresses)
