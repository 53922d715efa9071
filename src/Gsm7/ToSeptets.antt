-- ===== src/Gsm7/ToSeptets.antt =====
-- `gsm7_wctomb` of iconv/gsm7.c: one UCS-4 character to one or two septets.
use libsmpp.Prelude.{
  ℕ, ◌/◌, ◌%◌, ◌++◌, Bool, ◌&&◌, ◌||◌, List, [], ◌∷◌, Option, none, some, leb, ◌==◌, if◌then◌else◌,
}

-- The return value: the bytes stored at `r` with their number, or an error code.
pub data Wctomb : Type 0 where
  stored : List ℕ → Wctomb
  ret_iluni ret_toosmall : Wctomb

-- A `case` of a `switch`: the value, and the bytes that its branch stores.
pub record Case : Type 0 where
  pub label : ℕ
  pub bytes : List ℕ

abbrev one : ℕ → ℕ → Case
one c r = record { label = c; bytes = r ∷ [] }

abbrev two : ℕ → ℕ → ℕ → Case
two c r0 r1 = record { label = c; bytes = r0 ∷ r1 ∷ [] }

unfoldable pub switch : ℕ → List Case → Option (List ℕ)
switch s [] = none
switch s (c ∷ cs) = if c.label == s then some c.bytes else switch s cs

-- A branch that stores two bytes returns RET_TOOSMALL unless there is room for them.
unfoldable pub emit : ℕ → List ℕ → Wctomb
emit n [] = stored []
emit n (r ∷ []) = stored (r ∷ [])
emit n (r0 ∷ r1 ∷ rs) = if leb 2 n then stored (r0 ∷ r1 ∷ rs) else ret_toosmall

unfoldable pub emit_case : ℕ → Option (List ℕ) → Wctomb
emit_case n none = ret_iluni
emit_case n (some bytes) = emit n bytes

-- The characters of page 0 that keep their code.
unfoldable pub is_same_code : ℕ → Bool
is_same_code s2 =
    s2 == 0xA
    || s2 == 0xD
    || leb 0x20 s2 && leb s2 0x23
    || leb 0x25 s2 && leb s2 0x3f
    || leb 0x41 s2 && leb s2 0x5A
    || leb 0x61 s2 && leb s2 0x7A

-- The cases of page 0 below 0x80.
abbrev pub ascii_cases : List Case
ascii_cases =
    one 0x24 0x02
    ∷ one 0x40 0x00
    ∷ two 0x5b 0x1b 0x3c
    ∷ two 0x5c 0x1b 0x2f
    ∷ two 0x5d 0x1b 0x3e
    ∷ two 0x5e 0x1b 0x14
    ∷ one 0x5f 0x11
    ∷ two 0x7b 0x1b 0x28
    ∷ two 0x7c 0x1b 0x40
    ∷ two 0x7d 0x1b 0x29
    ∷ two 0x7e 0x1b 0x3d
    ∷ []

-- The cases of page 0 from 0xa3 on, up to the comment on one way mappings.
abbrev pub latin_cases : List Case
latin_cases =
    one 0xa3 0x01
    ∷ one 0xa4 0x24
    ∷ one 0xa5 0x03
    ∷ one 0xa7 0x5f
    ∷ one 0xb0 0x24
    ∷ one 0xbf 0x60
    ∷ one 0xc5 0x0e
    ∷ one 0xc6 0x1c
    ∷ one 0xc7 0x09
    ∷ one 0xc9 0x1f
    ∷ one 0xc4 0x5b
    ∷ one 0xd1 0x5d
    ∷ one 0xd6 0x5c
    ∷ one 0xd8 0x0b
    ∷ one 0xdc 0x5e
    ∷ one 0xdf 0x1e
    ∷ one 0xe0 0x7f
    ∷ one 0xe4 0x7b
    ∷ one 0xe5 0x0f
    ∷ one 0xe6 0x1d
    ∷ one 0xe7 0x09
    ∷ one 0xe8 0x04
    ∷ one 0xe9 0x05
    ∷ one 0xec 0x07
    ∷ one 0xf1 0x7d
    ∷ one 0xf2 0x08
    ∷ one 0xf6 0x7c
    ∷ one 0xf8 0x0c
    ∷ one 0xf9 0x06
    ∷ one 0xfc 0x7e
    ∷ []

-- The one way mappings of page 0: accented letters to plain ones.
abbrev pub latin_one_way_cases : List Case
latin_one_way_cases =
    one 0xc0 0x41
    ∷ one 0xc1 0x41
    ∷ one 0xc2 0x41
    ∷ one 0xc3 0x41
    ∷ one 0xc8 0x45
    ∷ one 0xca 0x45
    ∷ one 0xcb 0x45
    ∷ one 0xcc 0x49
    ∷ one 0xcd 0x49
    ∷ one 0xce 0x49
    ∷ one 0xcf 0x49
    ∷ one 0xd2 0x4f
    ∷ one 0xd3 0x4f
    ∷ one 0xd4 0x4f
    ∷ one 0xd5 0x4f
    ∷ one 0xd9 0x55
    ∷ one 0xda 0x55
    ∷ one 0xdb 0x55
    ∷ one 0xdd 0x59
    ∷ one 0xe1 0x61
    ∷ one 0xe2 0x61
    ∷ one 0xe3 0x61
    ∷ one 0xea 0x65
    ∷ one 0xeb 0x65
    ∷ one 0xed 0x69
    ∷ one 0xee 0x69
    ∷ one 0xef 0x69
    ∷ one 0xf3 0x6f
    ∷ one 0xf4 0x6f
    ∷ one 0xf5 0x6f
    ∷ one 0xfa 0x75
    ∷ one 0xfb 0x75
    ∷ one 0xfd 0x79
    ∷ one 0xff 0x79
    ∷ []

-- The Greek capitals of page 3 that the alphabet has.
abbrev pub greek_cases : List Case
greek_cases =
    one 0x94 0x10
    ∷ one 0xa6 0x12
    ∷ one 0x93 0x13
    ∷ one 0x9b 0x14
    ∷ one 0xa9 0x15
    ∷ one 0xa0 0x16
    ∷ one 0xa8 0x17
    ∷ one 0xa3 0x18
    ∷ one 0x98 0x19
    ∷ one 0x9e 0x1a
    ∷ []

-- The Greek capitals that look like Latin ones.
abbrev pub greek_one_way_cases : List Case
greek_one_way_cases =
    one 0x91 0x41
    ∷ one 0x92 0x42
    ∷ one 0x95 0x45
    ∷ one 0x97 0x48
    ∷ one 0x99 0x49
    ∷ one 0x9a 0x4b
    ∷ one 0x9c 0x4d
    ∷ one 0x9d 0x4e
    ∷ one 0x9f 0x4f
    ∷ one 0xa1 0x50
    ∷ one 0xa4 0x54
    ∷ one 0xa5 0x55
    ∷ one 0xa7 0x58
    ∷ one 0x96 0x5a
    ∷ []

unfoldable pub wctomb_page_0 : ℕ → ℕ → Wctomb
wctomb_page_0 s2 n =
    if is_same_code s2
    then stored (s2 ∷ [])
    else emit_case n (switch s2 (ascii_cases ++ (latin_cases ++ latin_one_way_cases)))

unfoldable pub wctomb_page_3 : ℕ → ℕ → Wctomb
wctomb_page_3 s2 n = emit_case n (switch s2 (greek_cases ++ greek_one_way_cases))

-- The euro sign is the only character of page 0x20.
unfoldable pub wctomb_page_20 : ℕ → ℕ → Wctomb
wctomb_page_20 s2 n = if s2 == 0xac then emit n (0x1b ∷ 0x65 ∷ []) else ret_iluni

-- `s1` is `(wc & 0xff00) >> 8` and `s2` is `wc & 0x00ff`, both stored in an unsigned char.
unfoldable pub gsm7_wctomb : ℕ → ℕ → Wctomb
gsm7_wctomb wc n =
    let s1 = wc / 256 % 256 in
    let s2 = wc % 256 in
    if s1 == 0x00
    then wctomb_page_0 s2 n
    else (if s1 == 0x20
        then wctomb_page_20 s2 n
        else (if s1 == 0x03 then wctomb_page_3 s2 n else ret_iluni))
