-- ===== src/Gsm7/FromSeptets.antt =====
-- `gsm7_mbtowc` of iconv/gsm7.c: one or two septets to one UCS-4 character.
use libsmpp.Prelude.{ℕ, List, [], ◌∷◌, Option, none, some, ltb, leb, ◌==◌, if◌then◌else◌, get_or}
use libsmpp.Gsm7.Table.{Escape, gsm_to_unicode, gsm_escapes}

-- The return value: the number of bytes read with the character stored at `pwc`, or an error
-- code. RET_TOOFEW(1) is -3.
pub data Mbtowc : Type 0 where
  read : ℕ → ℕ → Mbtowc
  ret_ilseq ret_toofew : Mbtowc

-- The `while` loop over `gsmEscapes`.
unfoldable pub find_escape : ℕ → List Escape → Option ℕ
find_escape c [] = none
find_escape c (e ∷ es) = if e.from == c then some e.to else find_escape c es

unfoldable pub escape_result : Option ℕ → Mbtowc
escape_result none = ret_ilseq
escape_result (some u) = read 2 u

-- `gsmToUnicode[c]`.
unfoldable pub to_unicode : ℕ → ℕ
to_unicode c = get_or gsm_to_unicode c 0

-- `s` is what stands at the pointer and behind it, with zeros from its end on; `n` is the number
-- of bytes that may be read.
unfoldable pub gsm7_mbtowc : List ℕ → ℕ → Mbtowc
gsm7_mbtowc s n =
    let c = get_or s 0 0 in
    if ltb 0x7f c
    then ret_ilseq
    else (if c == 0x1B
        then (if leb 2 n
            then escape_result (find_escape (get_or s 1 0) gsm_escapes)
            else ret_toofew)
        else read 1 (to_unicode c))
