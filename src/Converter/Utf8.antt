-- ===== src/Converter/Utf8.antt =====
-- `wstrToUtf8` and `utf8toWStr` of converter.cpp. A wchar_t has 32 bits.
pub mod Steps
pub mod RoundTrip
pub mod Bounds
pub mod Cut
use libsmpp.Prelude.{
  ℕ, zero, suc, ◌+◌, ◌-◌, ◌*◌, ◌/◌, ◌%◌, ◌^◌, List, [], ◌∷◌, ◌++◌, bit_or, ltb, leb, ◌==◌, not,
  if◌then◌else◌,
}

-- The octets that the loop pushes for one character.
unfoldable pub utf8_char : ℕ → List ℕ
utf8_char w =
    if leb w 0x7f
    then w ∷ []
    else (if leb w 0x7ff
        then bit_or 0xc0 (w / 2 ^ 6 % 2 ^ 5) ∷ bit_or 0x80 (w % 2 ^ 6) ∷ []
        else (if leb w 0xffff
            then bit_or 0xe0 (w / 2 ^ 12 % 2 ^ 4)
              ∷ bit_or 0x80 (w / 2 ^ 6 % 2 ^ 6)
              ∷ bit_or 0x80 (w % 2 ^ 6)
              ∷ []
            else (if leb w 0x10ffff
                then bit_or 0xf0 (w / 2 ^ 18 % 2 ^ 3)
                  ∷ bit_or 0x80 (w / 2 ^ 12 % 2 ^ 6)
                  ∷ bit_or 0x80 (w / 2 ^ 6 % 2 ^ 6)
                  ∷ bit_or 0x80 (w % 2 ^ 6)
                  ∷ []
                else b'?' ∷ [])))

unfoldable pub wstr_to_utf8 : List ℕ → List ℕ
wstr_to_utf8 [] = []
wstr_to_utf8 (w ∷ ws) = utf8_char w ++ wstr_to_utf8 ws

-- The variables of the decoding loop: the characters pushed so far, the one being put together,
-- and the number of its octets that are still to come.
pub record Decoder : Type 0 where
  pub dest : List ℕ
  pub w : ℕ
  pub bytes : ℕ

abbrev pub err : ℕ
err = 0xfffd

abbrev pub push : Decoder → ℕ → Decoder
push d c = record d { dest = d.dest ++ c ∷ [] }

-- One round, on the octet `c`.
unfoldable pub decode : Decoder → ℕ → Decoder
decode d c =
    if leb c 0x7f
    then (if d.bytes == 0
        then push d c
        else record d { dest = (d.dest ++ err ∷ []) ++ c ∷ []; bytes = 0 })
    else (if leb c 0xbf
        then (if d.bytes == 0
            then push d err
            else (let w' = bit_or (d.w * 2 ^ 6 % 2 ^ 32) (c % 2 ^ 6) in
                if d.bytes - 1 == 0
                then record { dest = d.dest ++ w' ∷ []; w = w'; bytes = 0 }
                else record { dest = d.dest; w = w'; bytes = d.bytes - 1 }))
        else (if leb c 0xdf
            then record d { bytes = 1; w = c % 2 ^ 5 }
            else (if leb c 0xef
                then record d { bytes = 2; w = c % 2 ^ 4 }
                else (if leb c 0xf7
                    then record d { bytes = 3; w = c % 2 ^ 3 }
                    else record d { dest = d.dest ++ err ∷ []; bytes = 0 }))))

unfoldable pub decode_all : Decoder → List ℕ → Decoder
decode_all d [] = d
decode_all d (c ∷ cs) = decode_all (decode d c) cs

-- An unfinished character at the end counts as an error.
unfoldable pub finish : Decoder → List ℕ
finish d = if d.bytes == 0 then d.dest else d.dest ++ err ∷ []

abbrev pub decoder_start : Decoder
decoder_start = record { dest = []; w = 0; bytes = 0 }

unfoldable pub utf8_to_wstr : List ℕ → List ℕ
utf8_to_wstr src = finish (decode_all decoder_start src)
