-- ===== src/Converter/Tests.antt =====
-- Tests of converter.cpp, and its theorems at inputs that meet their hypotheses.
use libsmpp.Prelude.{ℕ, ◌≡◌, ◌≤◌, ◌<◌, ◌^◌, refl, List, [], ◌∷◌, ◌++◌, arith, length, All}
use libsmpp.Converter.Charset.{get_charset_from_data_coding}
use libsmpp.Gsm7.PackedValue.{IsSeptets}
use libsmpp.Gsm7.ToSeptets.{
  gsm7_wctomb, wctomb_page_0, wctomb_page_3, wctomb_page_20, is_same_code, switch, emit, emit_case,
}
use libsmpp.Gsm7.FromSeptets.{gsm7_mbtowc, find_escape, escape_result, to_unicode}
use libsmpp.Converter.Utf8.{utf8_char, wstr_to_utf8, decode, decode_all, finish, utf8_to_wstr}
use libsmpp.Converter.Utf8.RoundTrip.{utf8_to_wstr-wstr_to_utf8}
use libsmpp.Converter.Utf8.Bounds.{utf8_to_wstr_bounds}
use libsmpp.Converter.Utf8.Cut.{utf8_to_wstr_drops_cut}
use libsmpp.Converter.Text.{
  utf8_to_gsm7, wstr_to_gsm7, inserted, gsm7_to_utf8, gsm7_to_wstr, char_of, advance,
}
use libsmpp.Converter.Text.Total.{gsm7_to_wstr-fuel, utf8_to_gsm7-IsSeptets}
use libsmpp.Converter.Text.RoundTrip.{Symbol, plain, escaped, septets, utf8_to_gsm7-gsm7_to_utf8}

-- "A", U+00E9, the euro sign and an emoji.
abbrev sample : List ℕ
sample = 0x41 ∷ 0xE9 ∷ 0x20AC ∷ 0x1F600 ∷ []

sample_utf8 :
    wstr_to_utf8 sample ≡ 0x41 ∷ 0xC3 ∷ 0xA9 ∷ 0xE2 ∷ 0x82 ∷ 0xAC ∷ 0xF0 ∷ 0x9F ∷ 0x98 ∷ 0x80 ∷ []
unfolding wstr_to_utf8 utf8_char
sample_utf8 = refl

-- A cut character before an ASCII one, and a stray octet.
broken_utf8 : utf8_to_wstr (0xC3 ∷ 0x41 ∷ 0x80 ∷ []) ≡ 0xFFFD ∷ 0x41 ∷ 0xFFFD ∷ []
unfolding utf8_to_wstr decode_all decode finish
broken_utf8 = refl

utf8_to_wstr-wstr_to_utf8_example : utf8_to_wstr (wstr_to_utf8 sample) ≡ sample
utf8_to_wstr-wstr_to_utf8_example = utf8_to_wstr-wstr_to_utf8 sample (omega arith)

utf8_to_wstr_bounds_example :
    (length (utf8_to_wstr (0xC3 ∷ 0x41 ∷ [])) ≤ 2)
    × All (λ w. w < 2 ^ 21) (utf8_to_wstr (0xC3 ∷ 0x41 ∷ []))
utf8_to_wstr_bounds_example = utf8_to_wstr_bounds (0xC3 ∷ 0x41 ∷ [])

-- "A", two octets of the euro sign, and U+00E9 or "B" or nothing.
utf8_to_wstr_drops_cut_example :
    (utf8_to_wstr (wstr_to_utf8 (0x41 ∷ []) ++ ((0xE2 ∷ 0x82 ∷ []) ++ (0xC3 ∷ 0xA9 ∷ [])))
      ≡ utf8_to_wstr (wstr_to_utf8 (0x41 ∷ []) ++ (0xC3 ∷ 0xA9 ∷ [])))
    × (utf8_to_wstr (wstr_to_utf8 (0x41 ∷ []) ++ ((0xE2 ∷ 0x82 ∷ []) ++ wstr_to_utf8 (0x42 ∷ [])))
        ≡ (0x41 ∷ []) ++ (0xFFFD ∷ 0x42 ∷ []))
    × (utf8_to_wstr (wstr_to_utf8 (0x41 ∷ []) ++ (0xE2 ∷ 0x82 ∷ [])) ≡ (0x41 ∷ []) ++ 0xFFFD ∷ [])
utf8_to_wstr_drops_cut_example =
    utf8_to_wstr_drops_cut (0x41 ∷ []) 0xE2 (0x82 ∷ []) (omega arith, tt) (omega arith, omega arith)
      ((omega arith, omega arith), tt) (omega arith) 0xC3 (0xA9 ∷ []) (omega arith, omega arith)
      0x42 [] (omega arith) tt

-- "a", the euro sign and "@".
abbrev symbols : List Symbol
symbols = plain 0x61 ∷ escaped 0x65 ∷ plain 0x00 ∷ []

symbols_utf8 : gsm7_to_utf8 (septets symbols) ≡ 0x61 ∷ 0xE2 ∷ 0x82 ∷ 0xAC ∷ 0x40 ∷ []
unfolding gsm7_to_utf8 gsm7_to_wstr char_of advance gsm7_mbtowc find_escape escape_result to_unicode
    wstr_to_utf8 utf8_char
symbols_utf8 = refl

-- What has no septet becomes a question mark.
emoji_gsm7 : utf8_to_gsm7 (0xF0 ∷ 0x9F ∷ 0x98 ∷ 0x80 ∷ []) ≡ b'?' ∷ []
unfolding utf8_to_gsm7 utf8_to_wstr decode_all decode finish wstr_to_gsm7 inserted gsm7_wctomb
    wctomb_page_0 wctomb_page_3 wctomb_page_20 is_same_code switch emit emit_case
emoji_gsm7 = refl

utf8_to_gsm7-gsm7_to_utf8_example : utf8_to_gsm7 (gsm7_to_utf8 (septets symbols)) ≡ septets symbols
unfolding find_escape to_unicode
utf8_to_gsm7-gsm7_to_utf8_example = utf8_to_gsm7-gsm7_to_utf8 symbols (
  (omega arith, (λ h. absurd (omega arith)), refl),
  ((0x20AC, refl, refl), ((omega arith, (λ h. absurd (omega arith)), refl), tt)),
)

utf8_to_gsm7-IsSeptets_example : IsSeptets (utf8_to_gsm7 (0xC3 ∷ 0xA9 ∷ []))
utf8_to_gsm7-IsSeptets_example = utf8_to_gsm7-IsSeptets (0xC3 ∷ 0xA9 ∷ [])

gsm7_to_wstr-fuel_example : gsm7_to_wstr 9 (0x1B ∷ 0x65 ∷ []) ≡ gsm7_to_wstr 2 (0x1B ∷ 0x65 ∷ [])
gsm7_to_wstr-fuel_example = gsm7_to_wstr-fuel 9 2 (0x1B ∷ 0x65 ∷ []) (omega arith) (omega arith)

charsets :
    (get_charset_from_data_coding 0xF8 ≡ "UCS-2") × (get_charset_from_data_coding 0x0F ≡ "GSM7")
unfolding get_charset_from_data_coding
charsets = (refl, refl)
