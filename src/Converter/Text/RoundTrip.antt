-- ===== src/Converter/Text/RoundTrip.antt =====
-- A text in the GSM alphabet through `gsm7ToUtf8` and back through `utf8ToGsm7` of converter.cpp.
use libsmpp.Prelude.{
  ℕ, zero, suc, ◌+◌, ◌*◌, ◌/◌, ◌%◌, ◌^◌, ◌≤◌, ◌<◌, ◌≡◌, ◌≢◌, refl, sym, ◌∙◌, ap, subst, List, [],
  ◌∷◌, ◌++◌, some, false, arith, length, drop, take, ge→ltb, le→leb, ne→==, All,
}
use libsmpp.Gsm7.Table.{gsm_escapes}
use libsmpp.Gsm7.ToSeptets.{stored, gsm7_wctomb}
use libsmpp.Gsm7.FromSeptets.{Mbtowc, read, gsm7_mbtowc, find_escape, escape_result, to_unicode}
use libsmpp.Gsm7.Alphabet.{is_forgotten, gsm7_wctomb-mbtowc}
use libsmpp.Gsm7.Written.{gsm7_wctomb_truncates}
use libsmpp.Converter.Utf8.RoundTrip.{IsUnicode, utf8_to_wstr-wstr_to_utf8}
use libsmpp.Converter.Text.{
  inserted, wstr_to_gsm7, utf8_to_gsm7, char_of, advance, gsm7_to_wstr, gsm7_to_utf8,
}

-- A character of the alphabet as it stands in a message: a septet, or a septet of the extension
-- table behind the escape septet.
pub data Symbol : Type 0 where
  plain : ℕ → Symbol
  escaped : ℕ → Symbol

abbrev pub septets : List Symbol → List ℕ
septets [] = []
septets (plain c ∷ us) = c ∷ septets us
septets (escaped c ∷ us) = 0x1B ∷ c ∷ septets us

-- The symbol is in the tables, and is not one of the two that cannot be written.
abbrev pub IsSymbol : Symbol → Type 0
IsSymbol (plain c) = (c < 128) × (c ≢ 0x1B) × (is_forgotten (to_unicode c) ≡ false)
IsSymbol (escaped c) = (u : ℕ) × (find_escape c gsm_escapes ≡ some u) × (is_forgotten u ≡ false)

read_plain :
    (c n : ℕ) (rest : List ℕ)
    → c < 128
    → c ≢ 0x1B
    → gsm7_mbtowc (c ∷ rest) n ≡ read 1 (to_unicode c)
unfolding gsm7_mbtowc
read_plain c n rest h ne = rw (ge→ltb 0x7f c (omega arith), ne→== c 0x1B ne)

read_escaped :
    (c u n : ℕ) (rest : List ℕ)
    → 2 ≤ n
    → find_escape c gsm_escapes ≡ some u
    → gsm7_mbtowc (0x1B ∷ c ∷ rest) n ≡ read 2 u
unfolding gsm7_mbtowc escape_result
read_escaped c u n rest h f = rw (le→leb 2 n h, f)

-- The low 16 bits of a character that codes back are all that is needed.
low_bits_back :
    (u : ℕ) (bs : List ℕ) → gsm7_wctomb u 2 ≡ stored bs → gsm7_wctomb (u % 2 ^ 16) 2 ≡ stored bs
low_bits_back u bs h =
    let whole : u % 65536 + 65536 * (u / 65536) ≡ u = omega arith in
    sym (gsm7_wctomb_truncates (u % 65536) (u / 65536) 2) ∙ ap (λ x. gsm7_wctomb x 2) whole ∙ h

-- A symbol in front of a text: the loop reads it whole, and its character is written back.
record Reads (s : Symbol) : Type 0 where
  char : ℕ
  len : ℕ
  here :
      (us : List Symbol) (n : ℕ)
      → length (septets (s ∷ us)) ≤ n
      → gsm7_mbtowc (septets (s ∷ us)) n ≡ read len char
  behind : (us : List Symbol) → drop len (septets (s ∷ us)) ≡ septets us
  written : (us : List Symbol) → gsm7_wctomb char 2 ≡ stored (take len (septets (s ∷ us)))
  joined : (us : List Symbol) → take len (septets (s ∷ us)) ++ septets us ≡ septets (s ∷ us)

symbol-Reads : (s : Symbol) → IsSymbol s → Reads s
symbol-Reads (plain c) (lt, ne, kept) = record {
  char = to_unicode c;
  len = 1;
  here = λ us n h. read_plain c n (septets us) lt ne;
  behind = λ us. refl;
  written = λ us.
      (gsm7_wctomb-mbtowc (c ∷ septets us) 1 1 (to_unicode c) (omega arith) (omega arith)
          (read_plain c 1 (septets us) lt ne)).1
        kept;
  joined = λ us. refl;
}
symbol-Reads (escaped c) (u, f, kept) = record {
  char = u;
  len = 2;
  here = λ us n h. read_escaped c u n (septets us) (omega arith) f;
  behind = λ us. refl;
  written = λ us.
      (gsm7_wctomb-mbtowc (0x1B ∷ c ∷ septets us) 2 2 u (omega arith) (omega arith)
          (read_escaped c u 2 (septets us) (omega arith) f)).1
        kept;
  joined = λ us. refl;
}

-- The characters read are below 2 ^ 16, and writing them gives the septets.
abbrev Back : List Symbol → List ℕ → Type 0
Back us ws = IsUnicode ws × (wstr_to_gsm7 ws ≡ septets us)

cons-Back :
    (s : Symbol) (us : List Symbol) (ws : List ℕ) (r : Reads s)
    → Back us ws
    → Back (s ∷ us) (char_of (read r.len r.char) ∷ ws)
unfolding wstr_to_gsm7 char_of inserted
cons-Back s us ws r (small, back) =
    ((omega arith, small), rw (low_bits_back r.char _ (r.written us), back) (r.joined us))

gsm7_to_wstr_round :
    (fuel : ℕ) (src : List ℕ) (r : Mbtowc)
    → 1 ≤ length src
    → gsm7_mbtowc src (length src) ≡ r
    → gsm7_to_wstr (suc fuel) src ≡ char_of r ∷ gsm7_to_wstr fuel (drop (advance r) src)
unfolding gsm7_to_wstr
gsm7_to_wstr_round fuel [] r h e = absurd (omega arith)
gsm7_to_wstr_round fuel (c ∷ rest) r h e =
    ap (λ m. char_of m ∷ gsm7_to_wstr fuel (drop (advance m) (c ∷ rest))) e

symbol_length : (s : Symbol) (us : List Symbol) → length (septets us) < length (septets (s ∷ us))
symbol_length (plain c) us = omega arith
symbol_length (escaped c) us = omega arith

text-Back :
    (fuel : ℕ) (us : List Symbol)
    → length (septets us) ≤ fuel
    → All IsSymbol us
    → Back us (gsm7_to_wstr fuel (septets us))
unfolding gsm7_to_wstr wstr_to_gsm7 advance
text-Back zero [] h k = (tt, refl)
text-Back (suc fuel) [] h k = (tt, refl)
text-Back zero (s ∷ us) h k = absurd (omega (arith, symbol_length s us))
text-Back (suc fuel) (s ∷ us) h k =
    let r = symbol-Reads s k.0 in
    let src = septets (s ∷ us) in
    let longer = symbol_length s us in
    let round =
      gsm7_to_wstr_round fuel src (read r.len r.char) (omega arith)
        (r.here us (length src) (omega arith)) in
    subst (Back (s ∷ us))
      (sym (round ∙ ap (λ x. char_of (read r.len r.char) ∷ gsm7_to_wstr fuel x) (r.behind us)))
      (cons-Back s us (gsm7_to_wstr fuel (septets us)) r (text-Back fuel us (omega arith) k.1))

-- A message in the GSM alphabet comes back septet by septet: for every list of symbols of the two
-- tables, without U+00A1 and U+000C, converting to UTF-8 and back changes nothing.
pub utf8_to_gsm7-gsm7_to_utf8 :
    (us : List Symbol) → All IsSymbol us → utf8_to_gsm7 (gsm7_to_utf8 (septets us)) ≡ septets us
unfolding utf8_to_gsm7 gsm7_to_utf8
utf8_to_gsm7-gsm7_to_utf8 us h =
    let (small, back) = text-Back (length (septets us)) us (omega arith) h in
    ap wstr_to_gsm7 (utf8_to_wstr-wstr_to_utf8 _ small) ∙ back
