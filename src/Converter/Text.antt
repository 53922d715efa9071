-- ===== src/Converter/Text.antt =====
-- `gsm7ToUtf8` and `utf8ToGsm7` of converter.cpp.
pub mod RoundTrip
pub mod Total
use libsmpp.Prelude.{ℕ, zero, suc, ◌+◌, ◌-◌, ◌%◌, ◌^◌, List, [], ◌∷◌, ◌++◌, length, drop}
use libsmpp.Gsm7.ToSeptets.{Wctomb, stored, ret_iluni, ret_toosmall, gsm7_wctomb}
use libsmpp.Gsm7.FromSeptets.{Mbtowc, read, gsm7_mbtowc}
use libsmpp.Converter.Utf8.{utf8_to_wstr, wstr_to_utf8}

-- The octets inserted for one character; `res` is what `gsm7_wctomb` returned.
unfoldable pub inserted : Wctomb → List ℕ
inserted (stored bytes) = bytes
inserted ret_iluni = b'?' ∷ []
inserted ret_toosmall = b'?' ∷ []

unfoldable pub wstr_to_gsm7 : List ℕ → List ℕ
wstr_to_gsm7 [] = []
wstr_to_gsm7 (w ∷ ws) = inserted (gsm7_wctomb w 2) ++ wstr_to_gsm7 ws

unfoldable pub utf8_to_gsm7 : List ℕ → List ℕ
utf8_to_gsm7 src = wstr_to_gsm7 (utf8_to_wstr src)

-- The character inserted for a result of `gsm7_mbtowc`, and the octets that the loop moves on by.
unfoldable pub char_of : Mbtowc → ℕ
char_of (read len u) = u % 2 ^ 16
char_of Mbtowc.ret_ilseq = b'?'
char_of Mbtowc.ret_toofew = b'?'

unfoldable pub advance : Mbtowc → ℕ
advance (read len u) = len
advance Mbtowc.ret_ilseq = 1
advance Mbtowc.ret_toofew = 1

-- The loop over what is left of the source, with fuel: each round moves on by an octet at least.
unfoldable pub gsm7_to_wstr : ℕ → List ℕ → List ℕ
gsm7_to_wstr zero src = []
gsm7_to_wstr (suc fuel) [] = []
gsm7_to_wstr (suc fuel) (c ∷ rest) =
    let r = gsm7_mbtowc (c ∷ rest) (length (c ∷ rest)) in
    char_of r ∷ gsm7_to_wstr fuel (drop (advance r) (c ∷ rest))

unfoldable pub gsm7_to_utf8 : List ℕ → List ℕ
gsm7_to_utf8 src = wstr_to_utf8 (gsm7_to_wstr (length src) src)
