-- ===== src/Converter/Text/Total.antt =====
-- The loops of `gsm7ToUtf8` and `utf8ToGsm7` of converter.cpp on any input.
use libsmpp.Prelude.{
  ℕ, zero, suc, ◌≤◌, ◌<◌, ◌≡◌, refl, ap, List, [], ◌∷◌, Option, none, some, arith, length,
  length-drop, drop, get_or, ltb, leb, ◌==◌, All-append, Bool-cases, inl, inr,
}
use libsmpp.Gsm7.ToSeptets.{Wctomb, stored, ret_iluni, ret_toosmall, gsm7_wctomb}
use libsmpp.Gsm7.FromSeptets.{gsm7_mbtowc, escape_result}
use libsmpp.Gsm7.Written.{gsm7_wctomb-IsSeptets}
use libsmpp.Gsm7.PackedValue.{IsSeptets}
use libsmpp.Converter.Utf8.{utf8_to_wstr}
use libsmpp.Converter.Text.{inserted, wstr_to_gsm7, utf8_to_gsm7, char_of, advance, gsm7_to_wstr}

advance-escape : (o : Option ℕ) → 1 ≤ advance (escape_result o)
unfolding advance escape_result
advance-escape none = omega arith
advance-escape (some u) = omega arith

-- Every round of the loop moves on.
pub advance_pos : (s : List ℕ) (n : ℕ) → 1 ≤ advance (gsm7_mbtowc s n)
unfolding gsm7_mbtowc advance
advance_pos s n = elim (Bool-cases (ltb 0x7f (get_or s 0 0))) [
  | inl big ↦ rw big (omega arith)
  | inr small ↦ elim (Bool-cases (get_or s 0 0 == 0x1B)) [
    | inr plain ↦ rw (small, plain) (omega arith)
    | inl esc ↦ elim (Bool-cases (leb 2 n)) [
      | inl two ↦ rw (small, esc, two) (advance-escape _)
      | inr one ↦ rw (small, esc, one) (omega arith)
    ]
  ]
]

-- Enough fuel: the number of octets left suffices for the loop of `gsm7ToUtf8`, and more fuel
-- changes nothing.
pub gsm7_to_wstr-fuel :
    (f g : ℕ) (src : List ℕ)
    → length src ≤ f
    → length src ≤ g
    → gsm7_to_wstr f src ≡ gsm7_to_wstr g src
unfolding gsm7_to_wstr
gsm7_to_wstr-fuel zero zero src hf hg = refl
gsm7_to_wstr-fuel zero (suc g) [] hf hg = refl
gsm7_to_wstr-fuel (suc f) zero [] hf hg = refl
gsm7_to_wstr-fuel zero g (c ∷ rest) hf hg = absurd (omega arith)
gsm7_to_wstr-fuel f zero (c ∷ rest) hf hg = absurd (omega arith)
gsm7_to_wstr-fuel (suc f) (suc g) [] hf hg = refl
gsm7_to_wstr-fuel (suc f) (suc g) (c ∷ rest) hf hg =
    let r = gsm7_mbtowc (c ∷ rest) (length (c ∷ rest)) in
    let on = advance_pos (c ∷ rest) (length (c ∷ rest)) in
    let left = length-drop (advance r) (c ∷ rest) in
    ap (λ out. char_of r ∷ out)
      (gsm7_to_wstr-fuel f g (drop (advance r) (c ∷ rest)) (omega arith) (omega arith))

inserted-IsSeptets : (wc : ℕ) (w : Wctomb) → gsm7_wctomb wc 2 ≡ w → IsSeptets (inserted w)
unfolding inserted
inserted-IsSeptets wc (stored bytes) h = gsm7_wctomb-IsSeptets wc 2 bytes h
inserted-IsSeptets wc ret_iluni h = omega arith
inserted-IsSeptets wc ret_toosmall h = omega arith

wstr_to_gsm7-IsSeptets : (ws : List ℕ) → IsSeptets (wstr_to_gsm7 ws)
unfolding wstr_to_gsm7
wstr_to_gsm7-IsSeptets [] = tt
wstr_to_gsm7-IsSeptets (w ∷ ws) =
    All-append (λ c. c < 128) (inserted (gsm7_wctomb w 2)) (wstr_to_gsm7 ws)
      (inserted-IsSeptets w (gsm7_wctomb w 2) refl) (wstr_to_gsm7-IsSeptets ws)

-- Whatever the octets of the source, `utf8ToGsm7` gives septets only: every octet is below 128.
pub utf8_to_gsm7-IsSeptets : (src : List ℕ) → IsSeptets (utf8_to_gsm7 src)
unfolding utf8_to_gsm7
utf8_to_gsm7-IsSeptets src = wstr_to_gsm7-IsSeptets (utf8_to_wstr src)
