-- ===== src/Converter/Utf8/RoundTrip.antt =====
-- `utf8toWStr` of converter.cpp reads what `wstrToUtf8` writes.
use libsmpp.Prelude.{
  ℕ, ◌+◌, ◌*◌, ◌/◌, ◌%◌, ◌≤◌, ◌<◌, ◌≡◌, refl, sym, ◌∙◌, ap, List, [], ◌∷◌, ◌++◌, append_assoc,
  append-nil, bit_or, bit_or_high, arith, All,
}
use native.Mathlib.Decide.{dec_lt}
use libsmpp.Converter.Utf8.{
  Decoder, decode_all, decoder_start, finish, utf8_char, utf8_to_wstr, wstr_to_utf8,
}
use libsmpp.Converter.Utf8.Steps.{
  decode-ascii, decode-lead_two, decode-lead_three, decode-lead_four, decode-more, decode-last,
}

-- The decoder behind a whole character `v`, which has the register `w`.
abbrev behind : Decoder → ℕ → ℕ → Decoder
behind d v w = record { dest = d.dest ++ v ∷ []; w = w; bytes = 0 }

one_decoded :
    (d : Decoder) (c : ℕ) (rest : List ℕ)
    → d.bytes ≡ 0
    → c ≤ 0x7f
    → decode_all d (c ∷ rest) ≡ decode_all (behind d c d.w) rest
unfolding decode_all
one_decoded d c rest e h =
    ap (λ x. decode_all x rest)
      (decode-ascii d c e h ∙ ap (λ b. record (behind d c d.w) { bytes = b }) e)

two_decoded :
    (d : Decoder) (x y : ℕ) (rest : List ℕ)
    → x < 32
    → y < 64
    → decode_all d ((0xc0 + x) ∷ (0x80 + y) ∷ rest)
      ≡ decode_all (behind d (x * 64 + y) (x * 64 + y)) rest
unfolding decode_all
two_decoded d x y rest hx hy =
    rw (decode-lead_two d x hx, decode-last (record d { bytes = 1; w = x }) y refl hy (omega arith))

three_decoded :
    (d : Decoder) (x y z : ℕ) (rest : List ℕ)
    → x < 16
    → y < 64
    → z < 64
    → decode_all d ((0xe0 + x) ∷ (0x80 + y) ∷ (0x80 + z) ∷ rest)
      ≡ decode_all (behind d ((x * 64 + y) * 64 + z) ((x * 64 + y) * 64 + z)) rest
unfolding decode_all
three_decoded d x y z rest hx hy hz = rw (
  decode-lead_three d x hx,
  decode-more (record d { bytes = 2; w = x }) y 0 refl hy (omega arith),
  decode-last (record d { bytes = 1; w = x * 64 + y }) z refl hz (omega arith),
)

four_decoded :
    (d : Decoder) (x y z t : ℕ) (rest : List ℕ)
    → x < 8
    → y < 64
    → z < 64
    → t < 64
    → decode_all d ((0xf0 + x) ∷ (0x80 + y) ∷ (0x80 + z) ∷ (0x80 + t) ∷ rest)
      ≡ decode_all
          (behind d (((x * 64 + y) * 64 + z) * 64 + t) (((x * 64 + y) * 64 + z) * 64 + t))
          rest
unfolding decode_all
four_decoded d x y z t rest hx hy hz ht = rw (
  decode-lead_four d x hx,
  decode-more (record d { bytes = 3; w = x }) y 1 refl hy (omega arith),
  decode-more (record d { bytes = 2; w = x * 64 + y }) z 0 refl hz (omega arith),
  decode-last (record d { bytes = 1; w = (x * 64 + y) * 64 + z }) t refl ht (omega arith),
)

lead_two_octet : (x : ℕ) → x < 32 → bit_or 0xc0 x ≡ 0xc0 + x
lead_two_octet x h = bit_or_high 5 6 x h

lead_three_octet : (x : ℕ) → x < 16 → bit_or 0xe0 x ≡ 0xe0 + x
lead_three_octet x h = bit_or_high 4 14 x h

lead_four_octet : (x : ℕ) → x < 8 → bit_or 0xf0 x ≡ 0xf0 + x
lead_four_octet x h = bit_or_high 3 30 x h

more_octet : (x : ℕ) → x < 64 → bit_or 0x80 x ≡ 0x80 + x
more_octet x h = bit_or_high 6 2 x h

-- The four forms of a written character, as sums.
written_one : (w : ℕ) → w ≤ 0x7f → utf8_char w ≡ w ∷ []
unfolding utf8_char
written_one w h = ground arith

written_two : (w : ℕ) → 0x7f < w → w ≤ 0x7ff → utf8_char w ≡ (0xc0 + w / 64) ∷ (0x80 + w % 64) ∷ []
unfolding utf8_char
written_two w lo hi =
    ground (arith, lead_two_octet (w / 64 % 32) (omega arith), more_octet (w % 64) (omega arith))

written_three :
    (w : ℕ)
    → 0x7ff < w
    → w ≤ 0xffff
    → utf8_char w ≡ (0xe0 + w / 4096) ∷ (0x80 + w / 64 % 64) ∷ (0x80 + w % 64) ∷ []
unfolding utf8_char
written_three w lo hi = ground (
  arith,
  lead_three_octet (w / 4096 % 16) (omega arith),
  more_octet (w / 64 % 64) (omega arith),
  more_octet (w % 64) (omega arith),
)

written_four :
    (w : ℕ)
    → 0xffff < w
    → w ≤ 0x10ffff
    → utf8_char w
      ≡ (0xf0 + w / 262144) ∷ (0x80 + w / 4096 % 64) ∷ (0x80 + w / 64 % 64) ∷ (0x80 + w % 64) ∷ []
unfolding utf8_char
written_four w lo hi = ground (
  arith,
  lead_four_octet (w / 262144 % 8) (omega arith),
  more_octet (w / 4096 % 64) (omega arith),
  more_octet (w / 64 % 64) (omega arith),
  more_octet (w % 64) (omega arith),
)

-- The decoder takes a written character whole; some register is left behind.
abbrev Reads : Decoder → ℕ → List ℕ → Type 0
Reads d w rest = (r : ℕ) × (decode_all d (utf8_char w ++ rest) ≡ decode_all (behind d w r) rest)

-- What was decoded is the character.
same_Reads :
    (d : Decoder) (w v : ℕ) (rest : List ℕ)
    → v ≡ w
    → decode_all d (utf8_char w ++ rest) ≡ decode_all (behind d v v) rest
    → Reads d w rest
same_Reads d w v rest e h = (v, h ∙ ap (λ x. decode_all (behind d x v) rest) e)

char_Reads : (d : Decoder) (w : ℕ) (rest : List ℕ) → d.bytes ≡ 0 → w ≤ 0x10ffff → Reads d w rest
unfolding decode_all
char_Reads d w rest e h = elim (dec_lt 0x7f w) [
  | no one ↦ (d.w, rw (written_one w (omega arith)) (one_decoded d w rest e (omega arith)))
  | yes more ↦ elim (dec_lt 0x7ff w) [
    | no two ↦ same_Reads d w (w / 64 * 64 + w % 64) rest (omega arith) (
        rw (written_two w more (omega arith))
          (two_decoded d (w / 64) (w % 64) rest (omega arith) (omega arith)))
    | yes more2 ↦ elim (dec_lt 0xffff w) [
      | no three ↦ same_Reads d w ((w / 4096 * 64 + w / 64 % 64) * 64 + w % 64) rest (omega arith) (
          rw (written_three w more2 (omega arith)) (
            three_decoded d (w / 4096) (w / 64 % 64) (w % 64) rest (omega arith) (omega arith)
              (omega arith)))
      | yes more3 ↦
          same_Reads d w (((w / 262144 * 64 + w / 4096 % 64) * 64 + w / 64 % 64) * 64 + w % 64) rest
            (omega arith)
            (rw (written_four w more3 h) (
              four_decoded d (w / 262144) (w / 4096 % 64) (w / 64 % 64) (w % 64) rest (omega arith)
                (omega arith) (omega arith) (omega arith)))
    ]
  ]
]

-- The characters that UTF-8 reaches.
abbrev pub IsUnicode : List ℕ → Type 0
IsUnicode = All (λ w. w ≤ 0x10ffff)

pub all_read :
    (d : Decoder) (ws rest : List ℕ)
    → d.bytes ≡ 0
    → IsUnicode ws
    → (r : ℕ) × (decode_all d (wstr_to_utf8 ws ++ rest)
        ≡ decode_all (record { dest = d.dest ++ ws; w = r; bytes = 0 }) rest)
unfolding wstr_to_utf8
all_read d [] rest e h = (d.w, rw append-nil (ap (λ b. decode_all (record d { bytes = b }) rest) e))
all_read d (w ∷ ws) rest e h =
    let (r, first) = char_Reads d w (wstr_to_utf8 ws ++ rest) e h.0 in
    let (r', others) = all_read (behind d w r) ws rest refl h.1 in
    (
      r',
      rw (append_assoc (utf8_char w) (wstr_to_utf8 ws) rest, first, others)
          (rw (append_assoc d.dest (w ∷ []) ws)),
    )

-- Encoding to UTF-8 and decoding again gives the text back, for every list of characters up to
-- U+10FFFF.
pub utf8_to_wstr-wstr_to_utf8 : (ws : List ℕ) → IsUnicode ws → utf8_to_wstr (wstr_to_utf8 ws) ≡ ws
unfolding utf8_to_wstr finish decode_all
utf8_to_wstr-wstr_to_utf8 ws h =
    let (r, whole) = all_read decoder_start ws [] refl h in
    let src : wstr_to_utf8 ws ++ [] ≡ wstr_to_utf8 ws = append-nil (wstr_to_utf8 ws) in
    ap finish (ap (decode_all decoder_start) (sym src) ∙ whole)
