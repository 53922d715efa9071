-- ===== src/Converter/Utf8/Steps.antt =====
-- Single rounds of `utf8toWStr` of converter.cpp, on octets written as sums.
use libsmpp.Prelude.{
  ℕ, suc, ◌+◌, ◌*◌, ◌%◌, ◌^◌, ◌≤◌, ◌<◌, ◌≡◌, [], ◌∷◌, ◌++◌, bit_or, bit_or_high, arith,
}
use libsmpp.Converter.Utf8.{Decoder, decode, push}

pub decode-ascii : (d : Decoder) (c : ℕ) → d.bytes ≡ 0 → c ≤ 0x7f → decode d c ≡ push d c
unfolding decode
decode-ascii d c e h = ground arith

pub decode-lead_two :
    (d : Decoder) (x : ℕ) → x < 32 → decode d (0xc0 + x) ≡ record d { bytes = 1; w = x }
unfolding decode
decode-lead_two d x h = ground arith

pub decode-lead_three :
    (d : Decoder) (x : ℕ) → x < 16 → decode d (0xe0 + x) ≡ record d { bytes = 2; w = x }
unfolding decode
decode-lead_three d x h = ground arith

pub decode-lead_four :
    (d : Decoder) (x : ℕ) → x < 8 → decode d (0xf0 + x) ≡ record d { bytes = 3; w = x }
unfolding decode
decode-lead_four d x h = ground arith

-- The character so far with six more bits.
pub joined :
    (w x : ℕ) → x < 64 → w < 2 ^ 26 → bit_or (w * 2 ^ 6 % 2 ^ 32) ((0x80 + x) % 2 ^ 6) ≡ w * 64 + x
joined w x h fits =
    let hi : w * 2 ^ 6 % 2 ^ 32 ≡ w * 2 ^ 6 = omega arith in
    let lo : (0x80 + x) % 2 ^ 6 ≡ x = omega arith in rw (hi, lo) (bit_or_high 6 w x h)

pub decode-more :
    (d : Decoder) (x b : ℕ)
    → d.bytes ≡ suc (suc b)
    → x < 64
    → d.w < 2 ^ 26
    → decode d (0x80 + x) ≡ record d { w = d.w * 64 + x; bytes = suc b }
unfolding decode
decode-more d x b e h fits = ground (arith, joined d.w x h fits)

pub decode-last :
    (d : Decoder) (x : ℕ)
    → d.bytes ≡ 1
    → x < 64
    → d.w < 2 ^ 26
    → decode d (0x80 + x)
      ≡ record { dest = d.dest ++ (d.w * 64 + x) ∷ []; w = d.w * 64 + x; bytes = 0 }
unfolding decode
decode-last d x e h fits = ground (arith, joined d.w x h fits)
