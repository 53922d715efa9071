-- ===== src/Converter/Utf8/Bounds.antt =====
-- What `utf8toWStr` of converter.cpp does with any octets, well formed or not.
use libsmpp.Prelude.{
  ℕ, ◌+◌, ◌*◌, ◌%◌, ◌^◌, ◌≤◌, ◌<◌, ◌≡◌, refl, List, [], ◌∷◌, ◌++◌, bit_or, bit_or_high, arith, ◌==◌,
  if◌then◌else◌, All, All-append, length, length-append, inl, ◌⊎◌,
}
use libsmpp.Converter.Utf8.{Decoder, decode, decode_all, decoder_start, finish, utf8_to_wstr, err}

-- Octets still to come leave the character room for their bits.
abbrev Fits : ℕ → ℕ → Type 0
Fits bytes w =
    (bytes ≡ 0)
    ⊎ ((bytes ≡ 1) × (w < 2 ^ 15))
    ⊎ ((bytes ≡ 2) × (w < 2 ^ 9))
    ⊎ ((bytes ≡ 3) × (w < 2 ^ 3))

abbrev AreSmall : List ℕ → Type 0
AreSmall = All (λ w. w < 2 ^ 21)

record Inv (d : Decoder) : Type 0 where
  small : AreSmall d.dest
  fits : Fits d.bytes d.w

joined_lt : (w c : ℕ) → bit_or (w * 2 ^ 6 % 2 ^ 32) (c % 2 ^ 6) ≡ w * 2 ^ 6 % 2 ^ 32 + c % 64
joined_lt w c =
    let e : w * 2 ^ 6 % 2 ^ 32 ≡ w % 2 ^ 26 * 2 ^ 6 = omega arith in
    rw e (bit_or_high 6 (w % 2 ^ 26) (c % 2 ^ 6) (omega arith))

small-push : (ws : List ℕ) (c : ℕ) → AreSmall ws → c < 2 ^ 21 → AreSmall (ws ++ c ∷ [])
small-push ws c h lt = All-append (λ w. w < 2 ^ 21) ws (c ∷ []) h (lt, tt)

decode-Inv : (d : Decoder) (c : ℕ) → Inv d → Inv (decode d c)
unfolding decode
decode-Inv d c v = ground (
  arith,
  joined_lt d.w c,
  small-push d.dest c v.small,
  small-push d.dest err v.small,
  small-push (d.dest ++ err ∷ []) c,
  small-push d.dest (bit_or (d.w * 2 ^ 6 % 2 ^ 32) (c % 2 ^ 6)) v.small,
)

decode_all-Inv : (d : Decoder) (cs : List ℕ) → Inv d → Inv (decode_all d cs)
unfolding decode_all
decode_all-Inv d [] v = v
decode_all-Inv d (c ∷ cs) v = decode_all-Inv (decode d c) cs (decode-Inv d c v)

-- Characters pushed, and one more if another is open.
abbrev total : Decoder → ℕ
total d = length d.dest + (if d.bytes == 0 then 0 else 1)

total-decode : (d : Decoder) (c : ℕ) → total (decode d c) ≤ total d + 1
unfolding decode
total-decode d c = ground (
  arith,
  length-append d.dest (c ∷ []),
  length-append d.dest (err ∷ []),
  length-append (d.dest ++ err ∷ []) (c ∷ []),
  length-append d.dest (bit_or (d.w * 2 ^ 6 % 2 ^ 32) (c % 2 ^ 6) ∷ []),
)

total-decode_all : (d : Decoder) (cs : List ℕ) → total (decode_all d cs) ≤ total d + length cs
unfolding decode_all
total-decode_all d [] = omega arith
total-decode_all d (c ∷ cs) = omega (arith, total-decode d c, total-decode_all (decode d c) cs)

finish-small : (d : Decoder) → Inv d → AreSmall (finish d)
unfolding finish
finish-small d v = ground (arith, v.small, small-push d.dest err v.small)

length-finish : (d : Decoder) → length (finish d) ≡ total d
unfolding finish
length-finish d = ground (arith, length-append d.dest (err ∷ []))

-- Whatever the octets, decoding gives no more characters than there are octets, and each fits 21
-- bits, so that the wchar_t never overflows.
pub utf8_to_wstr_bounds :
    (src : List ℕ)
    → (length (utf8_to_wstr src) ≤ length src) × All (λ w. w < 2 ^ 21) (utf8_to_wstr src)
unfolding utf8_to_wstr
utf8_to_wstr_bounds src = (
  omega (arith, length-finish (decode_all decoder_start src), total-decode_all decoder_start src),
  finish-small (decode_all decoder_start src)
      (decode_all-Inv decoder_start src (record { small = tt; fits = inl refl })),
)
