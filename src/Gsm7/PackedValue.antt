-- ===== src/Gsm7/PackedValue.antt =====
-- What `gsm7_encode` of iconv/gsm7.c stores, as a number: septets and octets read as the digits
-- of one number, the first digit lowest.
use libsmpp.Prelude.{
  ℕ, zero, suc, ◌+◌, ◌-◌, ◌*◌, ◌/◌, ◌^◌, ◌≤◌, ◌<◌, ◌≡◌, refl, List, [], ◌∷◌, ◌++◌, Option, none,
  some, arith, bit_or_low, length, some_eq, sym, ◌∙◌, subst, ap, replicate, All,
}
use mathlib.Core.Option
use native.Mathlib.Decide.{dec_lt}
use libsmpp.Gsm7.Packing.{packed_octet, pack_loop, gsm7_encode, Packed}

-- The number whose digits to the base `b` are given, the lowest first.
abbrev pub number : ℕ → List ℕ → ℕ
number b [] = 0
number b (x ∷ xs) = x + b * number b xs

abbrev pub IsSeptets : List ℕ → Type 0
IsSeptets = All (λ c. c < 128)

abbrev pub IsOctets : List ℕ → Type 0
IsOctets = All (λ c. c < 256)

-- Number of octets that hold `n` septets after `s` bits of the first one are gone.
abbrev pub packed_size : ℕ → ℕ → ℕ
packed_size s n = n - (n + s) / 8

-- What the loop has still to store.
abbrev pending : ℕ → List ℕ → ℕ
pending s [] = 0
pending s (c ∷ rest) = c / 2 ^ s + 2 ^ (7 - s) * number 128 rest

-- A statement for each shift below seven.
each_shift {ℓ} : (P : ℕ → Type ℓ) → P 0 → P 1 → P 2 → P 3 → P 4 → P 5 → P 6 → (s : ℕ) → s < 7 → P s
each_shift P a b c d e f g zero h = a
each_shift P a b c d e f g (suc zero) h = b
each_shift P a b c d e f g (suc (suc zero)) h = c
each_shift P a b c d e f g (suc (suc (suc zero))) h = d
each_shift P a b c d e f g (suc (suc (suc (suc zero)))) h = e
each_shift P a b c d e f g (suc (suc (suc (suc (suc zero))))) h = f
each_shift P a b c d e f g (suc (suc (suc (suc (suc (suc zero)))))) h = g
each_shift P a b c d e f g (suc (suc (suc (suc (suc (suc (suc s))))))) h = absurd (omega arith)

-- One octet: the rest of this septet below, and the low bits of the next one above.
abbrev OctetStep : ℕ → ℕ → List ℕ → ℕ → Type 0
OctetStep c d rest s =
    (packed_octet s c (d ∷ rest) + 256 * pending (s + 1) (d ∷ rest) ≡ pending s (c ∷ d ∷ rest))
    × (packed_octet s c (d ∷ rest) < 256)

octet_step : (c d : ℕ) (rest : List ℕ) → c < 128 → d < 128 → (s : ℕ) → s < 7 → OctetStep c d rest s
unfolding packed_octet
octet_step c d rest hc hd =
    each_shift (OctetStep c d rest) (omega (arith, bit_or_low (7 - 0) (c / 2 ^ 0) d (omega arith)))
      (omega (arith, bit_or_low (7 - 1) (c / 2 ^ 1) d (omega arith)))
      (omega (arith, bit_or_low (7 - 2) (c / 2 ^ 2) d (omega arith)))
      (omega (arith, bit_or_low (7 - 3) (c / 2 ^ 3) d (omega arith)))
      (omega (arith, bit_or_low (7 - 4) (c / 2 ^ 4) d (omega arith)))
      (omega (arith, bit_or_low (7 - 5) (c / 2 ^ 5) d (omega arith)))
      (omega (arith, bit_or_low (7 - 6) (c / 2 ^ 6) d (omega arith)))

-- The last octet has no next septet.
last_octet : (c s : ℕ) → c < 128 → s < 7 → c / 2 ^ s < 256
last_octet c s hc =
    each_shift (λ s. c / 2 ^ s < 256) (omega arith) (omega arith) (omega arith) (omega arith)
      (omega arith) (omega arith) (omega arith) s

-- What the loop stores is worth what was pending, in octets.
abbrev PackedAs : ℕ → List ℕ → List ℕ → Type 0
PackedAs s xs out = (number 256 out ≡ pending s xs) × IsOctets out

cons_PackedAs :
    (s c : ℕ) (rest out : List ℕ)
    → s < 7
    → IsSeptets (c ∷ rest)
    → PackedAs (s + 1) rest out
    → PackedAs s (c ∷ rest) (packed_octet s c rest ∷ out)
unfolding packed_octet
cons_PackedAs s c [] out hs hc h = (omega arith, (last_octet c s hc.0 hs, h.1))
cons_PackedAs s c (d ∷ rest) out hs hc h =
    let step = octet_step c d rest hc.0 hc.1.0 s hs in (omega arith, (step.1, h.1))

pending-seven : (c : ℕ) (rest : List ℕ) → c < 128 → pending 7 (c ∷ rest) ≡ pending 0 rest
pending-seven c [] h = omega arith
pending-seven c (d ∷ rest) h = omega arith

pub pack_loop-seven :
    (room c : ℕ) (rest : List ℕ) → pack_loop 7 room (c ∷ rest) ≡ pack_loop 0 room rest
unfolding pack_loop
pack_loop-seven zero c rest = refl
pack_loop-seven (suc room) c rest = refl

pub pack_loop-full : (s c : ℕ) (rest : List ℕ) → s < 7 → pack_loop s 0 (c ∷ rest) ≡ none
unfolding pack_loop
pack_loop-full s c rest h = ground arith

pub pack_loop-room :
    (s room c : ℕ) (rest : List ℕ)
    → s < 7
    → pack_loop s (suc room) (c ∷ rest)
      ≡ Option.map (λ out. packed_octet s c rest ∷ out) (pack_loop (s + 1) room rest)
unfolding pack_loop
pack_loop-room s room c rest h = ground arith

seven_case :
    (s room c : ℕ) (rest out : List ℕ)
    → s ≡ 7
    → c < 128
    → pack_loop s room (c ∷ rest) ≡ some out
    → (pack_loop 0 room rest ≡ some out → PackedAs 0 rest out)
    → PackedAs s (c ∷ rest) out
seven_case s room c rest out e hc h k =
    let r = k (sym (pack_loop-seven room c rest) ∙ (rw e at h)) in
    rw e (r.0 ∙ sym (pending-seven c rest hc), r.1)

room_case :
    (s c : ℕ) (rest out : List ℕ) (o : Option (List ℕ))
    → s < 7
    → IsSeptets (c ∷ rest)
    → Option.map (λ out. packed_octet s c rest ∷ out) o ≡ some out
    → ((tail : List ℕ) → o ≡ some tail → PackedAs (s + 1) rest tail)
    → PackedAs s (c ∷ rest) out
room_case s c rest out none hs hx h k = cc
room_case s c rest out (some tail) hs hx h k =
    subst (PackedAs s (c ∷ rest)) (some_eq h) (cons_PackedAs s c rest tail hs hx (k tail refl))

pack_loop-PackedAs :
    (s room : ℕ) (xs out : List ℕ)
    → s ≤ 7
    → IsSeptets xs
    → pack_loop s room xs ≡ some out
    → PackedAs s xs out
unfolding pack_loop
pack_loop-PackedAs s room [] out hs hx h = ground arith
pack_loop-PackedAs s zero (c ∷ rest) out hs hx h = elim (dec_lt s 7) [
  | yes p ↦ cc (pack_loop-full s c rest p)
  | no p ↦
      seven_case s 0 c rest out (omega arith) hx.0 h
        (pack_loop-PackedAs 0 zero rest out (omega arith) hx.1)
]
pack_loop-PackedAs s (suc room) (c ∷ rest) out hs hx h = elim (dec_lt s 7) [
  | yes p ↦
      room_case s c rest out (pack_loop (s + 1) room rest) p hx
        (sym (pack_loop-room s room c rest p) ∙ h)
        (λ tail. pack_loop-PackedAs (s + 1) room rest tail (omega arith) hx.1)
  | no p ↦
      seven_case s (suc room) c rest out (omega arith) hx.0 h
        (pack_loop-PackedAs 0 (suc room) rest out (omega arith) hx.1)
]

number-zeros : (b n : ℕ) → number b (replicate n 0) ≡ 0
number-zeros b zero = refl
number-zeros b (suc n) = grind (arith, number-zeros b n)

number-append_zeros : (b n : ℕ) (xs : List ℕ) → number b (xs ++ replicate n 0) ≡ number b xs
number-append_zeros b n [] = number-zeros b n
number-append_zeros b n (x ∷ xs) = ap (λ (t : ℕ). x + b * t) (number-append_zeros b n xs)

pending-zero : (xs : List ℕ) → pending 0 xs ≡ number 128 xs
pending-zero [] = refl
pending-zero (c ∷ rest) = omega arith

encoded_number :
    (xs : List ℕ) (size : ℕ) (o : Option (List ℕ)) (p : Packed)
    → Option.map
        (λ out. record { count = length out; ret = out ++ replicate (size - length out) 0 })
        o
      ≡ some p
    → ((out : List ℕ) → o ≡ some out → PackedAs 0 xs out)
    → number 256 p.ret ≡ number 128 xs
encoded_number xs size none p h k = cc
encoded_number xs size (some out) p h k =
    ap (λ (q : Packed). number 256 q.ret) (sym (some_eq h))
    ∙ number-append_zeros 256 (size - length out) out
    ∙ (k out refl).0
    ∙ pending-zero xs

-- Packing loses nothing and adds nothing. When `gsm7_encode` accepts a list of septets, the
-- buffer that it leaves, read as one number with octets for digits (lowest first), equals the
-- number whose digits are the septets.
pub gsm7_encode-number :
    (from : List ℕ) (ret_size : ℕ) (p : Packed)
    → IsSeptets from
    → gsm7_encode from ret_size ≡ some p
    → number 256 p.ret ≡ number 128 from
unfolding gsm7_encode
gsm7_encode-number from ret_size p hx h =
    encoded_number from ret_size (pack_loop 0 ret_size from) p h
      (λ out. pack_loop-PackedAs 0 ret_size from out (omega arith) hx)
