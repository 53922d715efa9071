-- ===== src/Gsm7/PackedSize.antt =====
-- How many octets `gsm7_encode` of iconv/gsm7.c stores, and when it returns -1.
use mathlib.Core.Option
use native.Mathlib.Decide.{dec_lt}
use libsmpp.Prelude.{
  ℕ, zero, suc, ◌+◌, ◌-◌, ◌/◌, ◌≤◌, ◌<◌, ◌≡◌, refl, ◌⊎◌, inl, inr, List, [], ◌∷◌, ◌++◌, Option,
  none, some, arith, length, length-append, length-replicate, some_eq, subst, ap, replicate, ◌∙◌,
}
use libsmpp.Gsm7.Packing.{packed_octet, pack_loop, gsm7_encode, Packed}
use libsmpp.Gsm7.PackedValue.{packed_size, pack_loop-seven, pack_loop-full, pack_loop-room}

-- The result is -1 for lack of room, or fills exactly `k` octets.
abbrev Sized : ℕ → ℕ → Option (List ℕ) → Type 0
Sized room k o =
    ((o ≡ none) × (room < k)) ⊎ ((out : List ℕ) × (o ≡ some out) × (length out ≡ k) × (k ≤ room))

cons-Sized :
    (room k x : ℕ) (o : Option (List ℕ))
    → Sized room k o
    → Sized (suc room) (suc k) (Option.map (λ out. x ∷ out) o)
cons-Sized room k x none (inl h) = inl (refl, omega arith)
cons-Sized room k x (some out) (inl h) = cc
cons-Sized room k x none (inr h) = cc
cons-Sized room k x (some out) (inr (t, e, l, b)) = inr (x ∷ out, refl, ground arith, omega arith)

seven-Sized :
    (s room c : ℕ) (rest : List ℕ)
    → s ≡ 7
    → Sized room (packed_size 0 (length rest)) (pack_loop 0 room rest)
    → Sized room (packed_size s (length (c ∷ rest))) (pack_loop s room (c ∷ rest))
seven-Sized s room c rest e h =
    let same : packed_size 0 (length rest) ≡ packed_size 7 (length (c ∷ rest)) = omega arith in
    rw (e, pack_loop-seven room c rest) (subst (λ k. Sized room k (pack_loop 0 room rest)) same h)

room-Sized :
    (s room c : ℕ) (rest : List ℕ)
    → s < 7
    → Sized room (packed_size (s + 1) (length rest)) (pack_loop (s + 1) room rest)
    → Sized (suc room) (packed_size s (length (c ∷ rest))) (pack_loop s (suc room) (c ∷ rest))
room-Sized s room c rest p h =
    let same : suc (packed_size (s + 1) (length rest)) ≡ packed_size s (length (c ∷ rest)) =
      omega arith in
    rw (pack_loop-room s room c rest p) (
      subst
        (λ k.
          Sized (suc room) k
            (Option.map (λ out. packed_octet s c rest ∷ out) (pack_loop (s + 1) room rest)))
        same (cons-Sized room _ (packed_octet s c rest) _ h))

pack_loop-Sized :
    (s room : ℕ) (xs : List ℕ)
    → s ≤ 7
    → Sized room (packed_size s (length xs)) (pack_loop s room xs)
unfolding pack_loop
pack_loop-Sized s room [] hs = inr ([], refl, omega arith, omega arith)
pack_loop-Sized s zero (c ∷ rest) hs = elim (dec_lt s 7) [
  | yes p ↦ inl (pack_loop-full s c rest p, omega arith)
  | no p ↦ seven-Sized s 0 c rest (omega arith) (pack_loop-Sized 0 zero rest (omega arith))
]
pack_loop-Sized s (suc room) (c ∷ rest) hs = elim (dec_lt s 7) [
  | yes p ↦ room-Sized s room c rest p (pack_loop-Sized (s + 1) room rest (omega arith))
  | no p ↦
      seven-Sized s (suc room) c rest (omega arith)
        (pack_loop-Sized 0 (suc room) rest (omega arith))
]

-- -1 below `k` octets of room, and otherwise `k` octets in a buffer of the size given.
abbrev pub Outcome : ℕ → ℕ → Option Packed → Type 0
Outcome size k o =
    ((o ≡ none) × (size < k))
    ⊎ ((p : Packed) × (o ≡ some p) × (p.count ≡ k) × (k ≤ size) × (length p.ret ≡ size))

filled :
    (size k : ℕ) (o : Option (List ℕ))
    → Sized size k o
    → Outcome size k (
        Option.map
          (λ out. record { count = length out; ret = out ++ replicate (size - length out) 0 })
          o)
filled size k none (inl h) = inl (refl, h.1)
filled size k (some out) (inl h) = cc
filled size k none (inr h) = cc
filled size k (some out) (inr (t, e, l, b)) =
    let same : length out ≡ k = ap length (some_eq e) ∙ l in
    let rest = length-replicate (size - length out) (zero) in
    inr (_, refl, same, b, omega (arith, length-append out (replicate (size - length out) 0), rest))

-- Eight septets take seven octets. For `n` input characters `gsm7_encode` returns -1 exactly when
-- the buffer has fewer than `n - n / 8` octets; otherwise the count is that number, and the buffer
-- keeps its size.
pub gsm7_encode-size :
    (from : List ℕ) (ret_size : ℕ)
    → Outcome ret_size (length from - length from / 8) (gsm7_encode from ret_size)
unfolding gsm7_encode
gsm7_encode-size from ret_size = filled ret_size _ (pack_loop 0 ret_size from) (
    subst (λ k. Sized ret_size k (pack_loop 0 ret_size from)) (omega arith)
      (pack_loop-Sized 0 ret_size from (omega arith)))
