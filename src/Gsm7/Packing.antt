-- ===== src/Gsm7/Packing.antt =====
-- `gsm7_encode` of iconv/gsm7.c: septets packed into octets, eight of them into seven.
use libsmpp.Prelude.{
  ℕ, zero, suc, ◌+◌, ◌-◌, ◌*◌, ◌/◌, ◌%◌, ◌^◌, List, [], ◌∷◌, ◌++◌, Option, none, some, bit_or, ◌==◌,
  if◌then◌else◌, length, replicate,
}
use mathlib.Core.Option

-- `tmp = from[i] >> shifts`, then `tmp |= from[i+1] << (7-shifts)` unless `i` is the last index;
-- `tmp` is an unsigned char.
unfoldable pub packed_octet : ℕ → ℕ → List ℕ → ℕ
packed_octet shifts c [] = c / 2 ^ shifts
packed_octet shifts c (d ∷ rest) = bit_or (c / 2 ^ shifts) (d * 2 ^ (7 - shifts)) % 2 ^ 8

-- The loop, on the rest of the input and with `room = retSize - count`: the octets that it still
-- stores, or `none` where it breaks with -1.
unfoldable pub pack_loop : ℕ → ℕ → List ℕ → Option (List ℕ)
unfolding packed_octet
pack_loop shifts room [] = some []
pack_loop shifts zero (c ∷ rest) = if shifts == 7 then pack_loop 0 zero rest else none
pack_loop shifts (suc room) (c ∷ rest) =
    let skip = pack_loop 0 (suc room) rest in
    let go =
      Option.map (λ out. packed_octet shifts c rest ∷ out) (pack_loop (shifts + 1) room rest) in
    if shifts == 7 then skip else go

-- The result: `count` and the buffer, which is cleared first.
pub record Packed : Type 0 where
  pub count : ℕ
  pub ret : List ℕ

unfoldable pub gsm7_encode : List ℕ → ℕ → Option Packed
unfolding pack_loop
gsm7_encode from ret_size =
    Option.map
      (λ out. record { count = length out; ret = out ++ replicate (ret_size - length out) 0 })
      (pack_loop 0 ret_size from)
