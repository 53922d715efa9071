-- ===== src/Prelude/Bits.antt =====
-- `|` of fields that do not overlap, as a sum, and checks of a small range by evaluation.
use Prim.Native.Nat.{
  ℕ, zero, suc, ◌+◌, ◌-◌, ◌*◌, ◌/◌, ◌%◌, ◌^◌, ◌≤◌, ◌<◌, max, bit_or, digits, bit_or-bitwise,
}
use mathlib.Core.Path.{◌≡◌, refl, ap, sym, ◌∙◌}
use mathlib.Core.Bool.{Bool, true, ◌&&◌}
use native.Mathlib.Nat.{pow-suc}
use native.Mathlib.Omega.{arith}

-- A test that passes on each of 0, ..., count - 1.
unfoldable pub passes_below : (ℕ → Bool) → ℕ → Bool
passes_below test zero = true
passes_below test (suc count) = passes_below test count && test count

pub passes_below_at :
    (test : ℕ → Bool) (i count : ℕ) → i < count → passes_below test count ≡ true → test i ≡ true
unfolding passes_below
passes_below_at test i zero lt all = absurd (omega arith)
passes_below_at test i (suc count) lt all = ground (arith, passes_below_at test i count)

-- `more + fuel`, one `suc` at a time.
abbrev add_up : ℕ → ℕ → ℕ
add_up zero fuel = fuel
add_up (suc more) fuel = suc (add_up more fuel)

add_up-eq : (more fuel : ℕ) → add_up more fuel ≡ more + fuel
add_up-eq zero fuel = omega arith
add_up-eq (suc more) fuel = omega (arith, add_up-eq more fuel)

-- `bit_or` by the library's recursion on binary digits, with fuel.
abbrev joint : ℕ → ℕ → ℕ → ℕ
joint fuel = digits (λ y. y) max fuel

-- One unit of fuel more than there are digits is of no use.
joint_spare : (fuel x y : ℕ) → x ≤ fuel → joint (suc fuel) x y ≡ joint fuel x y
joint_spare fuel zero y enough = elim fuel as (λ f. joint (suc f) zero y ≡ joint f zero y) [
  | zero ↦ refl
  | suc f ↦ refl
]
joint_spare zero (suc x) y enough = elim enough [ ]
joint_spare (suc fuel) (suc x) y enough =
    ap (λ (rest : ℕ). rest * 2 + max (suc x % 2) (y % 2))
      (joint_spare fuel (suc x / 2) (y / 2) (omega arith))

joint_exact : (more x y fuel : ℕ) → x ≤ fuel → joint (add_up more fuel) x y ≡ joint fuel x y
joint_exact zero x y fuel enough = refl
joint_exact (suc more) x y fuel enough =
    joint_spare (add_up more fuel) x y (omega (arith, add_up-eq more fuel))
    ∙ joint_exact more x y fuel enough

joint_whole : (x y fuel : ℕ) → x ≤ fuel → joint fuel x y ≡ bit_or x y
joint_whole x y fuel enough =
    let gap : add_up (fuel - x) x ≡ fuel = omega (arith, add_up-eq (fuel - x) x) in
    ap (λ (f : ℕ). joint f x y) (sym gap)
    ∙ joint_exact (fuel - x) x y x (omega arith)
    ∙ sym (bit_or-bitwise x y)

-- The lowest binary digit apart.
bit_or_digit : (x y : ℕ) → bit_or x y ≡ bit_or (x / 2) (y / 2) * 2 + max (x % 2) (y % 2)
bit_or_digit zero y = omega (arith, bit_or-bitwise zero y, bit_or-bitwise zero (y / 2))
bit_or_digit (suc x) y =
    bit_or-bitwise (suc x) y
    ∙ ap (λ (rest : ℕ). rest * 2 + max (suc x % 2) (y % 2))
        (joint_whole (suc x / 2) (y / 2) x (omega arith))

shifted : (high width : ℕ) → high * 2 ^ suc width ≡ 2 * (high * 2 ^ width)
shifted high width = omega (arith, ap (λ (t : ℕ). high * t) (pow-suc 2 width))

halved : (high width : ℕ) → high * 2 ^ suc width / 2 ≡ high * 2 ^ width
halved high width = omega (arith, shifted high width)

-- A low field joined with a high one is their sum.
pub bit_or_low :
    (width low high : ℕ) → low < 2 ^ width → bit_or low (high * 2 ^ width) ≡ low + high * 2 ^ width
bit_or_low zero low high fits =
    let empty : low ≡ 0 = omega arith in rw empty (omega (arith, bit_or-bitwise 0 (high * 2 ^ 0)))
bit_or_low (suc width) low high fits = omega (
  arith,
  shifted high width,
  bit_or_low width (low / 2) high (omega (arith, pow-suc 2 width)),
  ap (bit_or (low / 2)) (halved high width),
  bit_or_digit low (high * 2 ^ suc width),
)

lt_two_pow : (a : ℕ) → a < 2 ^ a
lt_two_pow zero = omega arith
lt_two_pow (suc a) = omega (arith, pow-suc 2 a, lt_two_pow a)

bit_or_nothing : (a : ℕ) → bit_or a 0 ≡ a
bit_or_nothing a =
    let none_there : 0 * 2 ^ a ≡ 0 = omega arith in
    omega (arith, ap (bit_or a) none_there, bit_or_low a a 0 (lt_two_pow a))

-- The same with the high field first.
pub bit_or_high :
    (width high low : ℕ) → low < 2 ^ width → bit_or (high * 2 ^ width) low ≡ high * 2 ^ width + low
bit_or_high zero high low fits =
    let empty : low ≡ 0 = omega arith in rw empty (omega (arith, bit_or_nothing (high * 2 ^ 0)))
bit_or_high (suc width) high low fits = omega (
  arith,
  shifted high width,
  bit_or_high width high (low / 2) (omega (arith, pow-suc 2 width)),
  ap (λ (t : ℕ). bit_or t (low / 2)) (halved high width),
  bit_or_digit (high * 2 ^ suc width) low,
)
