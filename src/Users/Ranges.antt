-- ===== src/Users/Ranges.antt =====
-- Which addresses a range matches.
use libsmpp.Prelude.{
  ℕ, ◌+◌, ◌-◌, ◌*◌, ◌%◌, ◌^◌, ◌<◌, ◌≤◌, ◌≡◌, ne→==, refl, ap, ◌↔◌, ltb, leb, gt→leb, le→leb,
  if◌then◌else◌, true, false, ◌&&◌, ◌||◌, [], ◌∷◌, length, All, arith,
}
use libsmpp.Users.Address.{
  Text, is_space, is_digit, skip_spaces, digits, sign, starts_with_digit, to_int, strtol, atoi,
  int_le, is_empty, range, matches,
}

-- A decimal numeral.
abbrev pub IsNumeral : Text → Type 0
IsNumeral s = All (λ c. (48 ≤ c) × (c ≤ 57)) s × (0 < length s)

-- Its value, behind `acc`.
unfoldable pub value : ℕ → Text → ℕ
value acc [] = acc
value acc (c ∷ s) = value (acc * 10 + (c - 48)) s

digits-value :
    (acc : ℕ) (s : Text) → All (λ c. (48 ≤ c) × (c ≤ 57)) s → digits acc s ≡ (value acc s, [])
unfolding digits value is_digit
digits-value acc [] h = refl
digits-value acc (c ∷ s) h =
    rw (le→leb 48 c h.0.0, le→leb c 57 h.0.1) (digits-value (acc * 10 + (c - 48)) s h.1)

digit_first :
    (c : ℕ) (s : Text)
    → 48 ≤ c
    → c ≤ 57
    → (skip_spaces (c ∷ s) ≡ c ∷ s)
      × (sign (c ∷ s) ≡ (false, c ∷ s))
      × (starts_with_digit (c ∷ s) ≡ true)
unfolding skip_spaces is_space sign starts_with_digit is_digit
digit_first c s low high = (
  rw (ne→== c 32 (λ e. absurd (omega arith)), le→leb 9 c (omega arith), gt→leb c 13 (omega arith))
      refl,
  rw (ne→== c 45 (λ e. absurd (omega arith)), ne→== c 43 (λ e. absurd (omega arith))) refl,
  rw (le→leb 48 c low, le→leb c 57 high) refl,
)

to_int-small : (n : ℕ) → n < 2 ^ 31 → to_int false n ≡ n
unfolding to_int
to_int-small n small = omega arith

-- A numeral that an `int` holds is read whole.
strtol-value : (s : Text) → IsNumeral s → value 0 s < 2 ^ 31 → strtol s ≡ (value 0 s, [])
unfolding strtol
strtol-value [] h small = absurd (omega arith)
strtol-value (c ∷ s) h small =
    let d = digit_first c s h.0.0.0 h.0.0.1 in
    rw (d.0, d.1, d.2, digits-value 0 (c ∷ s) h.0)
      (ap (λ (n : ℕ). (n, [])) (to_int-small (value 0 (c ∷ s)) small))

atoi-value : (s : Text) → IsNumeral s → value 0 s < 2 ^ 31 → atoi s ≡ value 0 s
unfolding atoi
atoi-value s h small = ap (λ t. t.0) (strtol-value s h small)

int_le-small : (a b : ℕ) → a < 2 ^ 31 → b < 2 ^ 31 → int_le a b ≡ leb a b
unfolding int_le
int_le-small a b p q =
    let left : (a + 2 ^ 31) % 2 ^ 32 ≡ a + 2 ^ 31 = omega arith in
    let right : (b + 2 ^ 31) % 2 ^ 32 ≡ b + 2 ^ 31 = omega arith in rw (left, right) (ground arith)

between :
    (l n h a b c : ℕ)
    → ((if ltb n l || ltb h n then false else leb a b && leb b c) ≡ true)
      ↔ ((l ≤ n) × (n ≤ h) × (a ≤ b) × (b ≤ c))
between l n h a b c = ground arith

-- A range matches a numeral that an `int` holds exactly when its value lies between those of the
-- two ends and its length between theirs.
pub matches-range :
    (start end address : Text)
    → IsNumeral start
    → IsNumeral end
    → IsNumeral address
    → value 0 start < 2 ^ 31
    → value 0 end < 2 ^ 31
    → value 0 address < 2 ^ 31
    → (matches (range start end) address ≡ true) ↔ (
        (length start ≤ length address)
        × (length address ≤ length end)
        × (value 0 start ≤ value 0 address)
        × (value 0 address ≤ value 0 end))
unfolding matches is_empty
matches-range start end address s e a small_s small_e small_a =
    rw
      (
        strtol-value address a small_a,
        atoi-value start s small_s,
        atoi-value end e small_e,
        int_le-small (value 0 start) (value 0 address) small_s small_a,
        int_le-small (value 0 address) (value 0 end) small_a small_e,
      )
      (between (length start) (length address) (length end) (value 0 start) (value 0 address)
        (value 0 end))

to_int-long : (n : ℕ) → n < 2 ^ 63 → to_int false n ≡ n % 2 ^ 32
unfolding to_int
to_int-long n small = omega arith

strtol_long : (s : Text) → IsNumeral s → value 0 s < 2 ^ 63 → strtol s ≡ (value 0 s % 2 ^ 32, [])
unfolding strtol
strtol_long [] h small = absurd (omega arith)
strtol_long (c ∷ s) h small =
    let d = digit_first c s h.0.0.0 h.0.0.1 in
    rw (d.0, d.1, d.2, digits-value 0 (c ∷ s) h.0)
      (ap (λ (n : ℕ). (n, [])) (to_int-long (value 0 (c ∷ s)) small))

-- The value of an address is cut to an `int`: an address that is a numeral with a value below 2 ^ 63,
-- which a `long` holds, matches a range of numerals up to less than 2 ^ 31 where that value modulo
-- 2 ^ 32 is in the range and the lengths fit.
pub matches_wraps :
    (start end address : Text)
    → IsNumeral start
    → IsNumeral end
    → IsNumeral address
    → value 0 end < 2 ^ 31
    → value 0 address < 2 ^ 63
    → length start ≤ length address
    → length address ≤ length end
    → value 0 start ≤ value 0 address % 2 ^ 32
    → value 0 address % 2 ^ 32 ≤ value 0 end
    → matches (range start end) address ≡ true
unfolding matches is_empty
matches_wraps start end address s e a small long low high after before =
    let v = value 0 address % 2 ^ 32 in
    rw
      (
        strtol_long address a long,
        atoi-value start s (omega arith),
        atoi-value end e small,
        int_le-small (value 0 start) v (omega arith) (omega arith),
        int_le-small v (value 0 end) (omega arith) small,
      )
      ((between (length start) (length address) (length end) (value 0 start) v (value 0 end)).1
        (low, high, after, before))
