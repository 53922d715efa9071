-- ===== src/Client/Pieces.antt =====
-- The pieces of a text: together they are the text, none is empty or too long, and their number.
use libsmpp.Prelude.{
  ℕ, zero, suc, ◌+◌, ◌/◌, ◌%◌, ◌≤◌, ◌<◌, ◌≡◌, refl, sym, ap, ◌∙◌, ◌==◌, ltb, ltb→lt, ltb→ge, ne→==,
  if◌then◌else◌, Bool-cases, inl, inr, List, [], ◌∷◌, ◌++◌, length, length-take, length-drop, take,
  drop, All, arith,
}
use native.Mathlib.Nat.{zero-div, add-div_left, div-eq_of_lt, mod-eq_of_lt, add-mod_left}
use libsmpp.Commands.Arrays.{drop_all}
use libsmpp.Client.Settings.{MessageSettings, short_limit, message_length}
use libsmpp.Client.Segments.{chunks}

abbrev pub join : List (List ℕ) → List ℕ
join [] = []
join (c ∷ cs) = c ++ join cs

take-drop : (n : ℕ) (xs : List ℕ) → take n xs ++ drop n xs ≡ xs
take-drop zero xs = refl
take-drop (suc n) [] = refl
take-drop (suc n) (x ∷ xs) = ap (λ (t : List ℕ). x ∷ t) (take-drop n xs)

pub join-chunks :
    (fuel n : ℕ) (xs : List ℕ) → 0 < n → length xs ≤ fuel → join (chunks fuel n xs) ≡ xs
unfolding chunks
join-chunks zero n [] pos h = refl
join-chunks zero n (x ∷ xs) pos h = absurd (omega arith)
join-chunks (suc fuel) n [] pos h = refl
join-chunks (suc fuel) n (x ∷ xs) pos h =
    ap (λ (t : List ℕ). take n (x ∷ xs) ++ t)
      (join-chunks fuel n (drop n (x ∷ xs)) pos (omega (arith, length-drop n (x ∷ xs))))
    ∙ take-drop n (x ∷ xs)

pub chunks_bounded :
    (fuel n : ℕ) (xs : List ℕ)
    → 0 < n
    → All (λ c. (0 < length c) × (length c ≤ n)) (chunks fuel n xs)
unfolding chunks
chunks_bounded zero n xs pos = tt
chunks_bounded (suc fuel) n [] pos = tt
chunks_bounded (suc fuel) n (x ∷ xs) pos = (
  (omega (arith, length-take n (x ∷ xs)), omega (arith, length-take n (x ∷ xs))),
  chunks_bounded fuel n (drop n (x ∷ xs)) pos,
)

-- The number of segments as the code computes it.
abbrev pub total_of : ℕ → ℕ → ℕ
total_of len n = len / n + (if len % n == 0 then 0 else 1)

total_step : (n r : ℕ) → 0 < n → total_of (n + r) n ≡ suc (total_of r n)
total_step n r pos = rw (add-div_left r pos, add-mod_left n r) (omega arith)

total_short : (n len : ℕ) → 0 < len → len < n → total_of len n ≡ 1
total_short n len pos lt =
    rw (div-eq_of_lt lt, mod-eq_of_lt lt, ne→== len 0 (λ e. omega arith)) refl

total_zero : (n : ℕ) → 0 < n → total_of 0 n ≡ 0
total_zero n pos = rw (zero-div n, mod-eq_of_lt pos) refl

chunks-nil : (fuel n : ℕ) → length (chunks fuel n []) ≡ 0
unfolding chunks
chunks-nil zero n = refl
chunks-nil (suc fuel) n = refl

pub length-chunks :
    (fuel n : ℕ) (xs : List ℕ)
    → 0 < n
    → length xs ≤ fuel
    → length (chunks fuel n xs) ≡ total_of (length xs) n
unfolding chunks
length-chunks zero n [] pos h = sym (total_zero n pos)
length-chunks zero n (x ∷ xs) pos h = absurd (omega arith)
length-chunks (suc fuel) n [] pos h = sym (total_zero n pos)
length-chunks (suc fuel) n (x ∷ xs) pos h =
    let rest = drop n (x ∷ xs) in
    let len = length-drop n (x ∷ xs) in
    elim (Bool-cases (ltb (length (x ∷ xs)) n)) [
      | inl e ↦
          let lt = ltb→lt (length (x ∷ xs)) n e in
          ap suc (
            ap (λ (ys : List ℕ). length (chunks fuel n ys)) (drop_all n (x ∷ xs) (omega arith))
            ∙ chunks-nil fuel n)
          ∙ sym (total_short n (length (x ∷ xs)) (omega arith) lt)
      | inr e ↦
          let ge = ltb→ge (length (x ∷ xs)) n e in
          let sum : n + length rest ≡ length (x ∷ xs) = omega (arith, len) in
          ap suc (length-chunks fuel n rest pos (omega (arith, len)))
          ∙ sym (total_step n (length rest) pos)
          ∙ ap (λ (l : ℕ). total_of l n) sum
    ]

short_limit_bounds : (s : MessageSettings) → (0 < short_limit s) × (short_limit s ≤ 254)
unfolding short_limit
short_limit_bounds s = ground arith

pub message_length_bounds :
    (s : MessageSettings) → (0 < message_length s) × (message_length s ≤ 1024)
unfolding message_length
message_length_bounds s = ground (arith, short_limit_bounds s)
