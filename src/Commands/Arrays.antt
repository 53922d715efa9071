-- ===== src/Commands/Arrays.antt =====
-- Texts (`std::string`) and arrays of `char`, as smppcommands.hpp copies one to the other.
use mathlib.Core.Option
use libsmpp.Prelude.{
  ℕ, zero, suc, ◌-◌, ◌≤◌, ◌<◌, ◌≡◌, refl, ap, ◌==◌, if◌then◌else◌, ne→==, Option, none, some, List,
  [], ◌∷◌, ◌++◌, length, take, drop, replicate, All, length-replicate, append_assoc, append-nil,
  arith,
}

-- What a `char *` to an array reads: the octets in front of the first NUL. `none` stands for an array
-- without one, where the read goes on behind its end.
unfoldable pub c_string : List ℕ → Option (List ℕ)
c_string [] = none
c_string (c ∷ cs) =
    let rest = Option.map (λ s. c ∷ s) (c_string cs) in if c == 0 then some [] else rest

-- What `%s` reads of `c_str()`: a text has a NUL behind its end.
unfoldable pub c_str : List ℕ → List ℕ
c_str [] = []
c_str (c ∷ cs) = let rest = c ∷ c_str cs in if c == 0 then [] else rest

-- `snprintf(array, ARRAY_LEN(array), "%s", text.c_str())`: at most all octets but one, and a NUL.
unfoldable pub snprintf : List ℕ → List ℕ → List ℕ
snprintf array text =
    let s = take (length array - 1) (c_str text) ++ (0 ∷ []) in s ++ drop (length s) array

-- `memcpy` of as many octets as both have; the rest of the array stays.
unfoldable pub memcpy_min : List ℕ → List ℕ → List ℕ
memcpy_min array text = take (length array) text ++ drop (length text) array

-- A text without NUL.
abbrev pub IsPlain : List ℕ → Type 0
IsPlain = All (λ c. 0 < c)

pub c_string-append : (s rest : List ℕ) → IsPlain s → c_string (s ++ (0 ∷ rest)) ≡ some s
unfolding c_string
c_string-append [] rest h = refl
c_string-append (c ∷ s) rest h =
    rw (ne→== c 0 (λ e. omega arith)) (rw (c_string-append s rest h.1) refl)

pub c_string-none : (s : List ℕ) → IsPlain s → c_string s ≡ none
unfolding c_string
c_string-none [] h = refl
c_string-none (c ∷ s) h = rw (ne→== c 0 (λ e. omega arith)) (rw (c_string-none s h.1) refl)

c_str_plain : (s : List ℕ) → IsPlain s → c_str s ≡ s
unfolding c_str
c_str_plain [] h = refl
c_str_plain (c ∷ s) h =
    rw (ne→== c 0 (λ e. omega arith)) (ap (λ (t : List ℕ). c ∷ t) (c_str_plain s h.1))

take-IsPlain : (n : ℕ) (s : List ℕ) → IsPlain s → IsPlain (take n s)
take-IsPlain zero s h = tt
take-IsPlain (suc n) [] h = tt
take-IsPlain (suc n) (c ∷ s) h = (h.0, take-IsPlain n s h.1)

pub take_all {ℓ} : {A : Type ℓ} (n : ℕ) (s : List A) → length s ≤ n → take n s ≡ s
take_all zero [] h = refl
take_all zero (c ∷ s) h = absurd (omega arith)
take_all (suc n) [] h = refl
take_all (suc n) (c ∷ s) h = ap (λ t. c ∷ t) (take_all n s (omega arith))

pub drop_all {ℓ} : {A : Type ℓ} (n : ℕ) (s : List A) → length s ≤ n → drop n s ≡ []
drop_all zero [] h = refl
drop_all zero (c ∷ s) h = absurd (omega arith)
drop_all (suc n) [] h = refl
drop_all (suc n) (c ∷ s) h = drop_all n s (omega arith)

-- A text that `snprintf` wrote is read back, cut to the room of the array.
pub c_string-snprintf :
    (array text : List ℕ)
    → IsPlain text
    → c_string (snprintf array text) ≡ some (take (length array - 1) text)
unfolding snprintf
c_string-snprintf array text h =
    rw (c_str_plain text h, append_assoc)
      (c_string-append (take (length array - 1) text) _ (take-IsPlain (length array - 1) text h))

drop-replicate : (m n : ℕ) → m < n → (k : ℕ) × (drop {A = ℕ} m (replicate n 0) ≡ 0 ∷ replicate k 0)
drop-replicate m zero h = absurd (omega arith)
drop-replicate zero (suc n) h = (n, refl)
drop-replicate (suc m) (suc n) h = drop-replicate m n (omega arith)

-- A shorter text in an array of zeros is read back.
pub c_string-memcpy_min :
    (n : ℕ) (text : List ℕ)
    → IsPlain text
    → length text < n
    → c_string (memcpy_min (replicate n 0) text) ≡ some text
unfolding memcpy_min
c_string-memcpy_min n text h short =
    rw (length-replicate {A = ℕ} n 0, (drop-replicate (length text) n short).1)
      (rw (take_all n text (omega arith)) (c_string-append text _ h))

-- A text that fills the array leaves no NUL in it.
pub c_string-memcpy_min_full :
    (array text : List ℕ)
    → IsPlain text
    → length array ≤ length text
    → c_string (memcpy_min array text) ≡ none
unfolding memcpy_min
c_string-memcpy_min_full array text h long =
    rw (drop_all (length text) array long, append-nil)
      (c_string-none (take (length array) text) (take-IsPlain (length array) text h))
