-- ===== src/Codec/RoundTrip/Words.antt =====
-- One value: U32, U16, U08, C_OCTET, OCTET8 and OCTET16.
use libsmpp.Prelude.{
  ℕ, zero, suc, ◌-◌, ◌≤◌, ◌<◌, ne→==, leb, ltb, if◌then◌else◌, ◌≡◌, ◌≢◌, refl, ◌∙◌, ap, sym, subst,
  Bool, true, false, Bool-cases, inl, inr, Option, none, some, some_eq, List, [], ◌∷◌, ◌++◌, length,
  length-append, length-take, take, drop, All, arith, ge→ltb, leb→gt, ltb→ge,
}
use libsmpp.Codec.Checks.{Check, valid}
use libsmpp.Codec.Octets.{
  Width, w08, w16, w32, big_endian, pack_word, take_word, unpack_word, truncated, pack_c_octet,
  until_nul, unpack_c_octet, pack_octet8, pack_octet16, unpack_octets,
}
use libsmpp.Codec.RoundTrip.{Restores}

-- The numbers of a width.
abbrev pub limit : Width → ℕ
limit w08 = 256
limit w16 = 65536
limit w32 = 4294967296

pub take_word-big_endian :
    (width : Width) (v : ℕ) (rest : List ℕ)
    → v < limit width
    → take_word width (big_endian width v ++ rest) ≡ some (v, rest)
unfolding take_word big_endian
take_word-big_endian w08 v rest h = refl
take_word-big_endian w16 v rest h = ap (λ x. some (x, rest)) (omega arith)
take_word-big_endian w32 v rest h = ap (λ x. some (x, rest)) (omega arith)

-- A test that holds where the other branch fails.
pub guard_true {ℓ} :
    {A : Type ℓ} (b : Bool) (o : Option A) (a : A)
    → (if b then o else none) ≡ some a
    → (b ≡ true) × (o ≡ some a)
guard_true true o a h = (refl, h)
guard_true false o a h = absurd cc

pub guard_false {ℓ} :
    {A : Type ℓ} (b : Bool) (o : Option A) (a : A)
    → (if b then none else o) ≡ some a
    → (b ≡ false) × (o ≡ some a)
guard_false true o a h = absurd cc
guard_false false o a h = (refl, h)

pub pack_word-some :
    (width : Width) (check : Check) (v left : ℕ) (bs : List ℕ)
    → pack_word width check v left ≡ some bs
    → (valid check v ≡ true) × (big_endian width v ≡ bs) × (length bs < left)
unfolding pack_word
pack_word-some width check v left bs h =
    let p = guard_false (leb left (length (big_endian width v))) _ bs h in
    let q = guard_true (valid check v) _ bs p.1 in
    let e = some_eq q.1 in (q.0, e, subst (λ (xs : List ℕ). length xs < left) e (leb→gt _ _ p.0))

pub pack_word-Restores :
    (width : Width) (check : Check) (v : ℕ)
    → v < limit width
    → Restores (pack_word width check v) (unpack_word width check) v
unfolding unpack_word
pack_word-Restores width check v lt left bs rest h =
    let p = pack_word-some width check v left bs h in
    rw (sym p.1, take_word-big_endian width v rest lt, p.0) refl

-- A text without a NUL ends at the first one.
until_nul-append :
    (text rest : List ℕ)
    → All (λ b. b ≢ 0) text
    → until_nul ((text ++ (0 ∷ [])) ++ rest) ≡ some (text, rest)
unfolding until_nul
until_nul-append [] rest h = refl
until_nul-append (b ∷ text) rest h = rw (ne→== b 0 h.0, until_nul-append text rest h.1) refl

All-take : {A : Type 0} (P : A → Type 0) (n : ℕ) (xs : List A) → All P xs → All P (take n xs)
All-take P zero xs h = tt
All-take P (suc n) [] h = tt
All-take P (suc n) (x ∷ xs) h = (h.0, All-take P n xs h.1)

-- A text that was cut has no NUL and fits its field.
pub truncated-fits :
    (size : ℕ) (text : List ℕ)
    → 0 < size
    → All (λ b. b ≢ 0) text
    → All (λ b. b ≢ 0) (truncated size text) × (length (truncated size text) < size)
unfolding truncated
truncated-fits size text pos h = elim (Bool-cases (ltb size (suc (length text)))) [
  | inl e ↦
      rw e (All-take (λ b. b ≢ 0) (size - 1) text h, omega (arith, length-take (size - 1) text))
  | inr e ↦ rw e (h, omega (arith, ltb→ge size (suc (length text)) e))
]

pub pack_c_octet-some :
    (size : ℕ) (text : List ℕ) (left : ℕ) (bs : List ℕ)
    → pack_c_octet size text left ≡ some bs
    → (length text < left) × (truncated size text ++ (0 ∷ []) ≡ bs)
unfolding pack_c_octet
pack_c_octet-some size text left bs h =
    let p = guard_false (ltb left (suc (length text))) _ bs h in
    (omega (arith, ltb→ge left (suc (length text)) p.0), some_eq p.1)

pub pack_c_octet-Restores :
    (size : ℕ) (text : List ℕ)
    → 0 < size
    → All (λ b. b ≢ 0) text
    → Restores (pack_c_octet size text) (unpack_c_octet size) (truncated size text)
unfolding unpack_c_octet
pack_c_octet-Restores size text pos h left bs rest e =
    let fit = truncated-fits size text pos h in
    let enough : ltb size (suc (length (truncated size text))) ≡ false =
      ge→ltb size (suc (length (truncated size text))) (omega (arith, fit.1)) in
    rw
      (
        sym (pack_c_octet-some size text left bs e).1,
        until_nul-append (truncated size text) rest fit.0,
        enough,
      )
      refl

take-append : {A : Type 0} (xs ys : List A) → take (length xs) (xs ++ ys) ≡ xs
take-append [] ys = refl
take-append (x ∷ xs) ys = ap (λ t. x ∷ t) (take-append xs ys)

take_whole : {A : Type 0} (xs : List A) → take (length xs) xs ≡ xs
take_whole [] = refl
take_whole (x ∷ xs) = ap (λ t. x ∷ t) (take_whole xs)

drop-append : {A : Type 0} (xs ys : List A) → drop (length xs) (xs ++ ys) ≡ ys
drop-append [] ys = refl
drop-append (x ∷ xs) ys = drop-append xs ys

-- An array of as many octets as its length says.
pub unpack_octets-append :
    (size : ℕ) (array rest : List ℕ)
    → length array ≤ size
    → unpack_octets size (length array) (array ++ rest) ≡ some (array, rest)
unfolding unpack_octets
unpack_octets-append size array rest fits =
    let there : ltb (length (array ++ rest)) (length array) ≡ false =
      ge→ltb (length (array ++ rest)) (length array) (omega (arith, length-append array rest)) in
    rw (there, ge→ltb size (length array) fits, take-append array rest, drop-append array rest) refl

pub pack_octet8-some :
    (size : ℕ) (array : List ℕ) (left : ℕ) (bs : List ℕ)
    → pack_octet8 size (length array) array left ≡ some bs
    → (length array < left) × (length array < size) × (array ≡ bs)
unfolding pack_octet8
pack_octet8-some size array left bs h =
    let p = guard_false (leb left (length array)) _ bs h in
    let q = guard_false (leb size (length array)) _ bs p.1 in
    (leb→gt _ _ p.0, leb→gt _ _ q.0, sym (take_whole array) ∙ some_eq q.1)

pub pack_octet16-some :
    (size : ℕ) (array : List ℕ) (left : ℕ) (bs : List ℕ)
    → pack_octet16 size (length array) array left ≡ some bs
    → (length array < left) × (length array ≤ size) × (array ≡ bs)
unfolding pack_octet16
pack_octet16-some size array left bs h =
    let p = guard_false (leb left (length array)) _ bs h in
    let q = guard_false (ltb size (length array)) _ bs p.1 in
    (leb→gt _ _ p.0, ltb→ge _ _ q.0, sym (take_whole array) ∙ some_eq q.1)

pub pack_octet8-Restores :
    (size : ℕ) (array : List ℕ)
    → Restores (pack_octet8 size (length array) array) (unpack_octets size (length array)) array
pack_octet8-Restores size array left bs rest e =
    let p = pack_octet8-some size array left bs e in
    rw (sym p.2) (unpack_octets-append size array rest (omega (arith, p.1)))

pub pack_octet16-Restores :
    (size : ℕ) (array : List ℕ)
    → Restores (pack_octet16 size (length array) array) (unpack_octets size (length array)) array
pack_octet16-Restores size array left bs rest e =
    let p = pack_octet16-some size array left bs e in
    rw (sym p.2) (unpack_octets-append size array rest (omega (arith, p.1)))
