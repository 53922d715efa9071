-- ===== src/Codec/Accepted.antt =====
-- What `smpp34_unpack` accepts: each macro gives a value of its field's C type.
use libsmpp.Prelude.{
  ℕ, zero, suc, ◌+◌, ◌*◌, ◌≤◌, ◌<◌, ◌≡◌, ◌≢◌, ◌==◌, refl, subst, ltb, ltb→ge, if◌then◌else◌, Bool,
  true, false, inl, inr, Option, some, some_eq, List, [], ◌∷◌, length, length-take, length-drop,
  take, drop, All, arith, if-cases, ==→ne,
}
use libsmpp.Codec.Checks.{Check, valid}
use libsmpp.Codec.Octets.{
  Reader, give, ◌▸◌, Width, w08, w16, w32, take_word, unpack_word, until_nul, unpack_c_octet,
  unpack_octets,
}
use libsmpp.Codec.Fitting.{AreOctets, IsWord, IsText, IsArray}
use libsmpp.Codec.RoundTrip.{>>=-eq-some}
use libsmpp.Codec.RoundTrip.Words.{limit, guard_true, guard_false}

-- The reader gives a value with the property, and leaves part of the octets.
abbrev pub Yields : {A : Type 0} → Reader A → (A → Type 0) → Type 0
Yields {A} r P =
    (bs rest : List ℕ) (a : A)
    → AreOctets bs
    → r bs ≡ some (a, rest)
    → P a × AreOctets rest × (length rest ≤ length bs)

-- The value and the octets that a reader ends with.
pub landed :
    {A : Type 0} (P : A → Type 0) (a b : A) (tail rest : List ℕ) (n : ℕ)
    → P a
    → AreOctets tail
    → length tail ≤ n
    → ◌≡◌ {A = Option (A × List ℕ)} (some (a, tail)) (some (b, rest))
    → P b × AreOctets rest × (length rest ≤ n)
landed P a b tail rest n p octets le h =
    subst (λ (t : _). P t.0 × AreOctets t.1 × (length t.1 ≤ n)) (some_eq h) (p, octets, le)

pub give-Yields : {A : Type 0} (P : A → Type 0) (a : A) → P a → Yields (give a) P
unfolding give
give-Yields P a p bs rest b octets h = landed P a b bs rest (length bs) p octets (omega arith) h

pub ▸-Yields :
    {A B : Type 0} (r : Reader A) (k : A → Reader B) (P : A → Type 0) (Q : B → Type 0)
    → Yields r P
    → ((a : A) → P a → Yields (k a) Q)
    → Yields (r ▸ k) Q
unfolding ◌▸◌
▸-Yields r k P Q first second bs rest b octets h =
    let m = >>=-eq-some (r bs) _ (b, rest) h in
    let p = first bs m.0.1 m.0.0 octets m.1 in
    let q = second m.0.0 p.0 m.0.1 rest b p.1 m.2 in (q.0, q.1, omega (arith, p.2, q.2))

pub if-Yields :
    {A : Type 0} (c : Bool) (r q : Reader A) (P : A → Type 0)
    → (c ≡ true → Yields r P)
    → (c ≡ false → Yields q P)
    → Yields (if c then r else q) P
if-Yields true r q P h k = h refl
if-Yields false r q P h k = k refl

take_word-Yields : (width : Width) → Yields (take_word width) (λ v. v < limit width)
unfolding take_word
take_word-Yields w08 (a ∷ bs) rest v o h =
    landed (λ w. w < 256) a v bs rest (suc (length bs)) o.0 o.1 (omega arith) h
take_word-Yields w08 [] rest v o h = absurd cc
take_word-Yields w16 (a ∷ b ∷ bs) rest v o h =
    landed (λ w. w < 65536) (a * 256 + b) v bs rest (suc (suc (length bs)))
      (omega (arith, o.0, o.1.0)) o.1.1 (omega arith) h
take_word-Yields w16 (a ∷ []) rest v o h = absurd cc
take_word-Yields w16 [] rest v o h = absurd cc
take_word-Yields w32 (a ∷ b ∷ c ∷ d ∷ bs) rest v o h =
    landed (λ w. w < 4294967296) (((a * 256 + b) * 256 + c) * 256 + d) v bs rest
      (suc (suc (suc (suc (length bs))))) (omega (arith, o.0, o.1.0, o.1.1.0, o.1.1.1.0)) o.1.1.1.1
      (omega arith) h
take_word-Yields w32 (a ∷ b ∷ c ∷ []) rest v o h = absurd cc
take_word-Yields w32 (a ∷ b ∷ []) rest v o h = absurd cc
take_word-Yields w32 (a ∷ []) rest v o h = absurd cc
take_word-Yields w32 [] rest v o h = absurd cc

pub unpack_word-Yields :
    (width : Width) (check : Check) → Yields (unpack_word width check) (IsWord width check)
unfolding unpack_word
unpack_word-Yields width check bs rest v octets h =
    let m = >>=-eq-some (take_word width bs) _ (v, rest) h in
    let e = guard_true (valid check m.0.0) (some m.0) (v, rest) m.2 in
    let p = take_word-Yields width bs m.0.1 m.0.0 octets m.1 in
    landed (IsWord width check) m.0.0 v m.0.1 rest (length bs) (p.0, e.0) p.1 p.2 e.1

-- The text in front of the first NUL.
until_nul-Yields : Yields until_nul (λ text. All (λ b. (b ≢ 0) × (b < 256)) text)
unfolding until_nul
until_nul-Yields [] rest text octets h = absurd cc
until_nul-Yields (b ∷ bs) rest text octets h =
    elim (if-cases (b == 0) (some ([], bs)) _ (some (text, rest)) h) [
      | inl p ↦
          landed (λ t. All (λ c. (c ≢ 0) × (c < 256)) t) [] text bs rest (suc (length bs)) tt
            octets.1 (omega arith) p.1
      | inr p ↦
          let m = >>=-eq-some (until_nul bs) _ (text, rest) p.1 in
          let q = until_nul-Yields bs m.0.1 m.0.0 octets.1 m.1 in
          landed (λ t. All (λ c. (c ≢ 0) × (c < 256)) t) (b ∷ m.0.0) text m.0.1 rest
            (suc (length bs)) ((==→ne b 0 p.0, octets.0), q.0) q.1 (omega (arith, q.2)) m.2
    ]

pub unpack_c_octet-Yields : (size : ℕ) → Yields (unpack_c_octet size) (IsText size)
unfolding unpack_c_octet
unpack_c_octet-Yields size bs rest text octets h =
    let m = >>=-eq-some (until_nul bs) _ (text, rest) h in
    let e = guard_false (ltb size (suc (length m.0.0))) (some m.0) (text, rest) m.2 in
    let p = until_nul-Yields bs m.0.1 m.0.0 octets m.1 in
    landed (IsText size) m.0.0 text m.0.1 rest (length bs)
      (p.0, omega (arith, ltb→ge size (suc (length m.0.0)) e.0)) p.1 p.2 e.1

All-drop : (n : ℕ) (bs : List ℕ) → AreOctets bs → AreOctets (drop n bs)
All-drop zero bs h = h
All-drop (suc n) [] h = tt
All-drop (suc n) (b ∷ bs) h = All-drop n bs h.1

All-take : (n : ℕ) (bs : List ℕ) → AreOctets bs → AreOctets (take n bs)
All-take zero bs h = tt
All-take (suc n) [] h = tt
All-take (suc n) (b ∷ bs) h = (h.0, All-take n bs h.1)

pub unpack_octets-Yields : (size len : ℕ) → Yields (unpack_octets size len) (IsArray size len)
unfolding unpack_octets
unpack_octets-Yields size len bs rest array octets h =
    let e = guard_false (ltb (length bs) len) _ (array, rest) h in
    let f = guard_false (ltb size len) _ (array, rest) e.1 in
    let enough : len ≡ length (take len bs) =
      omega (arith, length-take len bs, ltb→ge (length bs) len e.0) in
    let fits : length (take len bs) ≤ size = omega (arith, enough, ltb→ge size len f.0) in
    landed (IsArray size len) (take len bs) array (drop len bs) rest (length bs)
      (enough, fits, All-take len bs octets) (All-drop len bs octets)
      (omega (arith, length-drop len bs)) f.1
