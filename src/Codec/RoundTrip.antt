-- ===== src/Codec/RoundTrip.antt =====
-- What a macro of `smpp34_pack` writes, the one of `smpp34_unpack` reads back.
pub mod Words
pub mod Parts
pub mod Tlvs
pub mod Pdus
use libsmpp.Prelude.{
  ℕ, ◌+◌, ◌-◌, ◌≡◌, refl, ap, sym, ◌∙◌, Option, none, some, List, ◌++◌, append_assoc, length,
  some_eq,
}
use libsmpp.Codec.Octets.{◌>>=◌, Writer, Reader, skip, give, ◌▹◌, ◌▸◌}

-- The reader finds the value in what the writer appended, and leaves what stands behind it.
abbrev pub Restores : {A : Type 0} → Writer → Reader A → A → Type 0
Restores w r a = (left : ℕ) (bs rest : List ℕ) → w left ≡ some bs → r (bs ++ rest) ≡ some (a, rest)

pub >>=-eq-some {ℓ κ} :
    {A : Type ℓ} {B : Type κ} (m : Option A) (f : A → Option B) (b : B)
    → (m >>= f) ≡ some b
    → (a : A) × (m ≡ some a) × (f a ≡ some b)
>>=-eq-some none f b h = absurd cc
>>=-eq-some (some a) f b h = (a, refl, h)

-- What two writers append, one after the other.
pub ▹-some :
    (w v : Writer) (left : ℕ) (bs : List ℕ)
    → (w ▹ v) left ≡ some bs
    → (xs ys : List ℕ) × (w left ≡ some xs) × (v (left - length xs) ≡ some ys) × (xs ++ ys ≡ bs)
unfolding ◌▹◌
▹-some w v left bs h =
    let p = >>=-eq-some (w left) _ bs h in
    let q = >>=-eq-some (v (left - length p.0)) _ bs p.2 in (p.0, q.0, p.1, q.1, some_eq q.2)

pub ▸-Restores :
    {A B : Type 0} (w v : Writer) (r : Reader A) (k : A → Reader B) (a : A) (b : B)
    → Restores w r a
    → Restores v (k a) b
    → Restores (w ▹ v) (r ▸ k) b
unfolding ◌▸◌
▸-Restores w v r k a b first second left bs rest h =
    let p = ▹-some w v left bs h in
    rw (sym p.4, append_assoc p.0 p.1 rest, first left p.0 (p.1 ++ rest) p.2)
      (second (left - length p.0) p.1 rest p.3)

-- A value computed from the one that was read.
pub give-Restores :
    {A B : Type 0} (w : Writer) (r : Reader A) (f : A → B) (a : A)
    → Restores w r a
    → Restores w (r ▸ λ x. give (f x)) (f a)
unfolding ◌▸◌ give
give-Restores w r f a h left bs rest e = rw (h left bs rest e) refl

pub skip-Restores : {A : Type 0} (a : A) → Restores skip (give a) a
unfolding skip give
skip-Restores a left bs rest h = rw (sym (some_eq h)) refl
