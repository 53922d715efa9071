-- ===== src/Connection/Calls.antt =====
-- Laws of the map of pending responses and of the list of calls.
use mathlib.Core.Option
use libsmpp.Prelude.{
  ℕ, zero, suc, ◌≡◌, ◌≢◌, refl, sym, ap, ◌⊎◌, inl, inr, ◌==◌, if◌then◌else◌, none, some, some_eq,
  List, [], ◌∷◌, ◌++◌, length, get_elem?, arith,
}
use libsmpp.Connection.Pending.{Call, Pending, find, assign, remove, update}

pub find-assign :
    (k seq id : ℕ) (m : Pending)
    → find k (assign seq id m) ≡ (if k == seq then some id else find k m)
unfolding find assign
find-assign k seq id [] = refl
find-assign k seq id ((j, v) ∷ m) = ground (arith, find-assign k seq id m)

pub find-remove :
    (k seq : ℕ) (m : Pending) → find k (remove seq m) ≡ (if k == seq then none else find k m)
unfolding find remove
find-remove k seq [] = ground arith
find-remove k seq ((j, v) ∷ m) = ground (arith, find-remove k seq m)

pub get_elem?-update :
    (i j : ℕ) (f : Call → Call) (cs : List Call)
    → get_elem? (update i f cs) j
      ≡ (if i == j then Option.map f (get_elem? cs j) else get_elem? cs j)
unfolding update
get_elem?-update i j f [] = ground arith
get_elem?-update zero zero f (c ∷ cs) = refl
get_elem?-update zero (suc j) f (c ∷ cs) = ground arith
get_elem?-update (suc i) zero f (c ∷ cs) = ground arith
get_elem?-update (suc i) (suc j) f (c ∷ cs) = ground (arith, get_elem?-update i j f cs)

-- A call of a longer list is an old one or the new one.
pub get_elem?-append :
    (cs : List Call) (new call : Call) (j : ℕ)
    → get_elem? (cs ++ (new ∷ [])) j ≡ some call
    → (get_elem? cs j ≡ some call) ⊎ ((j ≡ length cs) × (call ≡ new))
get_elem?-append [] new call zero h = inr (refl, cc)
get_elem?-append [] new call (suc j) h = absurd cc
get_elem?-append (c ∷ cs) new call zero h = inl h
get_elem?-append (c ∷ cs) new call (suc j) h = elim (get_elem?-append cs new call j h) [
  | inl p ↦ inl p
  | inr p ↦ inr (ap suc p.0, p.1)
]

-- Where a call of an updated list comes from.
pub get_elem?-update_cases :
    (i j : ℕ) (f : Call → Call) (cs : List Call) (call : Call)
    → get_elem? (update i f cs) j ≡ some call
    → (old : Call) × (get_elem? cs j ≡ some old)
      × (((i ≢ j) × (call ≡ old)) ⊎ ((i ≡ j) × (call ≡ f old)))
unfolding update
get_elem?-update_cases i j f [] call h = absurd cc
get_elem?-update_cases zero zero f (c ∷ cs) call h = (c, refl, inr (refl, sym (some_eq h)))
get_elem?-update_cases zero (suc j) f (c ∷ cs) call h = (call, h, inl (λ e. omega arith, refl))
get_elem?-update_cases (suc i) zero f (c ∷ cs) call h = (call, h, inl (λ e. omega arith, refl))
get_elem?-update_cases (suc i) (suc j) f (c ∷ cs) call h =
    let r = get_elem?-update_cases i j f cs call h in
    (
      r.0,
      r.1,
      elim r.2 [ inl p ↦ inl (λ e. p.0 (omega arith), p.1) | inr p ↦ inr (ap suc p.0, p.1) ],
    )
