-- ===== src/Users/Lookup.antt =====
-- What `lookup` finds after a change of `m_clients`.
use libsmpp.Prelude.{
  ℕ, ◌≡◌, ◌≢◌, ◌==◌, ==_iff, ne→==, refl, sym, ◌∙◌, ltb, if◌then◌else◌, Bool, true, false,
  Bool-cases, inl, inr, Option, none, some, [], ◌∷◌, if-cases, some_eq, ap,
}
use libsmpp.Users.Clients.{User, Clients, lookup, erase, insert, modify}

abbrev pub bound : Option User → Bool
bound none = false
bound (some u) = true

-- A key that is not there is neither the first one nor behind it.
else_none :
    (b : Bool) (v : User) (o : Option User)
    → (if b then some v else o) ≡ none
    → (b ≡ false) × (o ≡ none)
else_none true v o h = absurd cc
else_none false v o h = (refl, h)

-- A key that was not there.
pub lookup-insert :
    (id : ℕ) (u : User) (cs : Clients) → lookup id cs ≡ none → lookup id (insert id u cs) ≡ some u
unfolding lookup insert
lookup-insert id u [] h = rw ((==_iff id id).1 refl) refl
lookup-insert id u ((k, v) ∷ cs) h =
    let p = else_none (id == k) v (lookup id cs) h in
    elim (Bool-cases (ltb id k)) [
      | inl l ↦ rw (l, (==_iff id id).1 refl) refl
      | inr l ↦ rw (l, p.0, p.0) (lookup-insert id u cs p.1)
    ]

pub lookup-erase : (id : ℕ) (cs : Clients) → lookup id (erase id cs) ≡ none
unfolding lookup erase
lookup-erase id [] = refl
lookup-erase id ((k, v) ∷ cs) = elim (Bool-cases (id == k)) [
  | inl e ↦ rw e (lookup-erase id cs)
  | inr e ↦ rw (e, e) (lookup-erase id cs)
]

pub lookup-modify :
    (id : ℕ) (f : User → User) (cs : Clients)
    → bound (lookup id (modify id f cs)) ≡ bound (lookup id cs)
unfolding lookup modify
lookup-modify id f [] = refl
lookup-modify id f ((k, v) ∷ cs) = elim (Bool-cases (id == k)) [
  | inl e ↦ rw (e, e) refl
  | inr e ↦ rw (e, e) (lookup-modify id f cs)
]

module _ (id other : ℕ) (apart : other ≢ id) where
  pub insert_other : (u : User) (cs : Clients) → lookup other (insert id u cs) ≡ lookup other cs
  unfolding lookup insert
  insert_other u [] = rw (ne→== other id apart) refl
  insert_other u ((k, v) ∷ cs) = elim (Bool-cases (ltb id k)) [
    | inl l ↦ rw (l, ne→== other id apart) refl
    | inr l ↦ elim (Bool-cases (id == k)) [
      | inl e ↦ rw (l, e) refl
      | inr e ↦ rw (l, e, insert_other u cs) refl
    ]
  ]

  pub erase_other : (cs : Clients) → lookup other (erase id cs) ≡ lookup other cs
  unfolding lookup erase
  erase_other [] = refl
  erase_other ((k, v) ∷ cs) = elim (Bool-cases (id == k)) [
    | inl e ↦
        let differs : (other == k) ≡ false =
          ne→== other k (λ f. apart (f ∙ sym ((==_iff id k).0 e))) in
        rw (e, differs) (erase_other cs)
    | inr e ↦ rw (e, erase_other cs) refl
  ]

  pub modify_other :
      (f : User → User) (cs : Clients) → lookup other (modify id f cs) ≡ lookup other cs
  unfolding lookup modify
  modify_other f [] = refl
  modify_other f ((k, v) ∷ cs) = elim (Bool-cases (id == k)) [
    | inl e ↦
        let differs : (other == k) ≡ false =
          ne→== other k (λ g. apart (g ∙ sym ((==_iff id k).0 e))) in
        rw (e, differs) refl
    | inr e ↦ rw (e, modify_other f cs) refl
  ]

pub lookup-modify-some :
    (id : ℕ) (f : User → User) (u : User) (cs : Clients)
    → lookup id cs ≡ some u
    → lookup id (modify id f cs) ≡ some (f u)
unfolding lookup modify
lookup-modify-some id f u [] h = absurd cc
lookup-modify-some id f u ((k, v) ∷ cs) h =
    elim (if-cases (id == k) (some v) (lookup id cs) (some u) h) [
      | inl p ↦ rw (p.0, p.0) (ap (λ (w : User). some (f w)) (some_eq p.1))
      | inr p ↦ rw (p.0, p.0) (lookup-modify-some id f u cs p.1)
    ]

pub lookup_first :
    (j id : ℕ) (u : User) (cs : Clients) → (j == id) ≡ true → lookup j ((id, u) ∷ cs) ≡ some u
unfolding lookup
lookup_first j id u cs e = rw e refl

pub lookup_behind :
    (j id : ℕ) (u : User) (cs : Clients) → (j == id) ≡ false → lookup j ((id, u) ∷ cs) ≡ lookup j cs
unfolding lookup
lookup_behind j id u cs e = rw e refl
