-- ===== src/Client/Segments.antt =====
-- The loop of `SendMessage` over a long text, against a description by the list of its segments.
use libsmpp.Prelude.{
  ℕ, zero, suc, ◌+◌, ◌-◌, ◌≤◌, ◌<◌, ◌≡◌, refl, sym, ap, ap₂, ◌∙◌, ltb, ltb→lt, ltb→ge, Bool-cases,
  inl, inr, Option, List, [], ◌∷◌, length, length-drop, take, drop, arith,
}
use mathlib.Core.Path.{fun_ext}
use libsmpp.Users.Requests.{DeliveryResult, delivery_ok}
use libsmpp.Commands.Arrays.{take_all, drop_all}
use libsmpp.Client.Settings.{MessageSettings}
use libsmpp.Client.Link.{Link}
use libsmpp.Client.Sending.{proceed, next_length, send_one, sar_of, segment_loop}

-- A text cut into pieces of `n` octets, the last one shorter, with fuel.
unfoldable pub chunks : ℕ → ℕ → List ℕ → List (List ℕ)
chunks zero n text = []
chunks (suc fuel) n [] = []
chunks (suc fuel) n (c ∷ cs) = take n (c ∷ cs) ∷ chunks fuel n (drop n (c ∷ cs))

chunks-nil : (fuel n : ℕ) → chunks fuel n [] ≡ []
unfolding chunks
chunks-nil zero n = refl
chunks-nil (suc fuel) n = refl

chunks_step :
    (fuel n : ℕ) (xs : List ℕ)
    → 0 < length xs
    → chunks (suc fuel) n xs ≡ take n xs ∷ chunks fuel n (drop n xs)
unfolding chunks
chunks_step fuel n [] h = absurd (omega arith)
chunks_step fuel n (x ∷ xs) h = refl

drop-drop : (i n : ℕ) (xs : List ℕ) → drop (i + n) xs ≡ drop n (drop i xs)
drop-drop zero n xs = let e : 0 + n ≡ n = omega arith in rw e refl
drop-drop (suc i) n [] =
    let e : suc i + n ≡ suc (i + n) = omega arith in rw e (sym (drop_all n [] (omega arith)))
drop-drop (suc i) n (x ∷ xs) =
    let e : suc i + n ≡ suc (i + n) = omega arith in rw e (drop-drop i n xs)

-- The length that the loop takes cuts as `n` does.
next_length_cuts :
    (fuel n : ℕ) (xs : List ℕ)
    → (take (next_length (length xs) n) xs ≡ take n xs)
      × (chunks fuel (next_length (length xs) n) (drop (next_length (length xs) n) xs)
          ≡ chunks fuel n (drop n xs))
unfolding next_length
next_length_cuts fuel n xs = elim (Bool-cases (ltb (length xs) n)) [
  | inl e ↦
      let lt = ltb→lt (length xs) n e in
      rw
        (
          e,
          take_all (length xs) xs (omega arith),
          take_all n xs (omega arith),
          drop_all (length xs) xs (omega arith),
          drop_all n xs (omega arith),
          chunks-nil fuel n,
          chunks-nil fuel (length xs),
        )
        (refl, refl)
  | inr e ↦ rw e (refl, refl)
]

next_length_bounds : (r n : ℕ) → 0 < r → 0 < n → (0 < next_length r n) × (next_length r n ≤ r)
unfolding next_length
next_length_bounds r n h k = elim (Bool-cases (ltb r n)) [
  | inl e ↦ rw e (h, omega arith)
  | inr e ↦ rw e (k, ltb→ge r n e)
]

module _ (settings : MessageSettings) (from to : List ℕ) (ref : Option (ℕ × ℕ)) where
  -- One command after the other, until one is not delivered.
  unfoldable pub send_chunks : ℕ → List (List ℕ) → Link → DeliveryResult × Link
  send_chunks k [] link = (delivery_ok, link)
  send_chunks k (c ∷ cs) link =
      proceed (send_one settings from to c (sar_of ref (k + 1)) link)
        (λ l. send_chunks (k + 1) cs l)

  -- The loop with enough fuel sends the pieces of what is left of the text.
  pub segment_loop-send_chunks :
      (fuel : ℕ) (text : List ℕ) (i n k : ℕ) (link : Link)
      → 0 < n
      → i ≤ length text
      → length text ≤ i + fuel
      → segment_loop settings from to fuel text ref i n k link
        ≡ send_chunks k (chunks fuel n (drop i text)) link
  unfolding segment_loop send_chunks chunks
  segment_loop-send_chunks zero text i n k link pos le enough = refl
  segment_loop-send_chunks (suc fuel) text i n k link pos le enough =
      elim (Bool-cases (ltb i (length text))) [
        | inl e ↦
            let xs = drop i text in
            let m = next_length (length text - i) n in
            let left = length-drop i text in
            let lt = ltb→lt i (length text) e in
            let b = next_length_bounds (length text - i) n (omega arith) pos in
            let cuts = next_length_cuts fuel n xs in
            let cut : take m xs ≡ take n xs = rw (← left) cuts.0 in
            let others : chunks fuel m (drop (i + m) text) ≡ chunks fuel n (drop n xs) =
              rw (drop-drop i m text, ← left) cuts.1 in
            let rest : (l : Link)
                → segment_loop settings from to fuel text ref (i + m) m (k + 1) l
                  ≡ send_chunks (k + 1) (chunks fuel n (drop n xs)) l =
              λ l.
                segment_loop-send_chunks fuel text (i + m) m (k + 1) l b.0 (omega (arith, b.1))
                  (omega (arith, b.0))
                ∙ ap (λ (cs : List (List ℕ)). send_chunks (k + 1) cs l) others in
            rw e (
              ap₂
                (λ (c : List ℕ) (f : Link → DeliveryResult × Link).
                  proceed (send_one settings from to c (sar_of ref (k + 1)) link) f)
                cut (fun_ext rest)
              ∙ sym (
                  ap (λ (cs : List (List ℕ)). send_chunks k cs link)
                    (chunks_step fuel n xs (omega (arith, left)))))
        | inr e ↦ let ge = ltb→ge i (length text) e in rw (e, drop_all i text ge) refl
      ]
