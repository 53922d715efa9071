-- ===== src/Converter/Iconv/Buffer.antt =====
-- The output buffer of `iconv_wrapper::convert` in converter.cpp: octets by their index.
use libsmpp.Prelude.{
  ℕ, zero, suc, ◌+◌, ◌≤◌, ◌<◌, ◌≡◌, refl, ap, ◌∙◌, ap₂, List, [], ◌∷◌, ◌++◌, arith, ◌==◌,
  if◌then◌else◌, length,
}

abbrev pub update : (ℕ → ℕ) → ℕ → ℕ → ℕ → ℕ
update buf k v i = if i == k then v else buf i

-- The octets stored from index `at` on.
unfoldable pub store : (ℕ → ℕ) → ℕ → List ℕ → ℕ → ℕ
store buf at [] = buf
store buf at (x ∷ xs) = store (update buf at x) (at + 1) xs

-- The `n` octets from index `at` on.
unfoldable pub slice : (ℕ → ℕ) → ℕ → ℕ → List ℕ
slice buf at zero = []
slice buf at (suc n) = buf at ∷ slice buf (at + 1) n

pub store-below : (buf : ℕ → ℕ) (at i : ℕ) (xs : List ℕ) → i < at → store buf at xs i ≡ buf i
unfolding store
store-below buf at i [] h = refl
store-below buf at i (x ∷ xs) h =
    store-below (update buf at x) (at + 1) i xs (omega arith) ∙ ground arith

-- A slice depends on its own octets only.
slice_ext :
    (f g : ℕ → ℕ) (at n : ℕ)
    → ((i : ℕ) → at ≤ i → i < at + n → f i ≡ g i)
    → slice f at n ≡ slice g at n
unfolding slice
slice_ext f g at zero h = refl
slice_ext f g at (suc n) h =
    ap₂ ◌∷◌ (h at (omega arith) (omega arith))
      (slice_ext f g (at + 1) n (λ i lo hi. h i (omega arith) (omega arith)))

-- What was stored is read back.
pub slice-store : (buf : ℕ → ℕ) (at : ℕ) (xs : List ℕ) → slice (store buf at xs) at (length xs) ≡ xs
unfolding slice store
slice-store buf at [] = refl
slice-store buf at (x ∷ xs) =
    ap₂ ◌∷◌ (store-below (update buf at x) (at + 1) at xs (omega arith) ∙ ground arith)
      (slice-store (update buf at x) (at + 1) xs)

pub slice-store_before :
    (buf : ℕ → ℕ) (at k n : ℕ) (xs : List ℕ)
    → at + n ≤ k
    → slice (store buf k xs) at n ≡ slice buf at n
slice-store_before buf at k n xs h =
    slice_ext (store buf k xs) buf at n (λ i lo hi. store-below buf k i xs (omega arith))

pub slice-update_after :
    (buf : ℕ → ℕ) (at k n v : ℕ) → at + n ≤ k → slice (update buf k v) at n ≡ slice buf at n
slice-update_after buf at k n v h = slice_ext (update buf k v) buf at n (λ i lo hi. ground arith)

pub slice-append :
    (buf : ℕ → ℕ) (at m n : ℕ) → slice buf at (m + n) ≡ slice buf at m ++ slice buf (at + m) n
unfolding slice
slice-append buf at zero n =
    let a : 0 + n ≡ n = omega arith in let b : at + 0 ≡ at = omega arith in rw (a, b)
slice-append buf at (suc m) n =
    let a : suc m + n ≡ suc (m + n) = omega arith in
    let b : at + 1 + m ≡ at + suc m = omega arith in
    ap (slice buf at) a
    ∙ ap (λ (t : List ℕ). buf at ∷ t)
        (slice-append buf (at + 1) m n ∙ ap (λ k. slice buf (at + 1) m ++ slice buf k n) b)

pub store-above :
    (buf : ℕ → ℕ) (at i : ℕ) (xs : List ℕ) → at + length xs ≤ i → store buf at xs i ≡ buf i
unfolding store
store-above buf at i [] h = refl
store-above buf at i (x ∷ xs) h =
    store-above (update buf at x) (at + 1) i xs (omega arith) ∙ ground arith

slice-suc : (buf : ℕ → ℕ) (at n : ℕ) → slice buf at (suc n) ≡ buf at ∷ slice buf (at + 1) n
unfolding slice
slice-suc buf at n = refl

update_other : (buf : ℕ → ℕ) (k i v : ℕ) → i < k → update buf k v i ≡ buf i
update_other buf k i v h = ground arith

-- Two runs of output with a cleared octet between them, whatever was stored behind that octet
-- before the second run.
pub slice-gap :
    (o1 o2 : List ℕ) (k v : ℕ)
    → length o1 + 1 ≤ k
    → slice
        (store (update (store (λ at. 0) 0 o1) k v) (length o1 + 1) o2)
        0
        (length o1 + suc (length o2))
      ≡ o1 ++ 0 ∷ o2
slice-gap o1 o2 k v h =
    let first = store (λ at. 0) 0 o1 in
    let marked = update first k v in
    let whole = store marked (length o1 + 1) o2 in
    let head : slice whole 0 (length o1) ≡ o1 =
      slice-store_before marked 0 (length o1 + 1) (length o1) o2 (omega arith)
      ∙ slice-update_after first 0 k (length o1) v (omega arith)
      ∙ slice-store (λ at. 0) 0 o1 in
    let middle : whole (length o1) ≡ 0 =
      store-below marked (length o1 + 1) (length o1) o2 (omega arith)
      ∙ update_other first k (length o1) v (omega arith)
      ∙ store-above (λ at. 0) 0 (length o1) o1 (omega arith) in
    let start : 0 + length o1 ≡ length o1 = omega arith in
    slice-append whole 0 (length o1) (suc (length o2))
    ∙ ap₂ ◌++◌ head (
        ap (λ at. slice whole at (suc (length o2))) start
        ∙ slice-suc whole (length o1) (length o2)
        ∙ ap₂ ◌∷◌ middle (slice-store marked (length o1 + 1) o2))
