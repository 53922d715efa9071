-- ===== src/Converter/Iconv/Behaviour.antt =====
-- What `iconv_wrapper::convert` of converter.cpp returns.
use libsmpp.Prelude.{
  Bool, true, false, ℕ, zero, suc, ◌+◌, ◌-◌, ◌≤◌, ◌<◌, ◌≡◌, ◌≢◌, refl, ap, ◌∙◌, List, [], ◌∷◌, ◌++◌,
  some, arith, lt→ltb, if◌then◌else◌, length, length-drop, drop,
}
use libsmpp.Converter.Iconv.{
  Status, ok, e2big, eilseq, other_error, Descriptor, IsIconv, Converted, converted, Run, done,
  overrun, out_of_fuel, convert_loop, iconv_convert,
}
use libsmpp.Converter.Iconv.Buffer.{store, update, slice, slice-store, slice-gap}

drop_whole : (i : List ℕ) (n : ℕ) → n ≡ length i → drop n i ≡ []
drop_whole [] zero h = refl
drop_whole [] (suc n) h = refl
drop_whole (x ∷ i) zero h = absurd (omega arith)
drop_whole (x ∷ i) (suc n) h = drop_whole i n (omega arith)

if_ne : (b : Bool) {x y r : Run} → x ≢ r → y ≢ r → (if b then x else y) ≢ r
if_ne true hx hy = hx
if_ne false hx hy = hy

overrun_returns : overrun ≢ out_of_fuel
overrun_returns q = cc

done_returns : (c : Converted) → done c ≢ out_of_fuel
done_returns c q = cc

module _ (size : ℕ) (d : Descriptor) where
  loop-nil :
      (fuel : ℕ) (s : d.State) (i : List ℕ) (buf : ℕ → ℕ) (left : ℕ)
      → i ≡ []
      → convert_loop size d (suc fuel) s i buf left ≡ done (converted (slice buf 0 (size - left)))
  unfolding convert_loop
  loop-nil fuel s [] buf left h = refl
  loop-nil fuel s (x ∷ xs) buf left h = cc

  loop-ok :
      (fuel : ℕ) (s : d.State) (i : List ℕ) (buf : ℕ → ℕ) (left : ℕ)
      → 1 ≤ length i
      → (d.iconv s i left).status ≡ ok
      → convert_loop size d (suc fuel) s i buf left
        ≡ convert_loop size d fuel
            (d.iconv s i left).state
            (drop (d.iconv s i left).used i)
            (store buf (size - left) (d.iconv s i left).out)
            (left - length (d.iconv s i left).out)
  unfolding convert_loop
  loop-ok fuel s [] buf left n h = absurd (omega arith)
  loop-ok fuel s (x ∷ xs) buf left n h = rw (h, convert_loop)

  -- After an invalid octet with room for its replacement.
  loop-eilseq :
      (fuel : ℕ) (s : d.State) (i : List ℕ) (buf : ℕ → ℕ) (left : ℕ)
      → 1 ≤ length i
      → (d.iconv s i left).status ≡ eilseq
      → let c = d.iconv s i left in
        let left' = left - length c.out in
        0 < left'
        → (size - left') + (size - left') < size
        → convert_loop size d (suc fuel) s i buf left
          ≡ convert_loop size d fuel c.state
              (drop 1 (drop c.used i))
              (update (store buf (size - left) c.out) ((size - left') + (size - left')) b'?')
              (left' - 1)
  unfolding convert_loop
  loop-eilseq fuel s [] buf left n h r b = absurd (omega arith)
  loop-eilseq fuel s (x ∷ xs) buf left n h r b =
      rw (h, convert_loop) (rw (lt→ltb _ _ r, lt→ltb _ _ b))

  abbrev pub Returns : ℕ → Type 0
  Returns fuel =
      (s : d.State) (i : List ℕ) (buf : ℕ → ℕ) (left : ℕ)
      → length i + 2 ≤ fuel
      → convert_loop size d fuel s i buf left ≢ out_of_fuel

  round-Returns :
      (law : IsIconv d) (fuel : ℕ) (ih : Returns fuel) (s : d.State) (x : ℕ) (xs : List ℕ)
      (buf : ℕ → ℕ) (left : ℕ) (st : Status)
      → length (x ∷ xs) + 2 ≤ suc fuel
      → (d.iconv s (x ∷ xs) left).status ≡ st
      → convert_loop size d (suc fuel) s (x ∷ xs) buf left ≢ out_of_fuel
  unfolding convert_loop
  round-Returns law fuel ih s x xs buf left ok h e =
      rw (e, convert_loop)
        (ih _ _ _ _ (
          omega (
            arith,
            law.whole s (x ∷ xs) left e,
            length-drop (d.iconv s (x ∷ xs) left).used (x ∷ xs),
          )))
  round-Returns law fuel ih s x xs buf left e2big h e = rw (e, convert_loop) (λ q. cc)
  round-Returns law fuel ih s x xs buf left other_error h e = rw (e, convert_loop) (λ q. cc)
  round-Returns law fuel ih s x xs buf left eilseq h e =
      let used = (d.iconv s (x ∷ xs) left).used in
      rw (e, convert_loop)
        (if_ne _
          (if_ne _
            (ih _ _ _ _ (
              omega (
                arith,
                law.invalid s (x ∷ xs) left e,
                length-drop used (x ∷ xs),
                length-drop 1 (drop used (x ∷ xs)),
              )))
            overrun_returns)
          (done_returns _))

  pub convert_loop-Returns : IsIconv d → (fuel : ℕ) → Returns fuel
  convert_loop-Returns law zero s i buf left h = absurd (omega arith)
  convert_loop-Returns law (suc fuel) s [] buf left h = λ q. cc (loop-nil fuel s [] buf left refl)
  convert_loop-Returns law (suc fuel) s (x ∷ xs) buf left h =
      round-Returns law fuel (convert_loop-Returns law fuel) s x xs buf left _ h refl

-- With an `iconv` that behaves as its manual says, `convert` always comes to an end: each round
-- uses up input, and two rounds more than there are octets suffice.
pub iconv_convert_returns :
    (size : ℕ) (d : Descriptor) (src : List ℕ)
    → IsIconv d
    → iconv_convert size (some d) src ≢ out_of_fuel
unfolding iconv_convert
iconv_convert_returns size d src law =
    convert_loop-Returns size d law (length src + 2) d.initial src (λ at. 0) size (omega arith)

-- A text that `iconv` converts in one call without an error is returned as `iconv` wrote it.
pub iconv_convert-clean :
    (size : ℕ) (d : Descriptor) (src : List ℕ)
    → IsIconv d
    → 1 ≤ length src
    → (d.iconv d.initial src size).status ≡ ok
    → iconv_convert size (some d) src ≡ done (converted (d.iconv d.initial src size).out)
unfolding iconv_convert
iconv_convert-clean size d src law n h =
    let c = d.iconv d.initial src size in
    let fits = law.within d.initial src size in
    let start : size - size ≡ 0 = omega arith in
    let fuel : length src + 2 ≡ suc (suc (length src)) = omega arith in
    let count : size - (size - length c.out) ≡ length c.out = omega arith in
    rw
      (
        fuel,
        loop-ok size d (suc (length src)) d.initial src (λ at. 0) size n h,
        loop-nil size d (length src) c.state (drop c.used src) _ _
            (drop_whole src c.used (law.whole d.initial src size h)),
        count,
        start,
      )
      (ap (λ t. done (converted t)) (slice-store (λ at. 0) 0 c.out))

-- The question mark that stands for an invalid octet is lost. Where `iconv` meets the first invalid
-- octet after some output, in the first half of the buffer, and then converts the rest, the text
-- returned has a NUL in that place: the mark was stored behind it, at twice the offset.
pub iconv_convert_loses_mark :
    (size : ℕ) (d : Descriptor) (src : List ℕ)
    → let c = d.iconv d.initial src size in
      let rest = drop 1 (drop c.used src) in
      let c' = d.iconv c.state rest (size - length c.out - 1) in
      IsIconv d
      → 1 ≤ length src
      → c.status ≡ eilseq
      → 0 < length c.out
      → length c.out + length c.out < size
      → 1 ≤ length rest
      → c'.status ≡ ok
      → iconv_convert size (some d) src ≡ done (converted (c.out ++ 0 ∷ c'.out))
unfolding iconv_convert
iconv_convert_loses_mark size d src law n bad pos half more good =
    let c = d.iconv d.initial src size in
    let rest = drop 1 (drop c.used src) in
    let left = size - length c.out - 1 in
    let c' = d.iconv c.state rest left in
    let fits = law.within c.state rest left in
    let start : size - size ≡ 0 = omega arith in
    let fuel : length src + 2 ≡ suc (suc (suc (length src - 1))) = omega arith in
    let offset : size - (size - length c.out) ≡ length c.out = omega arith in
    let next : size - left ≡ length c.out + 1 = omega arith in
    let count : size - (left - length c'.out) ≡ length c.out + suc (length c'.out) = omega arith in
    ap (λ f. convert_loop size d f d.initial src (λ at. 0) size) fuel
    ∙ loop-eilseq size d _ d.initial src (λ at. 0) size n bad (omega arith) (omega arith)
    ∙ loop-ok size d _ c.state rest _ left more good
    ∙ loop-nil size d _ c'.state (drop c'.used rest) _ _
        (drop_whole rest c'.used (law.whole c.state rest left good))
    ∙ rw (start, offset, next, count)
        (ap (λ t. done (converted t))
          (slice-gap c.out c'.out (length c.out + length c.out) b'?' (omega arith)))
