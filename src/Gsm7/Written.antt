-- ===== src/Gsm7/Written.antt =====
-- What `gsm7_wctomb` of iconv/gsm7.c stores, for every character and every room.
use libsmpp.Prelude.{
  inl, inr, ℕ, ◌+◌, ◌*◌, ◌/◌, ◌%◌, ◌<◌, ◌≡◌, refl, List, [], ◌∷◌, Option, none, some, Bool, true,
  false, ◌&&◌, ◌||◌, arith, length, ◌==◌, ==_iff, subst, passes_below, passes_below_at, ltb,
  Bool-cases, or_right, and_left, and_right,
}
use libsmpp.Gsm7.ToSeptets.{
  Wctomb, stored, ret_iluni, ret_toosmall, Case, switch, emit, emit_case, latin_one_way_cases,
  greek_one_way_cases, wctomb_page_0, wctomb_page_3, wctomb_page_20, gsm7_wctomb, is_same_code,
}
use libsmpp.Gsm7.FromSeptets.{Mbtowc, read, gsm7_mbtowc, find_escape, escape_result, to_unicode}
use libsmpp.Gsm7.PackedValue.{IsSeptets}

unfoldable pub labelled : ℕ → List Case → Bool
labelled s [] = false
labelled s (c ∷ cs) = c.label == s || labelled s cs

-- The characters that are stored as another one's septets: accented capitals and the like, the
-- capital C with cedilla, the degree sign, and the Greek capitals that look Latin.
unfoldable pub is_one_way : ℕ → Bool
is_one_way u =
    u / 256 == 0 && (u % 256 == 0xb0 || u % 256 == 0xc7 || labelled (u % 256) latin_one_way_cases)
    || u / 256 == 3 && labelled (u % 256) greek_one_way_cases

is_read : Mbtowc → ℕ → ℕ → Bool
is_read (read k u) j v = k == j && u == v
is_read _ j v = false

is_read_sound : (m : Mbtowc) (j v : ℕ) → is_read m j v ≡ true → m ≡ read j v
unfolding is_read
is_read_sound (read k u) j v h = ground arith
is_read_sound Mbtowc.ret_ilseq j v h = cc
is_read_sound Mbtowc.ret_toofew j v h = cc

are_septets : List ℕ → Bool
are_septets [] = true
are_septets (c ∷ cs) = ltb c 128 && are_septets cs

are_septets_sound : (bs : List ℕ) → are_septets bs ≡ true → IsSeptets bs
unfolding are_septets
are_septets_sound [] h = tt
are_septets_sound (c ∷ cs) h = (ground arith, are_septets_sound cs (ground arith))

row_holds : ℕ → List ℕ → Bool
row_holds u bs =
    are_septets bs && (is_one_way u || is_read (gsm7_mbtowc bs (length bs)) (length bs) u)

row : ℕ → Wctomb → Bool
row u (stored bs) = row_holds u bs
row u _ = true

table_0 : passes_below (λ s2. row (0 * 256 + s2) (wctomb_page_0 s2 2)) 256 ≡ true
unfolding passes_below row row_holds are_septets is_one_way labelled is_read gsm7_mbtowc find_escape
    escape_result to_unicode wctomb_page_0 is_same_code switch emit_case emit
table_0 = refl

table_3 : passes_below (λ s2. row (3 * 256 + s2) (wctomb_page_3 s2 2)) 256 ≡ true
unfolding passes_below row row_holds are_septets is_one_way labelled is_read gsm7_mbtowc find_escape
    escape_result to_unicode wctomb_page_3 switch emit_case emit
table_3 = refl

table_20 : passes_below (λ s2. row (32 * 256 + s2) (wctomb_page_20 s2 2)) 256 ≡ true
unfolding passes_below row row_holds are_septets is_one_way labelled is_read gsm7_mbtowc find_escape
    escape_result to_unicode wctomb_page_20 emit
table_20 = refl

-- A call that stores anything stores the same with room for two.
emit_two : (n : ℕ) (bs out : List ℕ) → emit n bs ≡ stored out → emit 2 bs ≡ stored out
unfolding emit
emit_two n [] out h = h
emit_two n (r ∷ []) out h = h
emit_two n (r0 ∷ r1 ∷ rs) out h = ground arith

emit_case_two :
    (n : ℕ) (o : Option (List ℕ)) (out : List ℕ)
    → emit_case n o ≡ stored out
    → emit_case 2 o ≡ stored out
unfolding emit_case
emit_case_two n none out h = h
emit_case_two n (some bs) out h = emit_two n bs out h

page_0_two :
    (s2 n : ℕ) (out : List ℕ) → wctomb_page_0 s2 n ≡ stored out → wctomb_page_0 s2 2 ≡ stored out
unfolding wctomb_page_0
page_0_two s2 n out h = elim (Bool-cases (is_same_code s2)) [
  | inl same ↦ rw same (rw same at h)
  | inr other ↦ rw other (emit_case_two n _ out (rw other at h))
]

page_3_two :
    (s2 n : ℕ) (out : List ℕ) → wctomb_page_3 s2 n ≡ stored out → wctomb_page_3 s2 2 ≡ stored out
unfolding wctomb_page_3
page_3_two s2 n out h = emit_case_two n _ out h

page_20_two :
    (s2 n : ℕ) (out : List ℕ) → wctomb_page_20 s2 n ≡ stored out → wctomb_page_20 s2 2 ≡ stored out
unfolding wctomb_page_20
page_20_two s2 n out h = elim (Bool-cases (s2 == 0xac)) [
  | inl euro ↦ rw euro (emit_two n _ out (rw euro at h))
  | inr other ↦ cc (rw other at h)
]

row_of : (u : ℕ) (w : Wctomb) (bs : List ℕ) → row u w ≡ true → w ≡ stored bs → row_holds u bs ≡ true
unfolding row
row_of u (stored out) bs r h = subst (λ x. row_holds u x ≡ true) (cc) r
row_of u ret_iluni bs r h = cc
row_of u ret_toosmall bs r h = cc

-- What a page stores satisfies its row.
from_page :
    (page s2 : ℕ) (f : ℕ → ℕ → Wctomb) (bs : List ℕ)
    → passes_below (λ s2. row (page * 256 + s2) (f s2 2)) 256 ≡ true
    → s2 < 256
    → f s2 2 ≡ stored bs
    → row_holds (page * 256 + s2) bs ≡ true
from_page page s2 f bs t lt h =
    row_of (page * 256 + s2) (f s2 2) bs
      (passes_below_at (λ s2. row (page * 256 + s2) (f s2 2)) s2 256 lt t) h

at_page :
    (page wc : ℕ) (bs : List ℕ)
    → wc / 256 % 256 ≡ page
    → row_holds (page * 256 + wc % 256) bs ≡ true
    → row_holds (wc % 65536) bs ≡ true
at_page page wc bs e h =
    let same : page * 256 + wc % 256 ≡ wc % 65536 = omega arith in
    subst (λ x. row_holds x bs ≡ true) same h

written_row :
    (wc n : ℕ) (bs : List ℕ) → gsm7_wctomb wc n ≡ stored bs → row_holds (wc % 65536) bs ≡ true
unfolding gsm7_wctomb
written_row wc n bs h = elim (Bool-cases (wc / 256 % 256 == 0)) [
  | inl p0 ↦ at_page 0 wc bs ((==_iff _ 0).0 p0) (
      from_page 0 (wc % 256) wctomb_page_0 bs table_0 (omega arith)
        (page_0_two (wc % 256) n bs (rw p0 at h)))
  | inr n0 ↦ elim (Bool-cases (wc / 256 % 256 == 0x20)) [
    | inl p20 ↦ at_page 32 wc bs ((==_iff _ 32).0 p20) (
        from_page 32 (wc % 256) wctomb_page_20 bs table_20 (omega arith)
          (page_20_two (wc % 256) n bs (rw (n0, p20) at h)))
    | inr n20 ↦ elim (Bool-cases (wc / 256 % 256 == 3)) [
      | inl p3 ↦ at_page 3 wc bs ((==_iff _ 3).0 p3) (
          from_page 3 (wc % 256) wctomb_page_3 bs table_3 (omega arith)
            (page_3_two (wc % 256) n bs (rw (n0, n20, p3) at h)))
      | inr n3 ↦ cc (rw (n0, n20, n3) at h)
    ]
  ]
]

-- Every octet that `gsm7_wctomb` stores is a septet.
pub gsm7_wctomb-IsSeptets : (wc n : ℕ) (bs : List ℕ) → gsm7_wctomb wc n ≡ stored bs → IsSeptets bs
unfolding row_holds
gsm7_wctomb-IsSeptets wc n bs h = are_septets_sound bs (and_left _ _ (written_row wc n bs h))

-- What `gsm7_wctomb` stores for a character that is not mapped one way, `gsm7_mbtowc` reads back,
-- to the last octet: as the low 16 bits of the character.
pub gsm7_mbtowc-wctomb :
    (wc n : ℕ) (bs : List ℕ)
    → gsm7_wctomb wc n ≡ stored bs
    → is_one_way (wc % 65536) ≡ false
    → gsm7_mbtowc bs (length bs) ≡ read (length bs) (wc % 65536)
unfolding row_holds
gsm7_mbtowc-wctomb wc n bs h e =
    is_read_sound (gsm7_mbtowc bs (length bs)) (length bs) (wc % 65536)
      (or_right (is_one_way (wc % 65536)) _ e (and_right _ _ (written_row wc n bs h)))

-- The bits above the lowest 16 are never looked at, so a character outside the basic plane is
-- stored as another one's septets, or refused on that one's account.
pub gsm7_wctomb_truncates : (wc k n : ℕ) → gsm7_wctomb (wc + 65536 * k) n ≡ gsm7_wctomb wc n
unfolding gsm7_wctomb
gsm7_wctomb_truncates wc k n =
    let s1 : (wc + 65536 * k) / 256 % 256 ≡ wc / 256 % 256 = omega arith in
    let s2 : (wc + 65536 * k) % 256 ≡ wc % 256 = omega arith in rw (s1, s2)
