-- ===== src/Gsm7/Alphabet.antt =====
-- The alphabet of iconv/gsm7.c read both ways: `gsm7_mbtowc` against `gsm7_wctomb`.
use libsmpp.Prelude.{
  ℕ, ◌≤◌, ◌<◌, ◌≡◌, ◌≢◌, ◌↔◌, refl, ◌⊎◌, inl, inr, List, [], ◌∷◌, Option, none, some, Bool, true,
  false, not, ◌&&◌, ◌||◌, arith, length, ◌==◌, ==_iff, sym, subst, passes_below, passes_below_at,
  get_or, take, ltb, leb, Bool-cases, if◌then◌else◌, or_right, ne→==,
}
use libsmpp.Gsm7.Table.{Escape, gsm_escapes}
use libsmpp.Gsm7.ToSeptets.{
  Wctomb, stored, ret_iluni, ret_toosmall, gsm7_wctomb, wctomb_page_0, wctomb_page_3,
  wctomb_page_20, is_same_code, switch, emit_case, emit,
}
use libsmpp.Gsm7.FromSeptets.{
  Mbtowc, read, ret_toofew, gsm7_mbtowc, find_escape, escape_result, to_unicode,
}

list_eq : List ℕ → List ℕ → Bool
list_eq [] [] = true
list_eq (x ∷ xs) (y ∷ ys) = x == y && list_eq xs ys
list_eq _ _ = false

list_eq_sound : (xs ys : List ℕ) → (list_eq xs ys ≡ true) ↔ (xs ≡ ys)
unfolding list_eq
list_eq_sound [] [] = (λ h. refl, λ h. refl)
list_eq_sound [] (y ∷ ys) = (λ h. cc, λ h. cc)
list_eq_sound (x ∷ xs) [] = (λ h. cc, λ h. cc)
list_eq_sound (x ∷ xs) (y ∷ ys) = ground (arith, list_eq_sound xs ys)

stores : Wctomb → List ℕ → Bool
stores (stored out) bs = list_eq out bs
stores _ bs = false

stores_sound : (w : Wctomb) (bs : List ℕ) → (stores w bs ≡ true) ↔ (w ≡ stored bs)
unfolding stores
stores_sound (stored out) bs = ground (arith, list_eq_sound out bs)
stores_sound ret_iluni bs = (λ h. cc, λ h. cc)
stores_sound ret_toosmall bs = (λ h. cc, λ h. cc)

-- The two characters of the alphabet that `gsm7_wctomb` has no case for: the inverted exclamation
-- mark and the form feed.
abbrev pub is_forgotten : ℕ → Bool
is_forgotten u = u == 0xA1 || u == 0x0C

-- Whether the septets come back, and whether they should.
round_trips : ℕ → List ℕ → Bool
round_trips u bs = stores (gsm7_wctomb u 2) bs

agrees : Bool → Bool → Bool
agrees true b = b
agrees false b = not b

plain_row : ℕ → Bool
plain_row c =
    let u = to_unicode c in c == 0x1B || agrees (round_trips u (c ∷ [])) (not (is_forgotten u))

plain_table : passes_below plain_row 128 ≡ true
unfolding passes_below plain_row to_unicode round_trips agrees stores list_eq gsm7_wctomb
    wctomb_page_0 wctomb_page_3 wctomb_page_20 is_same_code switch emit_case emit
plain_table = refl

escape_row : Escape → Bool
escape_row e = agrees (round_trips e.to (0x1B ∷ e.from ∷ [])) (not (is_forgotten e.to))

all_rows : (Escape → Bool) → List Escape → Bool
all_rows p [] = true
all_rows p (e ∷ es) = p e && all_rows p es

escape_table : all_rows escape_row gsm_escapes ≡ true
unfolding all_rows escape_row round_trips agrees stores list_eq gsm7_wctomb wctomb_page_0
    wctomb_page_3 wctomb_page_20 is_same_code switch emit_case emit
escape_table = refl

find-row :
    (p : Escape → Bool) (c u : ℕ) (es : List Escape)
    → all_rows p es ≡ true
    → find_escape c es ≡ some u
    → p (record { from = c; to = u }) ≡ true
unfolding all_rows find_escape
find-row p c u [] a h = cc
find-row p c u (e ∷ es) a h = elim (Bool-cases (e.from == c)) [
  | inl hit ↦
      let from_eq : e.from ≡ c = (==_iff e.from c).0 hit in
      let to_eq : e.to ≡ u = ground arith in
      subst (λ (x : Escape). p x ≡ true) (λ i. record { from = from_eq i; to = to_eq i })
        (ground arith)
  | inr miss ↦ find-row p c u es (ground arith) (ground arith)
]

round_trips_iff :
    (u : ℕ) (bs : List ℕ)
    → agrees (round_trips u bs) (not (is_forgotten u)) ≡ true
    → (gsm7_wctomb u 2 ≡ stored bs) ↔ (is_forgotten u ≡ false)
unfolding agrees round_trips
round_trips_iff u bs h = ground (arith, stores_sound (gsm7_wctomb u 2) bs)

abbrev CodesBack : ℕ → List ℕ → Type 0
CodesBack u bs = (gsm7_wctomb u 2 ≡ stored bs) ↔ (is_forgotten u ≡ false)

plain_CodesBack : (c : ℕ) → c < 128 → c ≢ 0x1B → CodesBack (to_unicode c) (c ∷ [])
plain_CodesBack c h ne = round_trips_iff (to_unicode c) (c ∷ []) (
    or_right (c == 0x1B) _ (ne→== c 0x1B ne)
      (unfold plain_row in passes_below_at plain_row c 128 h plain_table))

escape_CodesBack : (c u : ℕ) → find_escape c gsm_escapes ≡ some u → CodesBack u (0x1B ∷ c ∷ [])
unfolding escape_row
escape_CodesBack c u h =
    round_trips_iff u (0x1B ∷ c ∷ []) (find-row escape_row c u gsm_escapes escape_table h)

read-injective : {k m u v : ℕ} → Mbtowc.read k u ≡ read m v → (k ≡ m) × (u ≡ v)
read-injective h = (cc, cc)

le→leb_false : (n : ℕ) → n ≤ 1 → leb 2 n ≡ false
le→leb_false n h = ground arith

escape_result-read : (o : Option ℕ) (k u : ℕ) → escape_result o ≡ read k u → (k ≡ 2) × (o ≡ some u)
unfolding escape_result
escape_result-read none k u h = cc
escape_result-read (some v) k u h = ground arith

abbrev Decodes : List ℕ → ℕ → ℕ → Type 0
Decodes s k u =
    ((c : ℕ) × (rest : List ℕ) × (s ≡ c ∷ rest)
      × (k ≡ 1)
      × (u ≡ to_unicode c)
      × (c < 128)
      × (c ≢ 0x1B))
    ⊎ ((c : ℕ) × (rest : List ℕ) × (s ≡ 0x1B ∷ c ∷ rest)
        × (k ≡ 2)
        × (find_escape c gsm_escapes ≡ some u))

escaped_Decodes :
    (c : ℕ) (rest : List ℕ) (n k u : ℕ)
    → c ≡ 0x1B
    → n ≤ length (c ∷ rest)
    → (if leb 2 n
        then escape_result (find_escape (get_or (c ∷ rest) 1 0) gsm_escapes)
        else ret_toofew)
      ≡ read k u
    → Decodes (c ∷ rest) k u
escaped_Decodes c [] n k u e hi h = cc (rw (le→leb_false n (omega arith)) at h)
escaped_Decodes c (d ∷ rest) n k u e hi h = elim (Bool-cases (leb 2 n)) [
  | inl two ↦
      let r = escape_result-read (find_escape d gsm_escapes) k u (rw two at h) in
      inr (d, rest, rw e, r.0, r.1)
  | inr one ↦ cc (rw one at h)
]

-- A successful call read a plain septet, or the escape septet and one of the extension table.
pub gsm7_mbtowc-Decodes :
    (s : List ℕ) (n k u : ℕ) → 1 ≤ n → n ≤ length s → gsm7_mbtowc s n ≡ read k u → Decodes s k u
unfolding gsm7_mbtowc
gsm7_mbtowc-Decodes [] n k u lo hi h = absurd (omega arith)
gsm7_mbtowc-Decodes (c ∷ rest) n k u lo hi h = elim (Bool-cases (ltb 0x7f c)) [
  | inl big ↦ cc (rw big at h)
  | inr small ↦ elim (Bool-cases (c == 0x1B)) [
    | inl esc ↦ escaped_Decodes c rest n k u ((==_iff c 0x1B).0 esc) hi (rw (small, esc) at h)
    | inr plain ↦
        let r = read-injective (rw (small, plain) at h) in
        inl (c, rest, refl, sym r.0, sym r.1, ground arith, ground arith)
  ]
]

codes_back : (s : List ℕ) (n k u : ℕ) → n ≤ length s → Decodes s k u → CodesBack u (take k s)
codes_back s n k u hi (inl (c, rest, e, ek, eu, lt, ne)) = rw (e, ek, eu) (plain_CodesBack c lt ne)
codes_back s n k u hi (inr (c, rest, e, ek, f)) = rw (e, ek) (escape_CodesBack c u f)

-- What `gsm7_mbtowc` reads, `gsm7_wctomb` writes back: of every character that is read from a
-- buffer of at least one septet, with room for two, the same septets come back, exactly when the
-- character is neither U+00A1 nor U+000C. For these two `gsm7_wctomb` has no case.
pub gsm7_wctomb-mbtowc :
    (s : List ℕ) (n k u : ℕ)
    → 1 ≤ n
    → n ≤ length s
    → gsm7_mbtowc s n ≡ read k u
    → (gsm7_wctomb u 2 ≡ stored (take k s)) ↔ (is_forgotten u ≡ false)
gsm7_wctomb-mbtowc s n k u lo hi h = codes_back s n k u hi (gsm7_mbtowc-Decodes s n k u lo hi h)
