-- ===== src/Converter/Utf8/Cut.antt =====
-- A character that is cut short, and what `utf8toWStr` of converter.cpp makes of it.
use libsmpp.Prelude.{
  ℕ, ◌-◌, ◌≤◌, ◌<◌, ◌≡◌, refl, sym, ap, ◌∙◌, List, [], ◌∷◌, ◌++◌, append_assoc, append-nil, leb,
  le→leb, arith, if◌then◌else◌, All, length,
}
use libsmpp.Converter.Utf8.{
  Decoder, decode, decode_all, decoder_start, finish, utf8_to_wstr, wstr_to_utf8, utf8_char, err,
}
use libsmpp.Converter.Utf8.RoundTrip.{IsUnicode, all_read}

-- An octet that begins a character of several octets.
abbrev pub IsLead : ℕ → Type 0
IsLead c = (0xbf < c) × (c ≤ 0xf7)

-- How many octets are to come behind it.
abbrev pub behind : ℕ → ℕ
behind lead = if leb lead 0xdf then 1 else (if leb lead 0xef then 2 else 3)

-- Octets that go on with a character.
abbrev pub AreTails : List ℕ → Type 0
AreTails = All (λ c. (0x7f < c) × (c ≤ 0xbf))

decode_all-append :
    (d : Decoder) (cs es : List ℕ) → decode_all d (cs ++ es) ≡ decode_all (decode_all d cs) es
unfolding decode_all
decode_all-append d [] es = refl
decode_all-append d (c ∷ cs) es = decode_all-append (decode d c) cs es

-- A character stands open, and the ones in front of it are as before.
abbrev IsOpen : Decoder → Decoder → Type 0
IsOpen d e = (e.dest ≡ d.dest) × (0 < e.bytes)

decode-begin :
    (d : Decoder) (c : ℕ)
    → IsLead c
    → ((decode d c).dest ≡ d.dest) × ((decode d c).bytes ≡ behind c)
unfolding decode
decode-begin d c h = (ground arith, ground arith)

decode-tail :
    (d : Decoder) (c : ℕ)
    → (0x7f < c) × (c ≤ 0xbf)
    → 1 < d.bytes
    → ((decode d c).dest ≡ d.dest) × ((decode d c).bytes ≡ d.bytes - 1)
unfolding decode
decode-tail d c h more = (ground arith, ground arith)

tails-IsOpen :
    (d e : Decoder) (cs : List ℕ)
    → AreTails cs
    → e.dest ≡ d.dest
    → length cs < e.bytes
    → IsOpen d (decode_all e cs)
unfolding decode_all
tails-IsOpen d e [] h same more = (same, more)
tails-IsOpen d e (c ∷ cs) h same more =
    let t = decode-tail e c h.0 (omega arith) in
    tails-IsOpen d (decode e c) cs h.1 (t.0 ∙ same) (omega (arith, t.1, more))

cut-IsOpen :
    (d : Decoder) (lead : ℕ) (cs : List ℕ)
    → IsLead lead
    → AreTails cs
    → length cs < behind lead
    → IsOpen d (decode_all d (lead ∷ cs))
unfolding decode_all
cut-IsOpen d lead cs h tails short =
    let b = decode-begin d lead h in
    tails-IsOpen d (decode d lead) cs tails b.0 (omega (arith, b.1, short))

-- A lead octet makes the decoder forget what is open.
decode-lead : (d d' : Decoder) (c : ℕ) → IsLead c → d.dest ≡ d'.dest → decode d c ≡ decode d' c
unfolding decode
decode-lead d d' c h e = ground arith

decode-ascii_open :
    (d : Decoder) (c : ℕ)
    → c ≤ 0x7f
    → 0 < d.bytes
    → decode d c ≡ record d { dest = (d.dest ++ err ∷ []) ++ c ∷ []; bytes = 0 }
unfolding decode
decode-ascii_open d c h more = ground arith

finish_open : (d : Decoder) → 0 < d.bytes → finish d ≡ d.dest ++ err ∷ []
unfolding finish
finish_open d more = ground arith

wstr_to_utf8-ascii : (c : ℕ) (ws : List ℕ) → c ≤ 0x7f → wstr_to_utf8 (c ∷ ws) ≡ c ∷ wstr_to_utf8 ws
unfolding wstr_to_utf8 utf8_char
wstr_to_utf8-ascii c ws h = rw (le→leb c 0x7f h) refl

-- The decoder behind well formed characters.
abbrev after_text : List ℕ → ℕ → Decoder
after_text ws r = record { dest = ws; w = r; bytes = 0 }

module _ (ws : List ℕ) (lead : ℕ) (tails : List ℕ) (unicode : IsUnicode ws) (begins : IsLead lead)
    (go_on : AreTails tails) (short : length tails < behind lead) where
  after_text-IsOpen :
      (r : ℕ) → IsOpen (after_text ws r) (decode_all (after_text ws r) (lead ∷ tails))
  after_text-IsOpen r = cut-IsOpen (after_text ws r) lead tails begins go_on short

  -- The text and the cut character, with `rest` behind it.
  read_cut :
      (rest : List ℕ)
      → (r : ℕ) × (decode_all decoder_start (wstr_to_utf8 ws ++ ((lead ∷ tails) ++ rest))
          ≡ decode_all (decode_all (after_text ws r) (lead ∷ tails)) rest)
  read_cut rest =
      let (r, e) = all_read decoder_start ws ((lead ∷ tails) ++ rest) refl unicode in
      (r, e ∙ decode_all-append (after_text ws r) (lead ∷ tails) rest)

  cut_by_lead :
      (next : ℕ) (rest : List ℕ)
      → IsLead next
      → utf8_to_wstr (wstr_to_utf8 ws ++ ((lead ∷ tails) ++ (next ∷ rest)))
        ≡ utf8_to_wstr (wstr_to_utf8 ws ++ (next ∷ rest))
  unfolding utf8_to_wstr decode_all
  cut_by_lead next rest h =
      let (r, cut) = read_cut (next ∷ rest) in
      let (r', whole) = all_read decoder_start ws (next ∷ rest) refl unicode in
      let same =
        decode-lead (decode_all (after_text ws r) (lead ∷ tails)) (after_text ws r') next h
          (after_text-IsOpen r).0 in
      ap finish (cut ∙ ap (λ (d : Decoder). decode_all d rest) same ∙ sym whole)

  cut_by_ascii :
      (c : ℕ) (vs : List ℕ)
      → c ≤ 0x7f
      → IsUnicode vs
      → utf8_to_wstr (wstr_to_utf8 ws ++ ((lead ∷ tails) ++ wstr_to_utf8 (c ∷ vs)))
        ≡ ws ++ (err ∷ c ∷ vs)
  unfolding utf8_to_wstr decode_all finish
  cut_by_ascii c vs h u =
      let (r, cut) = read_cut (c ∷ wstr_to_utf8 vs) in
      let d = decode_all (after_text ws r) (lead ∷ tails) in
      let marked : Decoder = record d { dest = (ws ++ err ∷ []) ++ c ∷ []; bytes = 0 } in
      let ascii : decode d c ≡ marked =
        decode-ascii_open d c h (after_text-IsOpen r).1
        ∙ ap (λ (xs : List ℕ). record d { dest = (xs ++ err ∷ []) ++ c ∷ []; bytes = 0 })
            (after_text-IsOpen r).0 in
      let (r', others) = all_read marked vs [] refl u in
      rw (wstr_to_utf8-ascii c vs h) (
        ap finish (
          cut
          ∙ ap (λ (e : Decoder). decode_all e (wstr_to_utf8 vs)) ascii
          ∙ ap (decode_all marked) (sym (append-nil (wstr_to_utf8 vs)))
          ∙ others)
        ∙ append_assoc (ws ++ err ∷ []) (c ∷ []) vs
        ∙ append_assoc ws (err ∷ []) (c ∷ vs))

  cut_by_end : utf8_to_wstr (wstr_to_utf8 ws ++ (lead ∷ tails)) ≡ ws ++ err ∷ []
  unfolding utf8_to_wstr decode_all
  cut_by_end =
      let (r, cut) = all_read decoder_start ws (lead ∷ tails) refl unicode in
      ap finish cut
      ∙ finish_open (decode_all (after_text ws r) (lead ∷ tails)) (after_text-IsOpen r).1
      ∙ ap (λ (xs : List ℕ). xs ++ err ∷ []) (after_text-IsOpen r).0

  -- A character of several octets that is cut short behind well formed ones. If the octet that cuts
  -- it begins another character of several octets, it leaves no trace, whatever follows. If it is cut
  -- by an ASCII character of a well formed text, or by the end, there is one U+FFFD in its place.
  pub utf8_to_wstr_drops_cut :
      (next : ℕ) (rest : List ℕ)
      → IsLead next
      → (c : ℕ) (vs : List ℕ) → c ≤ 0x7f
      → IsUnicode vs
      → (utf8_to_wstr (wstr_to_utf8 ws ++ ((lead ∷ tails) ++ (next ∷ rest)))
          ≡ utf8_to_wstr (wstr_to_utf8 ws ++ (next ∷ rest)))
        × (utf8_to_wstr (wstr_to_utf8 ws ++ ((lead ∷ tails) ++ wstr_to_utf8 (c ∷ vs)))
            ≡ ws ++ (err ∷ c ∷ vs))
        × (utf8_to_wstr (wstr_to_utf8 ws ++ (lead ∷ tails)) ≡ ws ++ err ∷ [])
  utf8_to_wstr_drops_cut next rest h c vs ascii u =
      (cut_by_lead next rest h, cut_by_ascii c vs ascii u, cut_by_end)
