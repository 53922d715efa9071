-- ===== src/Commands/Text.antt =====
-- `setText` and `getText` together.
use libsmpp.Prelude.{
  ℕ, suc, ◌≡◌, refl, sym, ap, ◌∙◌, ◌==◌, ltb, leb, ltb→lt, ltb→ge, leb→le, not, ◌&&◌, and_right,
  ne→==, if-cases, Bool-cases, Bool, true, false, inl, inr, List, [], ◌∷◌, ◌++◌, length,
  length-take, length-replicate, take, drop, All, arith,
}
use libsmpp.Codec.TlvId
use libsmpp.Commands.Arrays.{memcpy_min, take_all}
use libsmpp.Commands.Submit.{
  zeros, Tlv, octets_of, build, Submit, payload, payload_text, get_text, set_text,
  set_short_message, set_payload,
}

-- A chain without a payload.
abbrev pub HasNoPayload : List Tlv → Type 0
HasNoPayload = All (λ t. (t.tag == TlvId.message_payload) ≡ false)

pub payload_text-none : (ts : List Tlv) (res : List ℕ) → HasNoPayload ts → payload_text ts res ≡ res
unfolding payload_text
payload_text-none [] res h = refl
payload_text-none (t ∷ ts) res h = rw h.0 (payload_text-none ts res h.1)

pub take-append {ℓ} : {A : Type ℓ} (xs ys : List A) → take (length xs) (xs ++ ys) ≡ xs
take-append [] ys = refl
take-append (x ∷ xs) ys = ap (λ t. x ∷ t) (take-append xs ys)

payload_size : (text : List ℕ) → (payload text).size ≡ length (take 1024 text)
unfolding payload
payload_size text =
    elim (if-cases (ltb (length text) 1024) (length text) 1024 (payload text).size refl) [
      | inl p ↦ sym p.1 ∙ omega (arith, ltb→lt (length text) 1024 p.0, length-take 1024 text)
      | inr p ↦ sym p.1 ∙ omega (arith, ltb→ge (length text) 1024 p.0, length-take 1024 text)
    ]

payload_octets :
    (text : List ℕ)
    → octets_of (payload text).value ≡ take 1024 text ++ drop (length text) (zeros 1024)
unfolding payload octets_of memcpy_min zeros
payload_octets text = rw (length-replicate {A = ℕ} 1024 0) refl

payload_text-payload :
    (text : List ℕ) (ts : List Tlv) (res : List ℕ)
    → HasNoPayload ts
    → payload_text (payload text ∷ ts) res ≡ take 1024 text
unfolding payload_text payload
payload_text-payload text ts res h =
    rw (payload_text-none ts (take (payload text).size (octets_of (payload text).value)) h)
      (rw (payload_size text, payload_octets text) (take-append (take 1024 text) _))

module _ {D : Type 0} where
  get_text-set_short_message :
      (text : List ℕ) (s : Submit D)
      → HasNoPayload s.tlv
      → get_text (set_short_message text s) ≡ text
  unfolding get_text set_short_message
  get_text-set_short_message [] s h = payload_text-none s.tlv [] h
  get_text-set_short_message (c ∷ text) s h =
      rw (ne→== (suc (length text)) 0 (λ e. omega arith))
        (take-append (c ∷ text) (drop (suc (length text)) s.short_message))

  get_text-set_payload :
      (text : List ℕ) (s : Submit D)
      → HasNoPayload s.tlv
      → get_text (set_payload text s) ≡ take 1024 text
  unfolding get_text set_payload build
  get_text-set_payload text s h = payload_text-payload text s.tlv [] h

  -- A text that was set is read back, up to its first 1024 octets, whether it goes to the short
  -- message or to a payload, if no payload stood in the chain.
  pub get_text-set_text :
      (text : List ℕ) (force : Bool) (s : Submit D)
      → HasNoPayload s.tlv
      → get_text (set_text text force s) ≡ take 1024 text
  unfolding set_text
  get_text-set_text text force s h = elim (Bool-cases (not force && leb (length text) 254)) [
    | inl short ↦
        let le = leb→le (length text) 254 (and_right (not force) (leb (length text) 254) short) in
        rw short (get_text-set_short_message text s h ∙ sym (take_all 1024 text (omega arith)))
    | inr long ↦ rw long (get_text-set_payload text s h)
  ]

  -- A long text that is set a second time is not read back: `getText` keeps the one that was set
  -- first.
  pub get_text-set_text_twice :
      (text text' : List ℕ) (s : Submit D)
      → HasNoPayload s.tlv
      → get_text (set_text text' true (set_text text true s)) ≡ take 1024 text
  unfolding set_text set_payload get_text build payload_text payload
  get_text-set_text_twice text text' s h =
      payload_text-payload text s.tlv (take (payload text').size (octets_of (payload text').value))
        h
