-- ===== src/Client/Messages.antt =====
-- `SendMessage` as a whole, against the plan of a message.
use Prim.Native.String.{String}
use libsmpp.Prelude.{
  ℕ, ◌+◌, ◌≤◌, ◌<◌, ◌≡◌, refl, sym, ap, ◌∙◌, leb→le, Bool, Bool-cases, true, false, inl, inr,
  and_left, Option, none, some, List, [], ◌∷◌, ◌++◌, append-nil, length, All, map, arith,
  if◌then◌else◌,
}
use libsmpp.Converter.Iconv.{Converted}
use libsmpp.Users.Requests.{DeliveryResult, delivery_ok}
use libsmpp.Client.Settings.{MessageSettings, message_length, short_limit}
use libsmpp.Client.Link.{Link, next}
use libsmpp.Client.Sending.{
  is_single, segment_loop, send_segments, send_text, encoded, send_message,
}
use libsmpp.Client.Segments.{send_chunks, segment_loop-send_chunks}
use libsmpp.Client.Pieces.{
  join, join-chunks, chunks_bounded, length-chunks, total_of, message_length_bounds,
}
use libsmpp.Client.Plan.{Segment, numbered, pieces, plan}
use libsmpp.Client.Delivered.{segments, send_one-ok, send_chunks-ok}

-- A result that equals another has sent the same.
transfer :
    (x y : DeliveryResult × Link) (planned : List Segment)
    → x ≡ y
    → (y.0 ≡ delivery_ok → segments y.1 ≡ planned)
    → x.0 ≡ delivery_ok
    → segments x.1 ≡ planned
transfer x y planned e f h =
    ap (λ (t : DeliveryResult × Link). segments t.1) e
    ∙ f (sym (ap (λ (t : DeliveryResult × Link). t.0) e) ∙ h)

All-map {ℓ} :
    {A : Type ℓ} (P Q : A → Type 0) → ((x : A) → P x → Q x) → (xs : List A) → All P xs → All Q xs
All-map P Q f [] h = tt
All-map P Q f (x ∷ xs) h = (f x h.0, All-map P Q f xs h.1)

module _ (settings : MessageSettings) where
  short_pieces : (text : List ℕ) → All (λ c. length c ≤ 1024) (pieces settings text)
  short_pieces text =
      let b = message_length_bounds settings in
      All-map (λ c. (0 < length c) × (length c ≤ message_length settings)) (λ c. length c ≤ 1024)
        (λ c p. omega (arith, p, b)) (pieces settings text)
        (chunks_bounded (length text) (message_length settings) text b.0)

  single_short : (text : List ℕ) → is_single settings text ≡ true → length text ≤ 1024
  unfolding is_single
  single_short text e = leb→le (length text) 1024 (and_left _ _ e)

  module _ (from to : List ℕ) where
    -- The loop from its start sends the pieces.
    loop_sends :
        (text : List ℕ) (ref : Option (ℕ × ℕ)) (link : Link)
        → segment_loop settings from to (length text) text ref 0 (message_length settings) 0 link
          ≡ send_chunks settings from to ref 0 (pieces settings text) link
    loop_sends text ref link =
        segment_loop-send_chunks settings from to ref (length text) text 0 (message_length settings)
          0 link (message_length_bounds settings).0 (omega arith) (omega arith)

    pub segments_sent :
        (concatenated : Bool) (text : List ℕ) (link : Link)
        → settings.enable_message_concatenation ≡ concatenated
        → send_segments settings from to text link
          ≡ send_chunks settings from to
              (if concatenated
                then some (length (pieces settings text), (next link).sequence)
                else none)
              0
              (pieces settings text)
              (if concatenated then next link else link)
    unfolding send_segments
    segments_sent true text link e =
        let count =
          length-chunks (length text) (message_length settings) text
            (message_length_bounds settings).0 (omega arith) in
        simp e (
          loop_sends text
            (some (total_of (length text) (message_length settings), (next link).sequence))
            (next link)
          ∙ ap
              (λ (n : ℕ).
                send_chunks settings from to (some (n, (next link).sequence)) 0
                  (pieces settings text) (next link))
              (sym count))
    segments_sent false text link e = simp e (loop_sends text none link)

    long_sends :
        (concatenated : Bool) (text : List ℕ) (link : Link)
        → settings.enable_message_concatenation ≡ concatenated
        → (send_segments settings from to text link).0 ≡ delivery_ok
        → segments (send_segments settings from to text link).1
          ≡ segments link
            ++ numbered
                (if concatenated
                  then some (length (pieces settings text), (next link).sequence)
                  else none)
                0
                (pieces settings text)
    unfolding next
    long_sends true text link e =
        let ref = some (length (pieces settings text), (next link).sequence) in
        let rest = segments link ++ numbered ref 0 (pieces settings text) in
        transfer (send_segments settings from to text link)
          (send_chunks settings from to ref 0 (pieces settings text) (next link)) rest
          (segments_sent true text link e)
          (send_chunks-ok settings from to ref 0 (pieces settings text) (next link)
            (short_pieces text))
    long_sends false text link e =
        transfer (send_segments settings from to text link)
          (send_chunks settings from to none 0 (pieces settings text) link)
          (segments link ++ numbered none 0 (pieces settings text))
          (segments_sent false text link e)
          (send_chunks-ok settings from to none 0 (pieces settings text) link (short_pieces text))

    send_text-ok :
        (text : List ℕ) (link : Link)
        → (send_text settings from to text link).0 ≡ delivery_ok
        → segments (send_text settings from to text link).1
          ≡ segments link ++ plan settings (next link).sequence text
    unfolding send_text
    send_text-ok text link = elim (Bool-cases (is_single settings text)) [
      | inl e ↦ rw e (send_one-ok settings from to text none link (single_short text e))
      | inr e ↦ rw e (long_sends settings.enable_message_concatenation text link refl)
    ]

    module _ (convert : String → String → List ℕ → Converted)
        (left : String → List ℕ → List ℕ) where
      -- Where `SendMessage` gives DELIVERY_OK the client is bound, and the answered requests are those
      -- from before and then, in order, exactly the planned segments of the converted text, each with
      -- its text, its numbers of concatenation and ESME_ROK.
      pub send_message-plan :
          (is_bound : Bool) (content : List ℕ) (link : Link)
          → (send_message settings from to convert left is_bound content link).0 ≡ delivery_ok
          → (is_bound ≡ true)
            × (segments (send_message settings from to convert left is_bound content link).1
                ≡ segments link
                  ++ plan settings
                      (next link).sequence
                      (encoded settings from to convert left content))
      unfolding send_message
      send_message-plan true content link h =
          (refl, send_text-ok (encoded settings from to convert left content) link h)
      send_message-plan false content link h = absurd cc

  -- The texts of a plan.
  texts-numbered :
      (ref : Option (ℕ × ℕ)) (k : ℕ) (cs : List (List ℕ))
      → map (λ s. s.text) (numbered ref k cs) ≡ cs
  texts-numbered ref k [] = refl
  texts-numbered ref k (c ∷ cs) =
      ap (λ (ts : List (List ℕ)). c ∷ ts) (texts-numbered ref (k + 1) cs)

  single_limit :
      (text : List ℕ) → is_single settings text ≡ true → length text ≤ message_length settings
  unfolding is_single message_length
  single_limit text e =
      ground (arith, leb→le (length text) 1024, leb→le (length text) (short_limit settings))

  -- The texts of the planned segments are together the text, and none is longer than the limit.
  pub plan_texts :
      (ref : ℕ) (text : List ℕ)
      → (join (map (λ s. s.text) (plan settings ref text)) ≡ text)
        × All (λ t. length t ≤ message_length settings) (map (λ s. s.text) (plan settings ref text))
  plan_texts ref text = elim (Bool-cases (is_single settings text)) [
    | inl e ↦ rw e (append-nil text, (single_limit text e, tt))
    | inr e ↦
        let b = message_length_bounds settings in
        let ps = pieces settings text in
        rw e (
          rw
            (texts-numbered
              (if settings.enable_message_concatenation then some (length ps, ref) else none) 0 ps)
            (
              join-chunks (length text) (message_length settings) text b.0 (omega arith),
              All-map (λ c. (0 < length c) × (length c ≤ message_length settings))
                  (λ c. length c ≤ message_length settings) (λ c p. p.1) ps
                  (chunks_bounded (length text) (message_length settings) text b.0),
            ))
  ]

-- The texts of the segments that were answered with ESME_ROK.
abbrev pub texts : Link → List (List ℕ)
texts link = map (λ s. s.text) (segments link)
