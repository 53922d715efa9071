-- ===== src/Client/Attempts.antt =====
-- How many requests `SendMessage` makes, whatever the answers are.
use Prim.Native.String.{String}
use libsmpp.Prelude.{
  ℕ, suc, ◌+◌, ◌*◌, ◌≤◌, ◌≡◌, refl, sym, ap, subst, Bool, Bool-cases, true, false, inl, inr, Option,
  none, some, List, [], ◌∷◌, length, arith, if◌then◌else◌,
}
use libsmpp.Converter.Iconv.{Converted}
use libsmpp.Users.Requests.{
  DeliveryResult, delivery_ok, delivery_rejected, delivery_inv_src_addr, delivery_inv_dest_addr,
  delivery_unknown_error,
}
use libsmpp.Client.Settings.{MessageSettings}
use libsmpp.Client.Link.{Link, submit_sm, next}
use libsmpp.Client.Sending.{
  Sar, proceed, sar_of, message, send_one, is_single, send_segments, send_text, encoded,
  send_message,
}
use libsmpp.Client.Retries.{send_retrying_requests}
use libsmpp.Client.Segments.{send_chunks}
use libsmpp.Client.Plan.{numbered, pieces, plan}
use libsmpp.Client.Messages.{segments_sent}

proceed_requests :
    (t : DeliveryResult × Link) (rest : Link → DeliveryResult × Link) (n : ℕ)
    → t.1.requests ≤ n
    → (rest t.1).1.requests ≤ n
    → (proceed t rest).1.requests ≤ n
unfolding proceed
proceed_requests (delivery_ok, link) rest n h k = k
proceed_requests (delivery_rejected, link) rest n h k = h
proceed_requests (delivery_inv_src_addr, link) rest n h k = h
proceed_requests (delivery_inv_dest_addr, link) rest n h k = h
proceed_requests (delivery_unknown_error, link) rest n h k = h

length-numbered :
    (ref : Option (ℕ × ℕ)) (k : ℕ) (cs : List (List ℕ)) → length (numbered ref k cs) ≡ length cs
length-numbered ref k [] = refl
length-numbered ref k (c ∷ cs) = ap suc (length-numbered ref (k + 1) cs)

module _ (settings : MessageSettings) (from to : List ℕ) where
  send_one_requests :
      (text : List ℕ) (sar : Option Sar) (link : Link)
      → (send_one settings from to text sar link).1.requests ≤ link.requests + 3
  unfolding send_one next
  send_one_requests text sar link =
      let l = next link in
      send_retrying_requests 2 (submit_sm l.sequence (message settings from to text sar)) l

  send_chunks_requests :
      (ref : Option (ℕ × ℕ)) (k : ℕ) (cs : List (List ℕ)) (link : Link)
      → (send_chunks settings from to ref k cs link).1.requests ≤ link.requests + 3 * length cs
  unfolding send_chunks
  send_chunks_requests ref k [] link = omega arith
  send_chunks_requests ref k (c ∷ cs) link =
      let t = send_one settings from to c (sar_of ref (k + 1)) link in
      let one = send_one_requests c (sar_of ref (k + 1)) link in
      proceed_requests t (λ l. send_chunks settings from to ref (k + 1) cs l)
        (link.requests + 3 * suc (length cs)) (omega (arith, one))
        (omega (arith, one, send_chunks_requests ref (k + 1) cs t.1))

  send_segments_requests :
      (concatenated : Bool) (text : List ℕ) (link : Link)
      → settings.enable_message_concatenation ≡ concatenated
      → (send_segments settings from to text link).1.requests
        ≤ link.requests + 3 * length (pieces settings text)
  unfolding next
  send_segments_requests true text link e =
      subst
        (λ (t : DeliveryResult × Link).
          t.1.requests ≤ link.requests + 3 * length (pieces settings text))
        (sym (segments_sent settings from to true text link e))
        (send_chunks_requests (some (length (pieces settings text), (next link).sequence)) 0
          (pieces settings text) (next link))
  send_segments_requests false text link e =
      subst
        (λ (t : DeliveryResult × Link).
          t.1.requests ≤ link.requests + 3 * length (pieces settings text))
        (sym (segments_sent settings from to false text link e))
        (send_chunks_requests none 0 (pieces settings text) link)

  send_text_requests :
      (ref : ℕ) (text : List ℕ) (link : Link)
      → (send_text settings from to text link).1.requests
        ≤ link.requests + 3 * length (plan settings ref text)
  unfolding send_text
  send_text_requests ref text link = elim (Bool-cases (is_single settings text)) [
    | inl e ↦ rw e (send_one_requests text none link)
    | inr e ↦
        let ps = pieces settings text in
        rw e (
          rw
            (length-numbered
              (if settings.enable_message_concatenation then some (length ps, ref) else none) 0 ps)
            (send_segments_requests settings.enable_message_concatenation text link refl))
  ]

  module _ (convert : String → String → List ℕ → Converted) (left : String → List ℕ → List ℕ) where
    -- Whatever the server answers, `SendMessage` makes at most three requests for each planned segment
    -- of the converted text, and none on a client that is not bound.
    pub send_message_requests :
        (ref : ℕ) (is_bound : Bool) (content : List ℕ) (link : Link)
        → (send_message settings from to convert left is_bound content link).1.requests
          ≤ link.requests
            + (if is_bound
                then 3 * length (plan settings ref (encoded settings from to convert left content))
                else 0)
    unfolding send_message
    send_message_requests ref true content link =
        send_text_requests ref (encoded settings from to convert left content) link
    send_message_requests ref false content link = omega arith
