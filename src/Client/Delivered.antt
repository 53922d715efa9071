-- ===== src/Client/Delivered.antt =====
-- What `SendMessage` has sent when it gives DELIVERY_OK.
use mathlib.Core.List.{map-append}
use libsmpp.Prelude.{
  ℕ, ◌+◌, ◌≤◌, ◌≡◌, refl, sym, ap, ap₂, ◌∙◌, Option, List, [], ◌∷◌, ◌++◌, append-nil, append_assoc,
  map, length, All,
}
use libsmpp.Codec.CommandStatus
use libsmpp.Users.Requests.{
  DeliveryResult, delivery_ok, delivery_rejected, delivery_inv_src_addr, delivery_inv_dest_addr,
  delivery_unknown_error,
}
use libsmpp.Client.Settings.{MessageSettings}
use libsmpp.Client.Link.{submit_sm, Link, next}
use libsmpp.Client.Sending.{Sar, proceed, send_retrying, sar_of, message, send_one}
use libsmpp.Client.Retries.{logged, send_retrying-logged, delivery_of-ok}
use libsmpp.Client.Message.{get_text-message, numbers_of-message}
use libsmpp.Client.Segments.{send_chunks}
use libsmpp.Client.Plan.{Segment, segment_of, accepted, numbered}

proceed-ok :
    (t : DeliveryResult × Link) (rest : Link → DeliveryResult × Link)
    → (proceed t rest).0 ≡ delivery_ok
    → (t.0 ≡ delivery_ok) × (proceed t rest ≡ rest t.1)
unfolding proceed
proceed-ok (delivery_ok, link) rest h = (refl, refl)
proceed-ok (delivery_rejected, link) rest h = absurd cc
proceed-ok (delivery_inv_src_addr, link) rest h = absurd cc
proceed-ok (delivery_inv_dest_addr, link) rest h = absurd cc
proceed-ok (delivery_unknown_error, link) rest h = absurd cc

-- The answers to messages, as segments.
abbrev pub segments : Link → List Segment
segments link = map segment_of link.answered

module _ (settings : MessageSettings) (from to : List ℕ) where
  pub send_one-ok :
      (text : List ℕ) (sar : Option Sar) (link : Link)
      → length text ≤ 1024
      → (send_one settings from to text sar link).0 ≡ delivery_ok
      → segments (send_one settings from to text sar link).1
        ≡ segments link ++ (accepted text sar ∷ [])
  unfolding send_one next
  send_one-ok text sar link short h =
      let l = next link in
      let q = submit_sm l.sequence (message settings from to text sar) in
      let r = delivery_of-ok (send_retrying 2 q l).0 h in
      let log : (send_retrying 2 q l).1.answered
          ≡ link.answered ++ ((q, CommandStatus.esme_rok) ∷ []) =
        send_retrying-logged 2 q l ∙ ap (λ t. logged q t link.answered) r.1 in
      let seen : segment_of (q, CommandStatus.esme_rok) ≡ accepted text sar =
        ap₂
          (λ (t : List ℕ) (n : List (Option ℕ)). record {
            text = t;
            sar = n;
            status = CommandStatus.esme_rok;
          })
          (get_text-message settings from to text sar short)
          (numbers_of-message settings from to text sar) in
      ap (map segment_of) log
      ∙ map-append segment_of link.answered ((q, CommandStatus.esme_rok) ∷ [])
      ∙ ap (λ (s : Segment). segments link ++ (s ∷ [])) seen

  pub send_chunks-ok :
      (ref : Option (ℕ × ℕ)) (k : ℕ) (cs : List (List ℕ)) (link : Link)
      → All (λ c. length c ≤ 1024) cs
      → (send_chunks settings from to ref k cs link).0 ≡ delivery_ok
      → segments (send_chunks settings from to ref k cs link).1 ≡ segments link ++ numbered ref k cs
  unfolding send_chunks
  send_chunks-ok ref k [] link short h = sym (append-nil (segments link))
  send_chunks-ok ref k (c ∷ cs) link short h =
      let t = send_one settings from to c (sar_of ref (k + 1)) link in
      let p = proceed-ok t (λ l. send_chunks settings from to ref (k + 1) cs l) h in
      ap (λ (z : DeliveryResult × Link). segments z.1) p.1
      ∙ send_chunks-ok ref (k + 1) cs t.1 short.1
          (sym (ap (λ (z : DeliveryResult × Link). z.0) p.1) ∙ h)
      ∙ ap (λ (ss : List Segment). ss ++ numbered ref (k + 1) cs)
          (send_one-ok c (sar_of ref (k + 1)) link short.0 p.0)
      ∙ append_assoc (segments link) (accepted c (sar_of ref (k + 1)) ∷ [])
          (numbered ref (k + 1) cs)
