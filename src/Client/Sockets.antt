-- ===== src/Client/Sockets.antt =====
-- `SendRequest` and `SendMessage` leave the socket as it is.
use libsmpp.Prelude.{
  ℕ, zero, suc, ◌+◌, ◌-◌, ◌≡◌, ◌∙◌, refl, ltb, Bool, Bool-cases, inl, inr, Option, none, List,
  length, take, drop,
}
use libsmpp.Users.Requests.{
  DeliveryResult, delivery_ok, delivery_rejected, delivery_inv_src_addr, delivery_inv_dest_addr,
  delivery_unknown_error,
}
use libsmpp.Client.Settings.{MessageSettings, message_length}
use libsmpp.Client.Link.{
  Request, Reply, answer, failure, Link, next, reply_of, sent, recorded, send_request,
}
use libsmpp.Client.Sending.{
  Sar, first_answer, send_retrying, proceed, sar_of, next_length, message, send_one, segment_loop,
  send_segments, is_single, send_text,
}

pub recorded_open :
    (q : Request) (r : Reply) (link : Link) → (recorded q r link).is_open ≡ link.is_open
unfolding recorded sent
recorded_open q (answer status id) link = refl
recorded_open q (failure f) link = refl

first_answer_open :
    (r : Reply) (link : Link) (later : Reply × Link) (b : Bool)
    → link.is_open ≡ b
    → later.1.is_open ≡ b
    → (first_answer (r, link) later).1.is_open ≡ b
unfolding first_answer
first_answer_open (answer status id) link later b h k = h
first_answer_open (failure f) link later b h k = k

send_retrying_open :
    (more : ℕ) (q : Request) (link : Link) (b : Bool)
    → link.is_open ≡ b
    → (send_retrying more q link).1.is_open ≡ b
unfolding send_retrying send_request
send_retrying_open zero q link b h = recorded_open q (reply_of link) link ∙ h
send_retrying_open (suc more) q link b h =
    let l = recorded q (reply_of link) link in
    let o = recorded_open q (reply_of link) link ∙ h in
    first_answer_open (reply_of link) l (send_retrying more q l) b o
      (send_retrying_open more q l b o)

proceed_open :
    (t : DeliveryResult × Link) (rest : Link → DeliveryResult × Link) (b : Bool)
    → t.1.is_open ≡ b
    → ((l : Link) → l.is_open ≡ b → (rest l).1.is_open ≡ b)
    → (proceed t rest).1.is_open ≡ b
unfolding proceed
proceed_open (delivery_ok, link) rest b h k = k link h
proceed_open (delivery_rejected, link) rest b h k = h
proceed_open (delivery_inv_src_addr, link) rest b h k = h
proceed_open (delivery_inv_dest_addr, link) rest b h k = h
proceed_open (delivery_unknown_error, link) rest b h k = h

module _ (settings : MessageSettings) (from to : List ℕ) where
  send_one_open :
      (text : List ℕ) (sar : Option Sar) (link : Link) (b : Bool)
      → link.is_open ≡ b
      → (send_one settings from to text sar link).1.is_open ≡ b
  unfolding send_one next
  send_one_open text sar link b h =
      let l = next link in
      send_retrying_open 2 (Request.submit_sm l.sequence (message settings from to text sar)) l b h

  segment_loop_open :
      (fuel : ℕ) (text : List ℕ) (ref : Option (ℕ × ℕ)) (i n k : ℕ) (link : Link) (b : Bool)
      → link.is_open ≡ b
      → (segment_loop settings from to fuel text ref i n k link).1.is_open ≡ b
  unfolding segment_loop
  segment_loop_open zero text ref i n k link b h = h
  segment_loop_open (suc fuel) text ref i n k link b h =
      let m = next_length (length text - i) n in
      elim (Bool-cases (ltb i (length text))) [
        | inl e ↦ rw e (
            proceed_open
              (send_one settings from to (take m (drop i text)) (sar_of ref (k + 1)) link)
              (λ l. segment_loop settings from to fuel text ref (i + m) m (k + 1) l) b
              (send_one_open (take m (drop i text)) (sar_of ref (k + 1)) link b h)
              (λ l o. segment_loop_open fuel text ref (i + m) m (k + 1) l b o))
        | inr e ↦ rw e h
      ]

  send_segments_open :
      (text : List ℕ) (link : Link) (b : Bool)
      → link.is_open ≡ b
      → (send_segments settings from to text link).1.is_open ≡ b
  unfolding send_segments next
  send_segments_open text link b h = elim (Bool-cases settings.enable_message_concatenation) [
    | inl e ↦
        simp e
          (segment_loop_open (length text) text _ 0 (message_length settings) 0 (next link) b h)
    | inr e ↦
        simp e (segment_loop_open (length text) text none 0 (message_length settings) 0 link b h)
  ]

  pub send_text_open :
      (text : List ℕ) (link : Link) (b : Bool)
      → link.is_open ≡ b
      → (send_text settings from to text link).1.is_open ≡ b
  unfolding send_text
  send_text_open text link b h = elim (Bool-cases (is_single settings text)) [
    | inl e ↦ rw e (send_one_open text none link b h)
    | inr e ↦ rw e (send_segments_open text link b h)
  ]
