-- ===== src/Client/Retries.antt =====
-- The attempts of `SendMessage` to send one request: what is recorded, and how often it is sent.
use libsmpp.Prelude.{ℕ, zero, suc, ◌+◌, ◌≤◌, ◌≡◌, refl, List, [], ◌∷◌, ◌++◌, arith}
use libsmpp.Codec.CommandStatus
use libsmpp.Users.Requests.{delivery_ok}
use libsmpp.Client.Link.{
  Request, Reply, answer, failure, Link, reply_of, sent, recorded, send_request,
}
use libsmpp.Client.Sending.{handle_message_response, delivery_of, first_answer, send_retrying}

-- What is added to the record of answers.
abbrev pub logged : Request → Reply → List (Request × ℕ) → List (Request × ℕ)
logged q (answer status id) before = before ++ ((q, status) ∷ [])
logged q (failure f) before = before

recorded-logged :
    (q : Request) (r : Reply) (link : Link)
    → (recorded q r link).answered ≡ logged q r link.answered
unfolding recorded sent
recorded-logged q (answer status id) link = refl
recorded-logged q (failure f) link = refl

recorded_requests :
    (q : Request) (r : Reply) (link : Link) → (recorded q r link).requests ≡ link.requests + 1
unfolding recorded sent
recorded_requests q (answer status id) link = refl
recorded_requests q (failure f) link = refl

first_answer-logged :
    (q : Request) (r : Reply) (link : Link) (later : Reply × Link)
    → later.1.answered ≡ logged q later.0 (recorded q r link).answered
    → (first_answer (r, recorded q r link) later).1.answered
      ≡ logged q (first_answer (r, recorded q r link) later).0 link.answered
unfolding first_answer recorded sent
first_answer-logged q (answer status id) link later h = refl
first_answer-logged q (failure f) link later h = h

first_answer_requests :
    (r : Reply) (link : Link) (later : Reply × Link) (n : ℕ)
    → link.requests ≤ n
    → later.1.requests ≤ n
    → (first_answer (r, link) later).1.requests ≤ n
unfolding first_answer
first_answer_requests (answer status id) link later n h k = h
first_answer_requests (failure f) link later n h k = k

-- However many attempts there were, at most the last one is recorded.
pub send_retrying-logged :
    (more : ℕ) (q : Request) (link : Link)
    → (send_retrying more q link).1.answered ≡ logged q (send_retrying more q link).0 link.answered
unfolding send_retrying send_request
send_retrying-logged zero q link = recorded-logged q (reply_of link) link
send_retrying-logged (suc more) q link =
    first_answer-logged q (reply_of link) link
      (send_retrying more q (recorded q (reply_of link) link))
      (send_retrying-logged more q (recorded q (reply_of link) link))

pub send_retrying_requests :
    (more : ℕ) (q : Request) (link : Link)
    → (send_retrying more q link).1.requests ≤ link.requests + (more + 1)
unfolding send_retrying send_request
send_retrying_requests zero q link = omega (arith, recorded_requests q (reply_of link) link)
send_retrying_requests (suc more) q link =
    let l = recorded q (reply_of link) link in
    first_answer_requests (reply_of link) l (send_retrying more q l)
      (link.requests + (suc more + 1)) (omega (arith, recorded_requests q (reply_of link) link))
      (omega (arith, recorded_requests q (reply_of link) link, send_retrying_requests more q l))

handle_message_response-ok :
    (status : ℕ) → handle_message_response status ≡ delivery_ok → status ≡ CommandStatus.esme_rok
unfolding handle_message_response
handle_message_response-ok status h = ground arith

-- DELIVERY_OK comes of an answer with ESME_ROK only.
pub delivery_of-ok :
    (r : Reply)
    → delivery_of r ≡ delivery_ok
    → (id : List ℕ) × (r ≡ answer CommandStatus.esme_rok id)
unfolding delivery_of
delivery_of-ok (answer status id) h = (id, rw (handle_message_response-ok status h) refl)
delivery_of-ok (failure f) h = absurd cc
