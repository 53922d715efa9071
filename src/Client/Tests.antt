-- ===== src/Client/Tests.antt =====
-- The client at work.
use Prim.Native.String.{String}
use libsmpp.Prelude.{
  ℕ, ◌+◌, ◌*◌, ◌≤◌, ◌≡◌, ◌==◌, refl, if◌then◌else◌, true, false, List, [], ◌∷◌, ◌++◌, length,
}
use libsmpp.Converter.Iconv.{Converted, converted}
use libsmpp.Converter.Charset.{get_charset_from_data_coding, convert_internal}
use libsmpp.Connection.Sequence.{next_sequence_number}
use libsmpp.Users.Clients.{transceiver}
use libsmpp.Users.Requests.{delivery_ok}
use libsmpp.Client.Settings.{MessageSettings, message_length, short_limit}
use libsmpp.Client.Link.{
  Reply, answer, failure, timeout, Link, next, reply_of, sent, recorded, send_request,
}
use libsmpp.Client.Sending.{
  handle_message_response, delivery_of, first_answer, send_retrying, proceed, next_length,
  is_single, send_one, segment_loop, send_segments, send_text, text_of, encoded, send_message,
}
use libsmpp.Client.Plan.{plan}
use libsmpp.Client.Delivered.{segments}
use libsmpp.Client.Messages.{send_message-plan}
use libsmpp.Client.Attempts.{send_message_requests}
use libsmpp.Client.Session.{Client, bind_client, send_client}
use libsmpp.Client.Sessions.{IsSession, Step, Reach, Reach-IsSession}
use libsmpp.Client.Incoming.{padded, swapped}

-- Pieces of two octets, in UTF-8, with concatenation.
abbrev small : MessageSettings
small = record {
  deliver_data_coding = 0x0B;
  server_default_encoding = 0;
  enable_gsm7bit_packing = false;
  max_message_length = 2;
  enable_message_concatenation = true;
  enable_payload = false;
  enable_submit_multi = true;
  big_endian_unicode = false;
}

abbrev same : String → String → List ℕ → Converted
same charset_from charset_to text = converted text

abbrev as_it_is : String → List ℕ → List ℕ
as_it_is encoding text = text

-- The second request is not answered, all others are accepted.
abbrev lossy : ℕ → Reply
lossy n = if n == 1 then failure timeout else answer 0 []

abbrev opened : Link
opened = record {
  replies = lossy;
  rand = λ n. 0;
  is_open = true;
  sequence = 7;
  requests = 0;
  answered = [];
}

abbrev hello : List ℕ
hello = 0x68 ∷ 0x65 ∷ 0x6C ∷ 0x6C ∷ 0x6F ∷ []

hello_delivered : (send_message small [] [] same as_it_is true hello opened).0 ≡ delivery_ok
unfolding send_message send_text is_single send_segments segment_loop send_one send_retrying
    send_request first_answer proceed delivery_of handle_message_response reply_of recorded sent
    next next_sequence_number next_length message_length short_limit encoded text_of
    convert_internal get_charset_from_data_coding
hello_delivered = refl

send_message-plan_example :
    (true ≡ true)
    × (segments (send_message small [] [] same as_it_is true hello opened).1
        ≡ segments opened
          ++ plan small (next opened).sequence (encoded small [] [] same as_it_is hello))
send_message-plan_example =
    send_message-plan small [] [] same as_it_is true hello opened hello_delivered

send_message_requests_example :
    (send_message small [] [] same as_it_is true hello opened).1.requests
    ≤ opened.requests
      + (if true then 3 * length (plan small 8 (encoded small [] [] same as_it_is hello)) else 0)
send_message_requests_example = send_message_requests small [] [] same as_it_is 8 true hello opened

-- Three pieces and one retry.
four_requests : (send_message small [] [] same as_it_is true hello opened).1.requests ≡ 4
unfolding send_message send_text is_single send_segments segment_loop send_one send_retrying
    send_request first_answer proceed delivery_of handle_message_response reply_of recorded sent
    next next_sequence_number next_length message_length short_limit encoded text_of
    convert_internal get_charset_from_data_coding
four_requests = refl

-- A client that has not been bound yet.
abbrev unbound_client : Client
unbound_client = record {
  login_mode = transceiver;
  system_id = hello;
  system_type = [];
  password = [];
  address_range = [];
  settings = small;
  is_bound = false;
  server_system_id = [];
  link = opened;
}

-- It is bound and has sent a message.
abbrev bound_client : Client
bound_client = (bind_client true opened unbound_client).1

abbrev busy_client : Client
busy_client = (send_client same as_it_is [] [] hello bound_client).1

unbound_client-IsSession : IsSession unbound_client
unbound_client-IsSession = record { bound_open = λ e. refl; unbound_forgets = λ e. refl }

busy_reached : Reach same as_it_is unbound_client busy_client
busy_reached =
    Reach.next_step (Reach.next_step Reach.here (Step.login true opened refl))
      (Step.send [] [] hello)

Reach-IsSession_example : IsSession busy_client
Reach-IsSession_example =
    Reach-IsSession same as_it_is {start = unbound_client} {c = busy_client}
      unbound_client-IsSession busy_reached

odd_text : swapped (padded (1 ∷ 2 ∷ 3 ∷ [])) ≡ 2 ∷ 1 ∷ 3 ∷ 0 ∷ []
unfolding swapped padded
odd_text = refl
