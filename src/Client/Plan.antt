-- ===== src/Client/Plan.antt =====
-- The segments that a message should be sent in, described by themselves.
use libsmpp.Prelude.{ℕ, ◌+◌, if◌then◌else◌, Option, none, some, List, [], ◌∷◌, length}
use libsmpp.Codec.CommandStatus
use libsmpp.Commands.Submit.{get_text}
use libsmpp.Client.Link.{Request, bind, unbind, enquire_link, submit_sm}
use libsmpp.Client.Settings.{MessageSettings, message_length}
use libsmpp.Client.Sending.{Sar, sar_of, is_single}
use libsmpp.Client.Message.{numbers_of, numbers}
use libsmpp.Client.Segments.{chunks}

-- An answered message: its text, its numbers of concatenation and the status of the answer.
pub record Segment : Type 0 where
  pub text : List ℕ
  pub sar : List (Option ℕ)
  pub status : ℕ

abbrev pub segment_of : Request × ℕ → Segment
segment_of (bind mode n b, status) = record { text = []; sar = []; status = status }
segment_of (unbind n, status) = record { text = []; sar = []; status = status }
segment_of (enquire_link n, status) = record { text = []; sar = []; status = status }
segment_of (submit_sm n s, status) = record {
  text = get_text s;
  sar = numbers_of s.tlv;
  status = status;
}

-- A segment that the server accepted.
abbrev pub accepted : List ℕ → Option Sar → Segment
accepted text sar = record { text = text; sar = numbers sar; status = CommandStatus.esme_rok }

-- The segments behind the first `k`.
abbrev pub numbered : Option (ℕ × ℕ) → ℕ → List (List ℕ) → List Segment
numbered ref k [] = []
numbered ref k (c ∷ cs) = accepted c (sar_of ref (k + 1)) ∷ numbered ref (k + 1) cs

-- The pieces of a long text.
abbrev pub pieces : MessageSettings → List ℕ → List (List ℕ)
pieces settings text = chunks (length text) (message_length settings) text

-- With the reference number that a concatenated message gets.
abbrev pub plan : MessageSettings → ℕ → List ℕ → List Segment
plan settings ref text =
    let ps = pieces settings text in
    if is_single settings text
    then accepted text none ∷ []
    else numbered (if settings.enable_message_concatenation then some (length ps, ref) else none) 0
        ps
