-- ===== src/Connection/SendPdu.antt =====
-- `SendPDU`: the PDU is packed into a buffer that is doubled until it fits.
use libsmpp.Prelude.{
  ℕ, zero, suc, ◌*◌, ◌^◌, lt→ltb, sym, ◌≤◌, ◌<◌, ◌≡◌, ltb, if◌then◌else◌, Bool, true, false, Option,
  none, some, List, refl, arith,
}
use libsmpp.Codec.Frames.{frame_of}
use libsmpp.Codec.Octets.{◌>>=◌}
use libsmpp.Codec.Pdu.{PduOf, smpp34_pack}
use libsmpp.Codec.RoundTrip.{>>=-eq-some}
use libsmpp.Codec.Monotone.{smpp34_pack-more}

-- RESULT_NETERROR, RESULT_SYSERROR, and RESULT_OK with the octets that are written to the socket.
pub data Sent : Type 0 where
  result_neterror result_syserror : Sent
  result_ok : List ℕ → Sent

-- `pack_fn` with the size of a buffer: an error, or the octets. A failed attempt may already have cut a
-- text of the struct to its field, which changes nothing for the next attempt.
module _ (pack_fn : ℕ → Option (List ℕ)) where
  -- The `while` loop: a buffer of less than 2 << 11 octets is doubled after an error.
  unfoldable pub grow : ℕ → ℕ → Option (List ℕ) → Option (List ℕ)
  grow fuel size (some octets) = some octets
  grow zero size none = none
  grow (suc fuel) size none =
      let rest = grow fuel (size * 2) (pack_fn (size * 2)) in
      if ltb size (2 * 2 ^ 11) then rest else none

  unfoldable pub written : Bool → Option (List ℕ) → Sent
  written socket_ok none = result_syserror
  written socket_ok (some octets) = if socket_ok then result_ok octets else result_neterror

  -- The socket is open, and `asio::write` does not throw. From 256 octets to 4096 there are four
  -- rounds.
  unfoldable pub send_pdu : Bool → Bool → Sent
  send_pdu is_open socket_ok =
      if is_open then written socket_ok (grow 4 256 (pack_fn 256)) else result_neterror

module _ (pack_fn : ℕ → Option (List ℕ))
    (more : (size larger : ℕ) (octets : List ℕ)
      → size ≤ larger
      → pack_fn size ≡ some octets
      → pack_fn larger ≡ some octets) where
  grow-end : (o : Option (List ℕ)) → pack_fn 4096 ≡ o → grow pack_fn 0 4096 o ≡ pack_fn 4096
  unfolding grow
  grow-end none h = sym h
  grow-end (some octets) h = sym h

  -- One round: the buffer was long enough, or the rest of the loop decides.
  grow-round :
      (fuel size : ℕ)
      → size < 4096
      → ((o : Option (List ℕ))
          → pack_fn (size * 2) ≡ o
          → grow pack_fn fuel (size * 2) o ≡ pack_fn 4096)
      → (o : Option (List ℕ)) → pack_fn size ≡ o
      → grow pack_fn (suc fuel) size o ≡ pack_fn 4096
  unfolding grow
  grow-round fuel size small rest none h =
      rw (lt→ltb size (2 * 2 ^ 11) (omega arith)) (rest (pack_fn (size * 2)) refl)
  grow-round fuel size small rest (some octets) h = sym (more size 4096 octets (omega arith) h)

  -- The loop has the result of the longest buffer.
  pub grow-last : grow pack_fn 4 256 (pack_fn 256) ≡ pack_fn 4096
  grow-last =
      grow-round 3 256 (omega arith)
        (grow-round 2 512 (omega arith)
          (grow-round 1 1024 (omega arith) (grow-round 0 2048 (omega arith) grow-end)))
        (pack_fn 256) refl

-- `pack_request` and `pack_response` of a struct.
abbrev pub packed : (type : ℕ) → PduOf (frame_of type) → ℕ → Option (List ℕ)
packed type x size = smpp34_pack type size x >>= λ t. some t.0

packed-more :
    (type : ℕ) (x : PduOf (frame_of type)) (size larger : ℕ) (octets : List ℕ)
    → size ≤ larger
    → packed type x size ≡ some octets
    → packed type x larger ≡ some octets
packed-more type x size larger octets le h =
    let m = >>=-eq-some (smpp34_pack type size x) _ octets h in
    rw (smpp34_pack-more type size larger x m.0.1 m.0.0 le m.1) m.2

-- The three results.
abbrev pub outcome_of : Option (List ℕ) → Bool → Sent
outcome_of none socket_ok = result_syserror
outcome_of (some octets) true = result_ok octets
outcome_of (some octets) false = result_neterror

written-outcome_of :
    (pack_fn : ℕ → Option (List ℕ)) (o : Option (List ℕ)) (socket_ok : Bool)
    → written pack_fn socket_ok o ≡ outcome_of o socket_ok
unfolding written
written-outcome_of pack_fn none socket_ok = refl
written-outcome_of pack_fn (some octets) true = refl
written-outcome_of pack_fn (some octets) false = refl

-- On an open socket, `SendPDU` writes exactly what `smpp34_pack` makes of the struct in a buffer of 4096
-- octets; where that fails, it gives RESULT_SYSERROR, and RESULT_NETERROR where the write fails.
pub send_pdu-packed :
    (type : ℕ) (x : PduOf (frame_of type)) (socket_ok : Bool)
    → send_pdu (packed type x) true socket_ok ≡ outcome_of (packed type x 4096) socket_ok
unfolding send_pdu
send_pdu-packed type x socket_ok =
    rw (grow-last (packed type x) (packed-more type x))
      (written-outcome_of (packed type x) (packed type x 4096) socket_ok)
