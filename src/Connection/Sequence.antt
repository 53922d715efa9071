-- ===== src/Connection/Sequence.antt =====
-- `NextSequenceNumber`, on an `unsigned int` of 32 bits.
use libsmpp.Prelude.{
  ℕ, ◌+◌, ◌-◌, ◌%◌, ◌^◌, ◌≤◌, ◌<◌, ◌≡◌, ◌==◌, if◌then◌else◌, if-cases, ==→ne, inl, inr, refl, true,
  lt→ltb, arith, subst,
}
use libsmpp.Codec.Checks.{sequence_number, valid}

-- INITIAL_SEQ_NUMBER, for what `rand` gives.
unfoldable pub initial_seq_number : ℕ → ℕ
initial_seq_number rand = rand % 0x4000 + 1

-- The new `m_nextSequenceNumber`, which is also the result.
unfoldable pub next_sequence_number : ℕ → ℕ → ℕ
next_sequence_number rand n =
    let m = (n + 1) % 2 ^ 32 in if m == 2 ^ 32 - 1 then initial_seq_number rand else m

-- `m_nextSequenceNumber` as the constructor leaves it and as it stays.
abbrev pub IsSequence : ℕ → Type 0
IsSequence n = (1 ≤ n) × (n < 2 ^ 32 - 1)

initial_seq_number-IsSequence : (rand : ℕ) → IsSequence (initial_seq_number rand)
unfolding initial_seq_number
initial_seq_number-IsSequence rand = (omega arith, omega arith)

next_within : (rand n : ℕ) → IsSequence n → IsSequence (next_sequence_number rand n)
unfolding next_sequence_number
next_within rand n is =
    let m = (n + 1) % 2 ^ 32 in
    let first = initial_seq_number-IsSequence rand in
    elim (if-cases (m == 2 ^ 32 - 1) (initial_seq_number rand) m (next_sequence_number rand n)
      refl) [
        | inl p ↦ subst IsSequence p.1 first
        | inr p ↦ subst IsSequence p.1 (omega arith, omega (arith, ==→ne m (2 ^ 32 - 1) p.0))
      ]

-- The field starts between 1 and UINT_MAX - 1 and stays there, and the codec accepts each such
-- sequence number.
pub next_sequence_number-IsSequence :
    (rand n : ℕ)
    → IsSequence n
    → IsSequence (initial_seq_number rand)
      × IsSequence (next_sequence_number rand n)
      × (valid sequence_number (next_sequence_number rand n) ≡ true)
unfolding valid
next_sequence_number-IsSequence rand n is =
    let first = initial_seq_number-IsSequence rand in
    let next = next_within rand n is in (first, next, lt→ltb 0 (next_sequence_number rand n) next.0)
