-- ===== src/Converter/Iconv.antt =====
-- `iconv_wrapper` of converter.cpp, over the `iconv` of the C library, which is a parameter.
pub mod Buffer
pub mod Behaviour
mod Tests
use Prim.Native.String.{String}
use libsmpp.Prelude.{
  ℕ, zero, suc, ◌+◌, ◌-◌, ◌*◌, ◌≤◌, ◌<◌, ◌≡◌, List, [], ◌∷◌, Option, none, some, ltb, if◌then◌else◌,
  length, drop,
}
use Buffer.{store, update, slice}

-- How a call of `iconv` ends: without an error, or with an `errno`.
pub data Status : Type 0 where
  ok e2big eilseq other_error : Status

-- What a call of `iconv` did: the descriptor's new shift state, the input octets used, and the
-- output octets.
pub record Call (S : Type 0) : Type 0 where
  pub state : S
  pub status : Status
  pub used : ℕ
  pub out : List ℕ

-- A descriptor: its shift state, and a call of `iconv` on the input that is left, with the room
-- that is left.
pub record Descriptor : Type 1 where
  pub State : Type 0
  pub initial : State
  pub iconv : State → List ℕ → ℕ → Call State

-- What the manual says of a call: output stays within the room, a call without an error has used
-- the whole input, and EILSEQ means that an invalid octet is next.
pub record IsIconv (d : Descriptor) : Type 0 where
  pub within : (s : d.State) (i : List ℕ) (room : ℕ) → length (d.iconv s i room).out ≤ room
  pub whole :
      (s : d.State) (i : List ℕ) (room : ℕ)
      → (d.iconv s i room).status ≡ ok
      → (d.iconv s i room).used ≡ length i
  pub invalid :
      (s : d.State) (i : List ℕ) (room : ℕ)
      → (d.iconv s i room).status ≡ eilseq
      → (d.iconv s i room).used < length i

-- The error codes -1, -2 and -3 of `convert`.
pub data Failure : Type 0 where
  no_descriptor too_big unrecoverable : Failure

-- The return value of `convert`, with the text that it leaves in `dest`.
pub data Converted : Type 0 where
  converted : List ℕ → Converted
  failed : Failure → Converted

-- `overrun` is a write behind the end of the buffer, which C leaves undefined; `out_of_fuel` has
-- no counterpart.
pub data Run : Type 0 where
  done : Converted → Run
  overrun out_of_fuel : Run

-- INCONV_BUFFER_SIZE is a variable here, so that nothing counts up to 32768.
module _ (size : ℕ) (d : Descriptor) where
  -- The `while` loop: the shift state, the input left, the buffer and `outbytesleft`. The pointer
  -- `outbuf` stands at `size - left`, and the octet '?' is stored at index `size - left` of that
  -- pointer.
  unfoldable pub convert_loop : ℕ → d.State → List ℕ → (ℕ → ℕ) → ℕ → Run
  convert_loop zero s i buf left = out_of_fuel
  convert_loop (suc fuel) s [] buf left = done (converted (slice buf 0 (size - left)))
  convert_loop (suc fuel) s (x ∷ xs) buf left =
      let c = d.iconv s (x ∷ xs) left in
      let buf' = store buf (size - left) c.out in
      let left' = left - length c.out in
      let rest = drop c.used (x ∷ xs) in
      let skip =
        convert_loop fuel c.state (drop 1 rest) (update buf' ((size - left') + (size - left')) b'?')
          (left' - 1) in
      elim c.status [
        | ok ↦ convert_loop fuel c.state rest buf' left'
        | e2big ↦ done (failed too_big)
        | eilseq ↦
            if ltb 0 left'
            then (if ltb ((size - left') + (size - left')) size then skip else overrun)
            else done (failed unrecoverable)
        | other_error ↦ done (failed unrecoverable)
      ]

-- `convert` on a cleared buffer. The descriptor is missing where `iconv_open` failed.
unfoldable pub iconv_convert : ℕ → Option Descriptor → List ℕ → Run
iconv_convert size none src = done (failed no_descriptor)
iconv_convert size (some d) src = convert_loop size d (length src + 2) d.initial src (λ at. 0) size
