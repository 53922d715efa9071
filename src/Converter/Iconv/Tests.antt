-- ===== src/Converter/Iconv/Tests.antt =====
-- A small `iconv` for the wrapper of converter.cpp: it copies ASCII and stops at anything else.
use libsmpp.Prelude.{
  ℕ, zero, suc, ◌≤◌, ◌<◌, ◌≡◌, ◌≢◌, refl, List, [], ◌∷◌, some, arith, ltb, if◌then◌else◌, length,
}
use libsmpp.Converter.Iconv.{
  Status, ok, e2big, eilseq, Call, Descriptor, IsIconv, converted, done, overrun, out_of_fuel,
  convert_loop, iconv_convert,
}
use libsmpp.Converter.Iconv.Buffer.{store, slice}
use libsmpp.Converter.Iconv.Behaviour.{
  iconv_convert_returns, iconv_convert-clean, iconv_convert_loses_mark,
}

abbrev stop : Status → Call (Unit {0})
stop st = record { state = tt; status = st; used = 0; out = [] }

abbrev grow : ℕ → Call (Unit {0}) → Call (Unit {0})
grow x c = record { state = tt; status = c.status; used = suc c.used; out = x ∷ c.out }

abbrev copy : List ℕ → ℕ → Call (Unit {0})
copy [] room = stop ok
copy (x ∷ xs) zero = stop e2big
copy (x ∷ xs) (suc room) = if ltb x 128 then grow x (copy xs room) else stop eilseq

abbrev ascii : Descriptor
ascii = record { State = Unit {0}; initial = tt; iconv = λ s. copy }

copy_within : (i : List ℕ) (room : ℕ) → length (copy i room).out ≤ room
copy_within [] room = omega arith
copy_within (x ∷ xs) zero = omega arith
copy_within (x ∷ xs) (suc room) = ground (arith, copy_within xs room)

copy_whole : (i : List ℕ) (room : ℕ) → (copy i room).status ≡ ok → (copy i room).used ≡ length i
copy_whole [] room h = refl
copy_whole (x ∷ xs) zero h = cc
copy_whole (x ∷ xs) (suc room) h = ground (arith, copy_whole xs room)

copy_invalid :
    (i : List ℕ) (room : ℕ) → (copy i room).status ≡ eilseq → (copy i room).used < length i
copy_invalid [] room h = cc
copy_invalid (x ∷ xs) zero h = cc
copy_invalid (x ∷ xs) (suc room) h = ground (arith, copy_invalid xs room)

ascii-IsIconv : IsIconv ascii
ascii-IsIconv = record {
  within = λ s. copy_within;
  whole = λ s. copy_whole;
  invalid = λ s. copy_invalid;
}

-- "ab" and "cd" with an invalid octet between them: a NUL comes out.
lost_mark :
    iconv_convert 16 (some ascii) (0x61 ∷ 0x62 ∷ 0xFF ∷ 0x63 ∷ 0x64 ∷ [])
    ≡ done (converted (0x61 ∷ 0x62 ∷ 0x00 ∷ 0x63 ∷ 0x64 ∷ []))
unfolding iconv_convert convert_loop store slice
lost_mark = refl

-- An invalid octet at the very beginning is marked.
first_mark : iconv_convert 16 (some ascii) (0xFF ∷ 0x63 ∷ []) ≡ done (converted (b'?' ∷ 0x63 ∷ []))
unfolding iconv_convert convert_loop store slice
first_mark = refl

iconv_convert_returns_example :
    iconv_convert 16 (some ascii) (0x61 ∷ 0xFF ∷ 0x62 ∷ []) ≢ out_of_fuel
iconv_convert_returns_example =
    iconv_convert_returns 16 ascii (0x61 ∷ 0xFF ∷ 0x62 ∷ []) ascii-IsIconv

iconv_convert-clean_example :
    iconv_convert 16 (some ascii) (0x61 ∷ 0x62 ∷ []) ≡ done (converted (0x61 ∷ 0x62 ∷ []))
iconv_convert-clean_example =
    iconv_convert-clean 16 ascii (0x61 ∷ 0x62 ∷ []) ascii-IsIconv (omega arith) refl

iconv_convert_loses_mark_example :
    iconv_convert 16 (some ascii) (0x61 ∷ 0x62 ∷ 0xFF ∷ 0x63 ∷ 0x64 ∷ [])
    ≡ done (converted (0x61 ∷ 0x62 ∷ 0x00 ∷ 0x63 ∷ 0x64 ∷ []))
iconv_convert_loses_mark_example =
    iconv_convert_loses_mark 16 ascii (0x61 ∷ 0x62 ∷ 0xFF ∷ 0x63 ∷ 0x64 ∷ []) ascii-IsIconv
      (omega arith) refl (omega arith) (omega arith) (omega arith) refl

-- In the second half of the buffer the mark is stored behind the buffer's end.
ascii_overruns : iconv_convert 3 (some ascii) (0x61 ∷ 0x62 ∷ 0xFF ∷ []) ≡ overrun
unfolding iconv_convert convert_loop
ascii_overruns = refl
