-- ===== src/Gsm7/Tests.antt =====
-- Tests of iconv/gsm7.c on small inputs, and its theorems at inputs that meet their hypotheses.
use libsmpp.Prelude.{
  ℕ, ◌≡◌, ◌↔◌, refl, List, [], ◌∷◌, some, none, false, arith, length, ◌-◌, ◌/◌, ◌+◌, ◌*◌,
}
use libsmpp.Gsm7.ToSeptets.{
  stored, ret_iluni, ret_toosmall, gsm7_wctomb, wctomb_page_0, wctomb_page_3, wctomb_page_20,
  is_same_code, switch, emit, emit_case,
}
use libsmpp.Gsm7.FromSeptets.{read, ret_toofew, gsm7_mbtowc, find_escape, escape_result, to_unicode}
use libsmpp.Gsm7.Packing.{packed_octet, pack_loop, gsm7_encode, Packed}
use libsmpp.Gsm7.PackedValue.{number, IsSeptets, gsm7_encode-number}
use libsmpp.Gsm7.PackedSize.{Outcome, gsm7_encode-size}
use libsmpp.Gsm7.Alphabet.{is_forgotten, gsm7_wctomb-mbtowc}
use libsmpp.Gsm7.Written.{
  is_one_way, labelled, gsm7_wctomb-IsSeptets, gsm7_mbtowc-wctomb, gsm7_wctomb_truncates,
}

-- "hello", packed into five octets of a buffer of six.
abbrev hello : List ℕ
hello = 0x68 ∷ 0x65 ∷ 0x6c ∷ 0x6c ∷ 0x6f ∷ []

abbrev packed_hello : Packed
packed_hello = record { count = 5; ret = 0xe8 ∷ 0x32 ∷ 0x9b ∷ 0xfd ∷ 0x06 ∷ 0x00 ∷ [] }

pack_hello : gsm7_encode hello 6 ≡ some packed_hello
unfolding gsm7_encode pack_loop packed_octet
pack_hello = refl

pack_no_room : gsm7_encode hello 4 ≡ none
unfolding gsm7_encode pack_loop packed_octet
pack_no_room = refl

gsm7_encode-number_example : number 256 packed_hello.ret ≡ number 128 hello
gsm7_encode-number_example = gsm7_encode-number hello 6 packed_hello (omega arith) pack_hello

gsm7_encode-size_example : Outcome 6 (length hello - length hello / 8) (gsm7_encode hello 6)
gsm7_encode-size_example = gsm7_encode-size hello 6

read_euro : gsm7_mbtowc (0x1B ∷ 0x65 ∷ 0x41 ∷ []) 3 ≡ read 2 0x20AC
unfolding gsm7_mbtowc find_escape escape_result to_unicode
read_euro = refl

read_half_escape : gsm7_mbtowc (0x1B ∷ []) 1 ≡ ret_toofew
unfolding gsm7_mbtowc find_escape escape_result to_unicode
read_half_escape = refl

write_euro : gsm7_wctomb 0x20AC 2 ≡ stored (0x1B ∷ 0x65 ∷ [])
unfolding gsm7_wctomb wctomb_page_20 emit
write_euro = refl

write_euro_small : gsm7_wctomb 0x20AC 1 ≡ ret_toosmall
unfolding gsm7_wctomb wctomb_page_20 emit
write_euro_small = refl

-- U+00A1 is septet 0x40, and cannot be written.
write_inverted_exclamation : gsm7_wctomb 0xA1 2 ≡ ret_iluni
unfolding gsm7_wctomb wctomb_page_0 is_same_code switch emit_case
write_inverted_exclamation = refl

write_sigma : gsm7_wctomb 0x3A3 1 ≡ stored (0x18 ∷ [])
unfolding gsm7_wctomb wctomb_page_3 switch emit_case emit
write_sigma = refl

gsm7_wctomb-mbtowc_example :
    (gsm7_wctomb 0x20AC 2 ≡ stored (0x1B ∷ 0x65 ∷ [])) ↔ (is_forgotten 0x20AC ≡ false)
gsm7_wctomb-mbtowc_example =
    gsm7_wctomb-mbtowc (0x1B ∷ 0x65 ∷ 0x41 ∷ []) 3 2 0x20AC (omega arith) (omega arith) read_euro

write_euro-IsSeptets : IsSeptets (0x1B ∷ 0x65 ∷ [])
write_euro-IsSeptets = gsm7_wctomb-IsSeptets 0x20AC 2 (0x1B ∷ 0x65 ∷ []) write_euro

sigma_two_way : is_one_way 0x3A3 ≡ false
unfolding is_one_way labelled
sigma_two_way = refl

gsm7_mbtowc-wctomb_example : gsm7_mbtowc (0x18 ∷ []) 1 ≡ read 1 0x3A3
gsm7_mbtowc-wctomb_example = gsm7_mbtowc-wctomb 0x3A3 1 (0x18 ∷ []) write_sigma sigma_two_way

gsm7_wctomb_truncates_example : gsm7_wctomb (0x41 + 65536 * 1) 2 ≡ gsm7_wctomb 0x41 2
gsm7_wctomb_truncates_example = gsm7_wctomb_truncates 0x41 1 2
