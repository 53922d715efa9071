-- ===== src/Converter/Charset.antt =====
-- The choice of a charset and of a path of conversion: `CConverter` of converter.cpp.
use Prim.Native.String.{String}
use text.Mathlib.Text.{◌==◌ as str_eq}
use libsmpp.Prelude.{ℕ, ◌%◌, List, ◌||◌, ◌==◌, if◌then◌else◌}
use libsmpp.Converter.Iconv.{Converted, converted, failed}
use libsmpp.Converter.Text.{gsm7_to_utf8, utf8_to_gsm7}

-- `GetCharsetFromDataCoding`: a switch on the low four bits.
unfoldable pub get_charset_from_data_coding : ℕ → String
get_charset_from_data_coding data_coding =
    let n = data_coding % 16 in
    if n == 0x00
    then "GSM7"
    else (if n == 0x0B
        then "UTF-8"
        else (if n == 0x01
            then "ANSI_X3.4-1986"
            else (if n == 0x02 || n == 0x04
                then "GSM7"
                else (if n == 0x03
                    then "ISO-8859-1"
                    else (if n == 0x05 || n == 0x0D
                        then "EUC-JP"
                        else (if n == 0x06
                            then "iso-8859-5"
                            else (if n == 0x07
                                then "iso8859-8"
                                else (if n == 0x08
                                    then "UCS-2"
                                    else (if n == 0x09
                                        then "GSM7"
                                        else (if n == 0x0A
                                            then "ISO-2022-JP"
                                            else (if n == 0x0E
                                                then "ks_c_5601-1987"
                                                else "GSM7")))))))))))

-- `ConvertInternal`. `convert from to` is `iconv_wrapper(from, to).convert`; the text is the `dest`
-- of a call that returns 0.
unfoldable pub convert_internal :
    (String → String → List ℕ → Converted) → String → String → List ℕ → Converted
convert_internal convert charset_from charset_to src =
    if str_eq charset_from "GSM7" || str_eq charset_to "GSM7"
    then (if str_eq charset_from "GSM7"
        then (if str_eq charset_to "UTF-8"
            then converted (gsm7_to_utf8 src)
            else convert "UTF-8" charset_to (gsm7_to_utf8 src))
        else elim (convert charset_from "UTF-8" src) [
          | converted tmp ↦ converted (utf8_to_gsm7 tmp)
          | failed res ↦ failed res
        ])
    else convert charset_from charset_to src
