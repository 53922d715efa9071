-- ===== src/Gsm7.antt =====
-- iconv/gsm7.c: the GSM 7-bit alphabet, character by character, and its packing into octets.
pub mod Table
pub mod ToSeptets
pub mod FromSeptets
pub mod Packing
pub mod PackedValue
pub mod PackedSize
pub mod Alphabet
pub mod Written
mod Tests
