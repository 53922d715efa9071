-- ===== src/Converter.antt =====
-- converter.cpp: texts between UTF-8, the GSM alphabet and the charsets of iconv.
pub mod Utf8
pub mod Text
pub mod Iconv
pub mod Charset
mod Tests
