-- ===== src/Unicode.antt =====
-- inc/ge/text/UnicodeUtil.h and src/ge/text/UnicodeUtil.cpp: code points, UTF-8, UTF-16, and the
-- conversions between them. Each child defines one group of the functions, and its own children
-- hold the proofs.
pub mod Memory
pub mod CodePoint
pub mod Utf8
pub mod Utf16
pub mod Convert
pub mod Scan
pub mod Validate
