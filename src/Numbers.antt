-- ===== src/Numbers.antt =====
-- src/ge/util: numbers as text in both directions (UInt32, UInt64, UInt16, UInt8) and the bit
-- counts, with the tables of src/ge/util/UtilData.cpp.
pub mod Tables
pub mod Parse
pub mod Signed
pub mod Print
pub mod Counts
pub mod Powers
