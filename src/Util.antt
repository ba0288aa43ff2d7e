-- ===== src/Util.antt =====
-- src/util.c and include/DS-Lab-Assignment/util.h: constants, structs and byte I/O.
pub mod Codes
pub mod Check
pub mod Types
pub mod ReadLine
pub mod Transfer
pub mod Decimal
pub mod StrToNum
