-- ===== src/Fich/Tables.antt =====
-- ysf_fich.c: its tables.
pub mod Encoding
pub mod Decoding
pub mod Small
