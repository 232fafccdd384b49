-- ===== src/Hbp.antt =====
-- hbp/dmr_hbp.c: how the 33-byte DMR bursts are built.
pub mod Tables
pub mod Bits
pub mod Bptc
pub mod Header
pub mod Embedded
pub mod Sha256
mod Tests
