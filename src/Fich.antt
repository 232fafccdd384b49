-- ===== src/Fich.antt =====
-- ysf_fich.c: the frame information channel of a YSF frame.
pub mod Tables
pub mod Golay
pub mod Bits
pub mod Convolution
pub mod Frame
pub mod Fields
pub mod Activation
