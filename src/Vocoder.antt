-- ===== src/Vocoder.antt =====
-- vocoder_remote.c: the client of the speech codec server.
pub mod State
pub mod Frame
pub mod Exchange
pub mod Speech
pub mod Waits
pub mod Bounded
pub mod Transcode
mod Tests
