-- ===== src/Bridge/Ysf.antt =====
-- bridge.c: a YSF call, as far as the codec converter, and the frames that are sent to YSF.
pub mod Talker
pub mod Receive
pub mod Send
pub mod Relay
pub mod Rooms
pub mod Start
pub mod Heard
mod Tests
