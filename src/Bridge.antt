-- ===== src/Bridge.antt =====
-- bridge.c: the YSF <-> DMR voice bridge.
pub mod Time
pub mod State
pub mod Dmrd
pub mod Send
pub mod ConnectPtt
pub mod Wire
pub mod Call
pub mod Ysf
mod Tests
mod CallTests
