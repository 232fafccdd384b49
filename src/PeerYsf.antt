-- ===== src/PeerYsf.antt =====
-- peer_ysf.c: the client of a YSF reflector.
pub mod State
pub mod Link
pub mod Session
pub mod Reconnect
pub mod Tests
