-- ===== src/PeerDmr.antt =====
-- peer_dmr.c: the client of a DMR master in the Homebrew protocol.
pub mod Wire
pub mod State
pub mod Login
pub mod Session
pub mod Handshake
pub mod Complete
pub mod Keepalive
pub mod Layout
mod Tests
