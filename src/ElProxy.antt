-- ===== src/ElProxy.antt =====
-- el_proxy.c: the client of an EchoLink proxy.
pub mod State
pub mod Receive
pub mod Send
pub mod Channel
pub mod Connect
pub mod Frames
pub mod Stream
pub mod Sent
pub mod Directory
pub mod Room
pub mod Tests
