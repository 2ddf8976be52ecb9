-- ===== src/Ipc.antt =====
-- rust/core/src/ipc.rs: the Unix-socket server between the platform UI and the engine.
pub mod Messages
pub mod Token
pub mod Client
pub mod Framing
pub mod Auth
pub mod Replies
pub mod Server
pub mod Sessions
