-- ===== src/Types.antt =====
-- servercc/types: messages, their memory images and their transfer over sockets.
pub mod Status
pub mod Protocols
pub mod Memory
pub mod Header
pub mod Message
pub mod Posix
pub mod Stream
