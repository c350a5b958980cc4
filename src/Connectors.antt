-- ===== src/Connectors.antt =====
-- servercc/connectors: channels multiplexed over one connection.
pub mod Env
pub mod Channel
pub mod Manager
pub mod InternalRequest
pub mod Connector
pub mod Conversation
pub mod Pool
pub mod Link
