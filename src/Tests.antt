-- ===== src/Tests.antt =====
-- The theorems at concrete inputs, where their hypotheses hold.
mod Types
mod Servers
mod Demos
mod Clients
mod Managers
mod Connectors
mod Conversation
mod Distributed
mod Link
mod Node
