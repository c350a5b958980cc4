-- ===== src/Servers.antt =====
-- servercc/servers: the table of handlers, the requests of each transport, and the server loops.
pub mod Registry
pub mod TcpRequest
pub mod UdpRequest
pub mod TcpServer
pub mod UdpServer
pub mod Binding
pub mod Preservation
