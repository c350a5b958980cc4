-- ===== src/Clients.antt =====
-- servercc/clients: the clients of each transport.
pub mod TcpClient
pub mod MulticastClient
