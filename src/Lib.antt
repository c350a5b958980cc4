-- ===== src/Lib.antt =====
-- The verification of servercc, a C++ library of servers, clients and connectors that exchange
-- framed messages over sockets.
--
-- The parts. A message is a header of two 32-bit words and a body; it goes over a stream socket
-- as its header and then its body. Servers read a first message, choose a handler by its protocol
-- and give it a request. Clients hold one socket each. A connector holds one client per address,
-- and multiplexes channels over it: an internal channel manager gives identifiers to request
-- channels, makes a response channel for the first message of a request at the other end, and
-- passes each message that is read to its channel. A distributed server finds its peers by
-- multicast, and makes each a client of its connector by a handshake over TCP; its constructor
-- registers the two handlers of the handshake with its servers, and every other request goes to
-- the handlers of the user. A message of a channel is wrapped: the original header and the
-- channel's identifier are appended to its body.
--
-- Files and the code they model (paths from the repository's root, below servercc/):
--   Types/Protocols, Types/Header, Types/Message: types/include/protocols.h, message_header.h,
--     message.h. Types/Memory holds what memcpy and vector::resize do, with accesses out of
--     bounds as an outcome. `wrap_message` and `unwrap_message` are wrapMessage and unwrapMessage.
--   Types/Stream: types/src/message.cc, `read_message` and `write_message`.
--   Types/Status: the statuses, and ASSERT_OK of types/include/macros.h.
--   Types/Posix: the system calls, as parameters, and what is relied on of a connected stream and
--     of descriptors. Only the theorems that name these assumptions depend on them.
--   Servers/Registry: servers/include/server.h; Servers/TcpRequest, UdpRequest, TcpServer,
--     UdpServer: the files of these names in servers/src; the servers' constructors are in
--     Servers/Binding.
--   Clients/TcpClient, MulticastClient: clients/src and clients/include/client.h.
--   Connectors/Channel: connectors/include/internal_channel.h, Connectors/Manager:
--     internal_channel_manager.h, Connectors/InternalRequest: internal_request.h,
--     Connectors/Connector: connectors/src/connector.cc and include/connector.h.
--   Distributed, Distributed/Handshake: distributed/src/distributed_server.cc; inet_ntop is a
--     parameter. Distributed/Node is the same with its two servers: the constructor, and the
--     rounds of its threads.
--   Demos: the echo service of ../demos/distributed_demo.cc.
--   Common: names and lemmas that the rest shares. Fixtures and Tests: concrete networks, and the
--     theorems applied to them.
-- The modules below a component's hold its proofs. Connectors/Manager/Effect tells the calls of a
-- manager apart by what they change, Connectors/Pool is the abstract set of the identifiers that
-- are free, and Connectors/Conversation follows a request and its response from one end of a
-- connection to the other. Connectors/Link puts two managers at the ends of one connection: its
-- steps are the calls of their users and the receipts of their reader threads, in any order.
-- Distributed/Node/Reach does the same for the threads of a distributed server.
--
-- State and operations. An object is a record of its fields, an operation a function from the
-- object and the world, which is what the system calls act on, to its results. A run ends in an
-- `Outcome`: it is done, or undefined (an access out of bounds or through a null pointer), or
-- blocked, or has thrown. The channels of a manager stand in a heap, since the manager and the
-- requests share them; a reference is an index into it. Closing a channel calls the manager's
-- removal, which closes the channel again; these calls take a depth as fuel, and 3 is enough: a
-- removal, the close in it, and the removal that the close calls and that finds nothing. A loop
-- that does not end is the function of one round, and the loop that starts a distributed server
-- takes the number of its attempts as fuel.
--
-- Numbers. Words are stored least significant byte first. Sums of 32-bit words wrap where the
-- source's do, and comparisons are signed or unsigned as in the source.
--
-- Not modelled. Threads run whole operations one after the other: the mutexes are taken to do
-- what they are for, and interleavings inside an operation are left out. Logging is left out. The
-- message buffer of libcc and the system calls are parameters; a system call returns, and one that
-- blocks is not told apart. What a read of freed memory finds (in TcpClient::openSocket), and what
-- the default handler of a distributed server holds, whose member is initialised from itself, are
-- parameters too, and may be undefined. Statuses are a code and a message,
-- and maps are functions. The handlers of the user are a parameter of a distributed server, and its
-- two callbacks are recorded where they are called. A LOG(FATAL), which ends the process, is a
-- throw. Of the demonstration programs only the echo service is modelled; the others call the
-- library and print.
pub mod Common
pub mod Types
pub mod Servers
pub mod Clients
pub mod Connectors
pub mod Distributed
pub mod Demos
pub mod Fixtures
pub mod Tests
