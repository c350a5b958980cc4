-- ===== src/Distributed/Node.antt =====
-- servercc/distributed/src/distributed_server.cc: the constructor with the two servers, and what the
-- threads of a distributed server do.
pub mod Registration
pub mod Soundness
pub mod Acknowledging
pub mod Reading
pub mod Handling
pub mod Reach
use servercc.Common.{
  ℕ, ℤ, Bool, not, List, String, Option, none, some, Outcome, done, thrown, ◌>>=◌, if◌then◌else◌,
}
use servercc.Types.Status.{Status, is_ok}
use servercc.Types.Protocols.{connect_request_protocol, connect_ack_request_protocol}
use servercc.Types.Message.{Message}
use servercc.Types.Posix.{Posix, SockAddr}
use servercc.Servers.Registry
use servercc.Servers.Registry.{Handler, Server}
use servercc.Servers.TcpRequest
use servercc.Servers.TcpRequest.{TcpRequest}
use servercc.Servers.UdpRequest
use servercc.Servers.UdpRequest.{UdpRequest}
use servercc.Servers.TcpServer.{tcp_round}
use servercc.Servers.UdpServer.{udp_round}
use servercc.Servers.Binding.{new_tcp_server, new_udp_server}
use servercc.Connectors.Env.{Env, ChannelConfig}
use servercc.Connectors.InternalRequest.{InternalRequest}
use servercc.Distributed.{
  DistributedServer, with_world, new_distributed_server, forwarded_handler, peer_round,
}
use servercc.Distributed.Handshake.{handle_connect, handle_connect_ack}

-- A `Request` of one of its three classes.
pub data AnyRequest : Type 0 where
  of_tcp : TcpRequest → AnyRequest
  of_udp : UdpRequest → AnyRequest
  of_connector : InternalRequest → AnyRequest

-- `request->getProtocol()`
abbrev pub protocol_of : AnyRequest → ℕ
protocol_of (of_tcp r) = r.protocol
protocol_of (of_udp r) = r.protocol
protocol_of (of_connector r) = r.protocol

-- The system calls of the servers' threads, in the world that the members share.
abbrev pub node_posix : Type 0 → Env → Posix
node_posix H env = record {
  World = DistributedServer H env;
  send = λ fd bytes n. let (r, w) = env.send fd bytes n.connector.world in (r, with_world w n);
  recv = λ fd size n.
      let (r, bytes, w) = env.recv fd size n.connector.world in (r, bytes, with_world w n);
  getaddrinfo = λ host port kind n.
      let (r, first, rest, w) = env.getaddrinfo host port kind n.connector.world in
      (r, first, rest, with_world w n);
  socket = λ family kind protocol n.
      let (fd, w) = env.socket family kind protocol n.connector.world in (fd, with_world w n);
  setsockopt =
      λ fd option n. let (r, w) = env.setsockopt fd option n.connector.world in (r, with_world w n);
  bind = λ fd addr n. let (r, w) = env.bind fd addr n.connector.world in (r, with_world w n);
  listen = λ fd size n. let (r, w) = env.listen fd size n.connector.world in (r, with_world w n);
  connect = λ fd addr n. let (r, w) = env.connect fd addr n.connector.world in (r, with_world w n);
  read_freed = λ info n. env.read_freed info n.connector.world;
  sendto = λ fd bytes addr n.
      let (r, w) = env.sendto fd bytes addr n.connector.world in (r, with_world w n);
  recvfrom = λ fd size n.
      let (r, bytes, addr, w) = env.recvfrom fd size n.connector.world in
      (r, bytes, addr, with_world w n);
  accept = λ fd n. let (r, addr, w) = env.accept fd n.connector.world in (r, addr, with_world w n);
  fsync = λ fd n. with_world (env.fsync fd n.connector.world) n;
  close = λ fd n. with_world (env.close fd n.connector.world) n;
}

-- The members of the two server threads, and those that all threads share.
pub record Node (H : Type 0) (env : Env) : Type 0 where
  pub tcp_server : Server TcpRequest (DistributedServer H env)
  pub udp_server : Server UdpRequest (DistributedServer H env)
  pub shared : DistributedServer H env

-- What a handler of the user does with a request and the server, to which it has a reference.
abbrev pub UserCode : Type 0 → Env → Type 0
UserCode H env =
    H → AnyRequest → DistributedServer H env → Outcome (Status × DistributedServer H env)

module _ {H : Type 0} (config : ChannelConfig) (env : Env) (inet_ntop : ℕ → String)
    (user : UserCode H env) where
  unfoldable pub forward_request_to_handler :
      AnyRequest → DistributedServer H env → Outcome (Status × DistributedServer H env)
  forward_request_to_handler request n = elim (forwarded_handler (protocol_of request) n) [
    | none ↦ thrown
    | some handler ↦ user handler request n
  ]

  abbrev pub connect_ack_handler :
      TcpRequest → DistributedServer H env → Outcome (Status × DistributedServer H env)
  connect_ack_handler = handle_connect_ack config env inet_ntop

  -- The handlers are added to the servers. A refusal ends the process, which is told as a throw.
  unfoldable pub register_handlers :
      Server TcpRequest (DistributedServer H env)
      → Server UdpRequest (DistributedServer H env)
      → DistributedServer H env
      → Outcome (Node H env)
  register_handlers tcp udp n =
      let (added, udp') =
        Registry.add_handler connect_request_protocol (some (handle_connect config env inet_ntop))
          udp in
      let (added', tcp') =
        Registry.add_handler connect_ack_request_protocol (some connect_ack_handler) tcp in
      if not (is_ok added)
      then thrown
      else if not (is_ok added')
      then thrown
      else done (record { tcp_server = tcp'; udp_server = udp'; shared = n })

  -- `DistributedServer::DistributedServer`. The TCP server is declared, and made, first; the group
  -- is given as a text and as what `inet_pton` makes of it. The default handler that is passed is
  -- not used: `initialised` is what the initialisation of the member from itself comes to, which
  -- the standard leaves undefined, and which finds an empty function in libstdc++.
  unfoldable pub new_node :
      String
      → String
      → SockAddr
      → List String
      → ℕ
      → H
      → Outcome (Option H)
      → Bool
      → Bool
      → env.World
      → Outcome (Node H env)
  unfolding register_handlers
  new_node interface group group_addr interfaces port default_handler initialised connects
        disconnects w =
      let n0 =
        new_distributed_server interface group_addr interfaces port none connects disconnects w in
      let (tcp, n1) =
        new_tcp_server (node_posix H env) port
          (some (λ request. forward_request_to_handler (of_tcp request))) n0 in
      elim tcp [
        | none ↦ thrown
        | some tcp_server ↦
            let (udp, n2) =
              new_udp_server (node_posix H env) port group interfaces
                (some (λ request. forward_request_to_handler (of_udp request))) n1 in
            elim udp [
              | none ↦ thrown
              | some udp_server ↦ initialised >>= λ found.
                  register_handlers tcp_server udp_server (record n2 { default_handler = found })
            ]
      ]

  -- A round of `runTcpServer`'s thread, of `runUdpServer`'s, and of a peer's reader.
  unfoldable pub tcp_thread : Node H env → Outcome (Node H env)
  tcp_thread node = do
    (server, n) ← tcp_round (node_posix H env) node.tcp_server node.shared
    done (record node { tcp_server = server; shared = n })

  unfoldable pub udp_thread : Node H env → Outcome (Node H env)
  udp_thread node = do
    (server, n) ← udp_round (node_posix H env) node.udp_server node.shared
    done (record node { udp_server = server; shared = n })

  unfoldable pub peer_thread : ℕ → Node H env → Outcome (Node H env)
  peer_thread ip node = do
    (goes_on, n) ← peer_round config env inet_ntop ip node.shared
    done (record node { shared = n })

  -- A thread that the connector started for a request of a peer.
  unfoldable pub handler_thread : InternalRequest → Node H env → Outcome (Node H env)
  unfolding forward_request_to_handler
  handler_thread request node = do
    (status, n) ← forward_request_to_handler (of_connector request) node.shared
    done (record node { shared = n })
