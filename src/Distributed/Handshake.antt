-- ===== src/Distributed/Handshake.antt =====
-- servercc/distributed/src/distributed_server.cc: `handleConnect` and `handleConnectAck`.
use servercc.Common.{
  ℕ, not, ◌||◌, [], ◌∷◌, String, none, some, Outcome, done, undefined, ◌>>=◌, ◌==◌, if◌then◌else◌,
}
use servercc.Types.Status.{Status, ok_status, error, is_ok, with_context, internal}
use servercc.Types.Protocols.{connect_ack_request_protocol, connect_ack_response_protocol}
use servercc.Types.Memory.{copy_from, word16_of_bytes}
use servercc.Clients.TcpClient
use servercc.Clients.TcpClient.{Client, new_client, connected_client}
use servercc.Servers.TcpRequest
use servercc.Servers.TcpRequest.{TcpRequest}
use servercc.Servers.UdpRequest
use servercc.Servers.UdpRequest.{UdpRequest}
use servercc.Connectors.Env.{Env, ChannelConfig}
use servercc.Connectors.Connector.{add_client}
use servercc.Distributed.{
  DistributedServer, with_world, ack_message, peer_error, same_text, ntohs, call_connected, abandon,
}

module _ {H : Type 0} (config : ChannelConfig) (env : Env) (inet_ntop : ℕ → String) where
  -- The client has been moved into the connector, so reading its descriptor is a null access.
  unfoldable pub add_peer :
      ℕ → Client → DistributedServer H env → Outcome (Status × DistributedServer H env)
  add_peer ip client n = do
    (status, connector) ← add_client config env client n.connector
    if not (is_ok status)
        then undefined
        else done (ok_status, call_connected ip (record n { connector = connector }))

  unfoldable pub await_ack :
      ℕ → Client → DistributedServer H env → Outcome (Status × DistributedServer H env)
  await_ack ip client n =
      let (status, response, w) = TcpClient.receive_message env.posix client n.connector.world in
      let refused = done (
        peer_error "Failed to receive connect end from peer server" (inet_ntop ip) status,
        with_world (abandon env client w) n,
      ) in
      if not (is_ok status) then refused else elim response [
        | none ↦ undefined
        | some m ↦
            if not (m.header.protocol == connect_ack_response_protocol)
            then refused
            else add_peer ip client (with_world w n)
      ]

  unfoldable pub send_ack :
      ℕ → Client → DistributedServer H env → Outcome (Status × DistributedServer H env)
  send_ack ip client n = do
    (sent, w) ←
        TcpClient.send_message env.posix (ack_message connect_ack_request_protocol) client
          n.connector.world
    if not (is_ok sent)
        then done (
          peer_error "Failed to send connectAck to peer server" (inet_ntop ip) sent,
          with_world (abandon env client w) n,
        )
        else await_ack ip client (with_world w n)

  -- The part of `handleConnect` from the TCP client on.
  unfoldable pub connect_to_peer :
      ℕ → ℕ → DistributedServer H env → Outcome (Status × DistributedServer H env)
  connect_to_peer ip port n = do
    (status, client, w) ←
        TcpClient.open_socket env.posix (new_client (inet_ntop ip) port) n.connector.world
    if not (is_ok status)
        then done (
          peer_error "Failed to open socket to peer server" (inet_ntop ip) status,
          with_world (abandon env client w) n,
        )
        else send_ack ip client (with_world w n)

  unfoldable pub connect_unless_known :
      ℕ → ℕ → DistributedServer H env → Outcome (Status × DistributedServer H env)
  connect_unless_known ip port n = elim n.interfaces [
    | [] ↦ undefined
    | first ∷ rest ↦
        if same_text first (inet_ntop ip) || n.peers ip
        then done (ok_status, n)
        else connect_to_peer ip port n
  ]

  -- `handleConnect`, a handler of the UDP server.
  unfoldable pub handle_connect :
      UdpRequest → DistributedServer H env → Outcome (Status × DistributedServer H env)
  unfolding connect_unless_known connect_to_peer await_ack add_peer
  handle_connect request n =
      let (status, message, request') = UdpRequest.receive_message request in
      if not (is_ok status)
      then done (with_context "Failed to receive connect request" status, n)
      else elim message [
        | none ↦ undefined
        | some m ↦
            if not (m.header.length == 2)
            then done (error internal "Invalid connect request length", n)
            else do
              bytes ← copy_from m.body 0 2
              connect_unless_known request.client_addr.address (word16_of_bytes bytes) n
      ]

  -- The connection becomes a client; where it is refused it is closed, after the refused client has
  -- closed it too.
  unfoldable pub adopt :
      TcpRequest → DistributedServer H env → Outcome (Status × DistributedServer H env)
  adopt request n = do
    let (fd, kept) = TcpRequest.set_keep_alive request
    let ip = request.client_addr.address
    (status, connector) ←
        add_client config env
          (connected_client fd (inet_ntop ip) (ntohs request.client_addr.port) request.client_addr)
          n.connector
    let n' = record n { connector = connector }
    if not (is_ok status)
        then done (
          status,
          with_world (TcpRequest.destroy_request env.posix kept (env.close fd connector.world)) n',
        )
        else done (
          ok_status,
          call_connected ip
              (with_world (TcpRequest.destroy_request env.posix kept connector.world) n'),
        )

  -- `handleConnectAck`, a handler of the TCP server, whose requests are all of the class that the
  -- cast asks for. The request is destroyed where the function returns early.
  unfoldable pub handle_connect_ack :
      TcpRequest → DistributedServer H env → Outcome (Status × DistributedServer H env)
  unfolding adopt
  handle_connect_ack request n =
      let (status, message, request', w) =
        TcpRequest.receive_message env.posix request n.connector.world in
      let (sent, w') =
        TcpRequest.send_message env.posix (ack_message connect_ack_response_protocol) request' w in
      if not (is_ok status)
      then done (
        with_context "Failed to receive connectAck request" status,
        with_world (TcpRequest.destroy_request env.posix request' w) n,
      )
      else if not (is_ok sent)
      then done (
        with_context "Failed to send connectAck to peer server" sent,
        with_world (TcpRequest.destroy_request env.posix request' w') n,
      )
      else adopt request' (with_world w' n)
