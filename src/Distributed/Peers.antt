-- ===== src/Distributed/Peers.antt =====
-- Connecting to a peer: `handleConnect`.
use servercc.Common.{
  ℕ, ◌^◌, ◌<◌, ◌≡◌, ◌⊎◌, inl, inr, refl, ap, ◌∙◌, true, false, List, ◌∷◌, String, none, some, done,
  undefined, arith, is_some, if◌then◌else◌,
}
use servercc.Types.Status.{Status, ok_status, is_ok}
use servercc.Types.Protocols.{connect_ack_request_protocol, connect_ack_response_protocol}
use servercc.Types.Memory.{copy_from, word16_of_bytes-word16_bytes}
use servercc.Types.Message.{Message}
use servercc.Types.Posix.{SockAddr}
use servercc.Servers.UdpRequest
use servercc.Servers.UdpRequest.{UdpRequest, new_udp_request}
use servercc.Clients.TcpClient
use servercc.Clients.TcpClient.{
  Client, new_client, connected_client, open_socket, close_socket, get_client_in_addr,
}
use servercc.Connectors.Env.{Env, ChannelConfig}
use servercc.Connectors.Manager.{State}
use servercc.Connectors.Manager.Invariant.{IsValid}
use servercc.Connectors.Connector.Clients.{add_client-registers}
use servercc.Distributed.{
  DistributedServer, with_world, connect_message, ack_message, same_text, call_connected,
}
use servercc.Distributed.Handshake.{
  add_peer, await_ack, send_ack, connect_to_peer, connect_unless_known, handle_connect,
}

module _ (env : Env) where
  is_socket_open-open_socket :
      (c c' : Client) (w w' : env.World) (status : Status)
      → open_socket env.posix c w ≡ done (status, c', w')
      → is_ok status ≡ true
      → c'.is_socket_open ≡ true
  unfolding open_socket
  is_socket_open-open_socket c c' w w' status opens ok = ground (arith, opens, ok)

  -- Opening a client that is open does nothing.
  open_socket-again :
      (c c' : Client) (w w' v : env.World)
      → open_socket env.posix c w ≡ done (ok_status, c', w')
      → open_socket env.posix c' v ≡ done (ok_status, c', v)
  unfolding open_socket
  open_socket-again c c' w w' v opens =
      ground (arith, is_socket_open-open_socket c c' w w' ok_status opens refl)

module _ {H : Type 0} (config : ChannelConfig) (env : Env) (inet_ntop : ℕ → String) where
  -- A connect message names the sender's port, and the address that it came from.
  handle_connect-connect_message :
      (a n : DistributedServer H env) (addr : SockAddr)
      → a.port < 2 ^ 16
      → handle_connect config env inet_ntop (new_udp_request addr (connect_message a)) n
        ≡ connect_unless_known config env inet_ntop addr.address a.port n
  unfolding handle_connect copy_from new_udp_request UdpRequest.receive_message
  handle_connect-connect_message a n addr fits =
      ap (λ port. connect_unless_known config env inet_ntop addr.address port n)
        (word16_of_bytes-word16_bytes a.port fits)

  handshake-add_peer :
      (ip port : ℕ) (client : Client) (m : Message) (w1 w2 w3 : env.World)
      (n : DistributedServer H env)
      → open_socket env.posix (new_client (inet_ntop ip) port) n.connector.world
        ≡ done (ok_status, client, w1)
      → TcpClient.send_message env.posix (ack_message connect_ack_request_protocol) client w1
        ≡ done (ok_status, w2)
      → TcpClient.receive_message env.posix client w2 ≡ (ok_status, some m, w3)
      → m.header.protocol ≡ connect_ack_response_protocol
      → connect_to_peer config env inet_ntop ip port n
        ≡ add_peer config env inet_ntop ip client (with_world w3 n)
  unfolding connect_to_peer send_ack await_ack
  handshake-add_peer ip port client m w1 w2 w3 n opens sends receives ack =
      ground (arith, opens, sends, receives)

  -- A server gets a connect message from another, whose address is neither its first interface
  -- nor among the peers; it opens a connection to the other's address and port, sends an
  -- acknowledgement and receives one. If the connector has a client at the connection's address
  -- already, what follows is an access through a null pointer. Otherwise the connection becomes
  -- the client at that address, with a valid manager and a reader, the connect callback is called
  -- where there is one, and the peers stay as they were: the new one is not among them.
  pub handle_connect-connects :
      (a n : DistributedServer H env) (addr : SockAddr) (first : String) (rest : List String)
      (client : Client) (m : Message) (w1 w2 w3 : env.World)
      → a.port < 2 ^ 16
      → n.interfaces ≡ first ∷ rest
      → same_text first (inet_ntop addr.address) ≡ false
      → n.peers addr.address ≡ false
      → open_socket env.posix (new_client (inet_ntop addr.address) a.port) n.connector.world
        ≡ done (ok_status, client, w1)
      → TcpClient.send_message env.posix (ack_message connect_ack_request_protocol) client w1
        ≡ done (ok_status, w2)
      → TcpClient.receive_message env.posix client w2 ≡ (ok_status, some m, w3)
      → m.header.protocol ≡ connect_ack_response_protocol
      → (is_some (n.connector.clients (get_client_in_addr client)) ≡ true
          × (handle_connect config env inet_ntop (new_udp_request addr (connect_message a)) n
              ≡ undefined))
        ⊎ ((n' : DistributedServer H env) × (manager : State env) × (n.connector.clients
                (get_client_in_addr client)
              ≡ none)
            × (handle_connect config env inet_ntop (new_udp_request addr (connect_message a)) n
                ≡ done (ok_status, n'))
            × (n'.connector.clients (get_client_in_addr client)
                ≡ some (record { client = client; channel_manager = manager }))
            × IsValid config env manager
            × (n'.connector.reading (get_client_in_addr client) ≡ true)
            × (n'.connected
                ≡ (if n.has_connect_callback then addr.address ∷ n.connected else n.connected))
            × (n'.peers ≡ n.peers))
  unfolding connect_unless_known add_peer
  handle_connect-connects a n addr first rest client m w1 w2 w3 fits listed apart unknown opens
        sends receives ack =
      let start : handle_connect config env inet_ntop (new_udp_request addr (connect_message a)) n
          ≡ add_peer config env inet_ntop addr.address client (with_world w3 n) =
        handle_connect-connect_message a n addr fits
        ∙ ground (
          arith,
          listed,
          apart,
          unknown,
          handshake-add_peer addr.address a.port client m w1 w2 w3 n opens sends receives ack,
        ) in
      elim (add_client-registers config env client client w3 (with_world w3 n).connector (
        open_socket-again env (new_client (inet_ntop addr.address) a.port) client n.connector.world
          w1 w3 opens)) [
            | inl (old, held, run) ↦ inl (ground arith, start ∙ ground (arith, run))
            | inr (k', manager, free, run, at, fd, valid, reads, same, others) ↦ inr (
              call_connected addr.address (record n { connector = k' }),
              manager,
              free,
              start ∙ ground (arith, run),
              at,
              valid,
              reads,
              refl,
              refl,
            )
          ]
