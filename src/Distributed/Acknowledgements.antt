-- ===== src/Distributed/Acknowledgements.antt =====
-- The peers that acknowledge, and the peers that go: `handleConnectAck` and the disconnect callback.
use servercc.Common.{
  ℕ, ◌≡◌, ◌⊎◌, inl, inr, refl, ◌∙◌, ℤ, true, false, ◌∷◌, String, Option, none, some, done, arith,
  is_some, eq_self, if◌then◌else◌, is_minus_one,
}
use servercc.Types.Status.{Status, ok_status, error, is_ok, already_exists}
use servercc.Types.Protocols.{connect_ack_response_protocol}
use servercc.Types.Message.{Message}
use servercc.Types.Posix.{SockAddr}
use servercc.Types.Stream.{write_message}
use servercc.Servers.TcpRequest
use servercc.Servers.TcpRequest.{TcpRequest, new_tcp_request, set_keep_alive, destroy_request}
use servercc.Clients.TcpClient
use servercc.Clients.TcpClient.{
  Client, new_client, connected_client, open_socket, close_socket, get_client_in_addr,
}
use servercc.Connectors.Env.{Env, ChannelConfig}
use servercc.Connectors.Manager.{State}
use servercc.Connectors.Manager.Invariant.{IsValid}
use servercc.Connectors.Connector.{Connector, InternalClient, add_client}
use servercc.Connectors.Connector.Clients.{add_client-registers, read_round-disconnects}
use servercc.Distributed.{
  DistributedServer, Forwarding, with_world, ack_message, ntohs, call_connected, peer_round,
  on_connector_disconnect,
}
use servercc.Distributed.Handshake.{adopt, handle_connect_ack}

-- The client that an acknowledged connection becomes.
abbrev pub adopted : (ℕ → String) → ℤ → SockAddr → Client
adopted inet_ntop fd addr = record {
  server_address = inet_ntop addr.address;
  port = ntohs addr.port;
  client_fd = fd;
  is_socket_open = true;
  client_addr = addr;
}

opened-adopted :
    (env : Env) (inet_ntop : ℕ → String) (fd : ℤ) (addr : SockAddr) (w : env.World)
    → open_socket env.posix (adopted inet_ntop fd addr) w
      ≡ done (ok_status, adopted inet_ntop fd addr, w)
unfolding open_socket
opened-adopted env inet_ntop fd addr w = refl

module _ {H : Type 0} (config : ChannelConfig) (env : Env) (inet_ntop : ℕ → String) where
  adopt-add_client :
      (fd : ℤ) (addr : SockAddr) (m : Message) (status : Status) (k : Connector Forwarding env)
      (n : DistributedServer H env)
      → add_client config env (adopted inet_ntop fd addr) n.connector ≡ done (status, k)
      → adopt config env inet_ntop (record (new_tcp_request fd addr m) { message = none }) n
        ≡ done (
            if is_ok status
            then (ok_status, call_connected addr.address (record n { connector = k }))
            else (status, with_world (env.close fd k.world) (record n { connector = k })))
  unfolding adopt set_keep_alive destroy_request new_tcp_request connected_client
  adopt-add_client fd addr m status k n run = ground (arith, run)

  acknowledged-adopt :
      (fd : ℤ) (addr : SockAddr) (m : Message) (w : env.World) (n : DistributedServer H env)
      → write_message env.posix fd (ack_message connect_ack_response_protocol) n.connector.world
        ≡ (ok_status, w)
      → handle_connect_ack config env inet_ntop (new_tcp_request fd addr m) n
        ≡ adopt config env inet_ntop
            (record (new_tcp_request fd addr m) { message = none })
            (with_world w n)
  unfolding handle_connect_ack new_tcp_request TcpRequest.receive_message TcpRequest.send_message
  acknowledged-adopt fd addr m w n sends = ground (arith, sends)

  -- A new request on a descriptor, where the acknowledgement can be written to it, either comes
  -- from an address that has a client, and then an error is returned and the descriptor is closed
  -- twice, or becomes the client at its address, with its descriptor left open, a valid manager
  -- and a reader, and the connect callback is called where there is one.
  pub handle_connect_ack-adopts :
      (fd : ℤ) (addr : SockAddr) (m : Message) (w : env.World) (n : DistributedServer H env)
      → is_minus_one fd ≡ false
      → write_message env.posix fd (ack_message connect_ack_response_protocol) n.connector.world
        ≡ (ok_status, w)
      → (n' : DistributedServer H env) × ((is_some (n.connector.clients addr.address) ≡ true
            × (handle_connect_ack config env inet_ntop (new_tcp_request fd addr m) n
                ≡ done (error already_exists "Client already exists", n'))
            × (n'.connector.world ≡ env.close fd (env.close fd w)))
          ⊎ ((manager : State env) × (n.connector.clients addr.address ≡ none)
              × (handle_connect_ack config env inet_ntop (new_tcp_request fd addr m) n
                  ≡ done (ok_status, n'))
              × (n'.connector.clients addr.address
                  ≡ some (record { client = adopted inet_ntop fd addr; channel_manager = manager }))
              × IsValid config env manager
              × (n'.connector.reading addr.address ≡ true)
              × (n'.connector.world ≡ w)
              × (n'.connected
                  ≡ (if n.has_connect_callback then addr.address ∷ n.connected else n.connected))))
  unfolding get_client_in_addr close_socket
  handle_connect_ack-adopts fd addr m w n live sends =
      elim (add_client-registers config env (adopted inet_ntop fd addr) (adopted inet_ntop fd addr)
        w (with_world w n).connector (opened-adopted env inet_ntop fd addr w)) [
          | inl (old, held, run) ↦ (
            with_world (env.close fd (env.close fd w)) n,
            inl (
              ground arith,
              acknowledged-adopt fd addr m w n sends
                  ∙ adopt-add_client fd addr m _ _ (with_world w n) run
                  ∙ ground arith,
              refl,
            ),
          )
          | inr (k', manager, free, run, at, _, valid, reads, same, others) ↦ (
            call_connected addr.address (record n { connector = k' }),
            inr (
              manager,
              free,
              acknowledged-adopt fd addr m w n sends
                  ∙ adopt-add_client fd addr m ok_status k' (with_world w n) run,
              at,
              valid,
              reads,
              same,
              refl,
            ),
          )
        ]

  -- Where a read from a peer fails, and its manager is valid, the reader ends: the connector has no
  -- client at the address any more, the peers do not have it, and the disconnect callback is
  -- called once where there is one.
  pub peer_round-disconnects :
      (ip : ℕ) (c : InternalClient env) (status : Status) (message : Option Message) (w : env.World)
      (n : DistributedServer H env)
      → n.connector.clients ip ≡ some c
      → IsValid config env c.channel_manager
      → TcpClient.receive_message env.posix c.client n.connector.world ≡ (status, message, w)
      → is_ok status ≡ false
      → (n' : DistributedServer H env) × (peer_round config env inet_ntop ip n ≡ done (false, n'))
        × (n'.connector.clients ip ≡ none)
        × (n'.peers ip ≡ false)
        × (n'.disconnected
            ≡ (if n.has_disconnect_callback then ip ∷ n.disconnected else n.disconnected))
  unfolding peer_round on_connector_disconnect
  peer_round-disconnects ip c status message w n e v received failed =
      let (k', run, gone, _, _, _, _) =
        read_round-disconnects config env ip c status message w n.connector e v received failed in
      (
        on_connector_disconnect ip (record n { connector = k' }),
        ground (arith, run),
        gone,
        rw (eq_self ip),
        refl,
      )
