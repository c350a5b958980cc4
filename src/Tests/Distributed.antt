-- ===== src/Tests/Distributed.antt =====
-- A distributed server at concrete inputs.
use servercc.Common.{
  ℕ, ◌≡◌, ◌⊎◌, refl, pos, negsuc, true, false, [], ◌∷◌, ◌++◌, String, Option, some, none, done,
  undefined, exhausted, arith, is_some,
}
use servercc.Types.Status.{ok_status, error, already_exists, invalid_argument}
use servercc.Types.Header.{header_bytes, header_of_bytes}
use servercc.Types.Memory.{copy_from, resize}
use servercc.Types.Stream.{read_message, write_message}
use servercc.Types.Stream.Transfer.{frame}
use servercc.Types.Protocols.{connect_ack_request_protocol, connect_ack_response_protocol}
use servercc.Servers.UdpRequest.{new_udp_request}
use servercc.Servers.TcpRequest.{new_tcp_request}
use servercc.Clients.TcpClient
use servercc.Clients.TcpClient.{Client, new_client, open_socket, connect_any, get_client_in_addr}
use servercc.Clients.MulticastClient.{MulticastClient}
use servercc.Connectors.Env.{Env}
use servercc.Connectors.Manager.{State, new_manager}
use servercc.Connectors.Manager.Invariant.{IsValid, new_manager-IsValid}
use servercc.Connectors.Connector.{InternalClient}
use servercc.Distributed.{
  DistributedServer, forward_request_to_handler, connect_message, ack_message, run, peer_round,
}
use servercc.Distributed.Handshake.{handle_connect, handle_connect_ack}
use servercc.Distributed.Startup.{run-never_gives_up}
use servercc.Distributed.Peers.{handle_connect-connects}
use servercc.Distributed.Acknowledgements.{
  adopted, handle_connect_ack-adopts, peer_round-disconnects,
}
use servercc.Fixtures.{loopback, list_buffers, local_env, local_addr, small_config, Net, idle}

abbrev other_name : ℕ → String
other_name address = "10.0.0.2"

abbrev unopened : MulticastClient
unopened = record {
  interface = "eth0";
  ttl = 1;
  addr = local_addr;
  client_fd = negsuc 0;
  is_socket_open = false;
  client_addr = local_addr;
}

-- A server whose connector has the given clients.
abbrev server :
    (env : Env) → (ℕ → Option (InternalClient env)) → env.World → DistributedServer ℕ env
server env clients w = record {
  interfaces = "10.0.0.1" ∷ [];
  port = 4000;
  connector = record {
    handlers = λ protocol. none;
    default_handler = forward_request_to_handler;
    clients = clients;
    reading = λ address. false;
    started = [];
    disconnected = [];
    world = w;
  };
  multicast_client = unopened;
  peers = λ ip. false;
  handlers = λ protocol. none;
  default_handler = none;
  has_connect_callback = true;
  has_disconnect_callback = true;
  connected = [];
  disconnected = [];
}

-- No socket can be made.
abbrev broken_env : Env
broken_env = record {
  posix = record loopback { socket = λ family kind protocol w. (negsuc 0, w) };
  buffers = list_buffers;
}

run-never_gives_up_example :
    run broken_env 50 (server broken_env (λ address. none) idle) ≡ exhausted
run-never_gives_up_example =
    run-never_gives_up broken_env 50 (server broken_env (λ address. none) idle) (λ w. refl) refl

-- The peer's acknowledgement is on its way.
abbrev answered : Net
answered = record idle { wire = frame (ack_message connect_ack_response_protocol) }

abbrev receiver : DistributedServer ℕ local_env
receiver = server local_env (λ address. none) answered

abbrev peer_client : Client
peer_client = record {
  server_address = "10.0.0.2";
  port = 4000;
  client_fd = pos 0;
  is_socket_open = true;
  client_addr = local_addr;
}

abbrev acknowledged : Net
acknowledged = record idle {
  wire =
      frame (ack_message connect_ack_response_protocol)
      ++ frame (ack_message connect_ack_request_protocol);
  held = 1;
}

abbrev received : Net
received = record idle { wire = frame (ack_message connect_ack_request_protocol); held = 1 }

opens :
    open_socket local_env.posix (new_client "10.0.0.2" 4000) answered
    ≡ done (ok_status, peer_client, record answered { held = 1 })
unfolding open_socket connect_any new_client
opens = refl

sends :
    TcpClient.send_message local_env.posix
      (ack_message connect_ack_request_protocol)
      peer_client
      (record answered { held = 1 })
    ≡ done (ok_status, acknowledged)
unfolding TcpClient.send_message copy_from header_bytes
sends = refl

receives :
    TcpClient.receive_message local_env.posix peer_client acknowledged
    ≡ (ok_status, some (ack_message connect_ack_response_protocol), received)
unfolding TcpClient.receive_message read_message header_bytes header_of_bytes resize
receives = refl

handle_connect-connects_example :
    (is_some (receiver.connector.clients (get_client_in_addr peer_client)) ≡ true
      × (handle_connect small_config local_env other_name
            (new_udp_request local_addr (connect_message receiver))
            receiver
          ≡ undefined))
    ⊎ ((n' : DistributedServer ℕ local_env) × (manager : State local_env)
        × (receiver.connector.clients (get_client_in_addr peer_client) ≡ none)
        × (handle_connect small_config local_env other_name
              (new_udp_request local_addr (connect_message receiver))
              receiver
            ≡ done (ok_status, n'))
        × (n'.connector.clients (get_client_in_addr peer_client)
            ≡ some (record { client = peer_client; channel_manager = manager }))
        × IsValid small_config local_env manager
        × (n'.connector.reading (get_client_in_addr peer_client) ≡ true)
        × (n'.connected ≡ 16777343 ∷ [])
        × (n'.peers ≡ receiver.peers))
handle_connect-connects_example =
    handle_connect-connects small_config local_env other_name receiver receiver local_addr
      "10.0.0.1" [] peer_client (ack_message connect_ack_response_protocol)
      (record answered { held = 1 }) acknowledged received (omega arith) refl refl refl opens sends
      receives refl

acknowledges :
    write_message local_env.posix (pos 5) (ack_message connect_ack_response_protocol) idle
    ≡ (ok_status, answered)
unfolding write_message header_bytes
acknowledges = refl

handle_connect_ack-adopts_example :
    (n' : DistributedServer ℕ local_env) × ((is_some
            ((server local_env (λ address. none) idle).connector.clients 16777343)
          ≡ true
        × (handle_connect_ack small_config local_env other_name
              (new_tcp_request (pos 5) local_addr (ack_message connect_ack_request_protocol))
              (server local_env (λ address. none) idle)
            ≡ done (error already_exists "Client already exists", n'))
        × (n'.connector.world ≡ loopback.close (pos 5) (loopback.close (pos 5) answered)))
      ⊎ ((manager : State local_env) × ((server local_env (λ address. none) idle).connector.clients
              16777343
            ≡ none)
          × (handle_connect_ack small_config local_env other_name
                (new_tcp_request (pos 5) local_addr (ack_message connect_ack_request_protocol))
                (server local_env (λ address. none) idle)
              ≡ done (ok_status, n'))
          × (n'.connector.clients 16777343
              ≡ some (record {
                client = adopted other_name (pos 5) local_addr;
                channel_manager = manager;
              }))
          × IsValid small_config local_env manager
          × (n'.connector.reading 16777343 ≡ true)
          × (n'.connector.world ≡ answered)
          × (n'.connected ≡ 16777343 ∷ [])))
handle_connect_ack-adopts_example =
    handle_connect_ack-adopts small_config local_env other_name (pos 5) local_addr
      (ack_message connect_ack_request_protocol) answered (server local_env (λ address. none) idle)
      refl acknowledges

abbrev known : InternalClient local_env
known = record {
  client = peer_client;
  channel_manager = new_manager small_config local_env (pos 0) idle;
}

abbrev connected : DistributedServer ℕ local_env
connected = server local_env (λ address. some known) idle

nothing_received :
    TcpClient.receive_message local_env.posix peer_client idle
    ≡ (error invalid_argument "Error reading message header", none, idle)
unfolding TcpClient.receive_message read_message header_of_bytes resize
nothing_received = refl

peer_round-disconnects_example :
    (n' : DistributedServer ℕ local_env) × (peer_round small_config local_env other_name 16777343
        connected
      ≡ done (false, n'))
    × (n'.connector.clients 16777343 ≡ none)
    × (n'.peers 16777343 ≡ false)
    × (n'.disconnected ≡ 16777343 ∷ [])
peer_round-disconnects_example =
    peer_round-disconnects small_config local_env other_name 16777343 known
      (error invalid_argument "Error reading message header") none idle connected refl
      (new_manager-IsValid small_config local_env (pos 0) idle) nothing_received refl
