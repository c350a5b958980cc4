-- ===== src/Tests/Node.antt =====
-- A distributed server with its threads, at concrete inputs.
use servercc.Common.{none, ℕ, ◌≡◌, refl, subst, false, [], ◌∷◌, String, Outcome, done}
use servercc.Types.Status.{Status, ok_status}
use servercc.Types.Header.{header_bytes, header_of_bytes}
use servercc.Types.Memory.{resize}
use servercc.Types.Protocols.{connect_ack_request_protocol}
use servercc.Types.Stream.{read_message, write_message}
use servercc.Types.Stream.Transfer.{frame}
use servercc.Clients.TcpClient
use servercc.Servers.TcpRequest
use servercc.Servers.TcpServer.{tcp_round, serve, dispatch}
use servercc.Servers.Registry
use servercc.Servers.Registry.{handle_request}
use servercc.Servers.Binding.{new_tcp_server, new_udp_server, bind_any, bind_group, join_group}
use servercc.Connectors.Env.{connector_config}
use servercc.Connectors.Connector.{new_connector, add_client, add_opened, run_client}
use servercc.Distributed.Handshake.{handle_connect_ack, adopt}
use servercc.Distributed.{DistributedServer, ack_message, new_distributed_server}
use servercc.Distributed.Node.{Node, AnyRequest, tcp_thread, new_node, register_handlers}
use servercc.Distributed.Node.Soundness.{IsSound}
use servercc.Distributed.Node.Handling.{UserKeeps}
use servercc.Distributed.Node.Reach.{IsRunning, tcp, start, later, new_node-IsRunning}
use servercc.Fixtures.{local_env, local_addr, Net, idle}

-- The user has one handler, which does nothing.
abbrev quiet :
    ℕ
    → AnyRequest
    → DistributedServer ℕ local_env
    → Outcome (Status × DistributedServer ℕ local_env)
quiet h request n = done (ok_status, n)

abbrev text_of : ℕ → String
text_of ip = "10.0.0.2"

quiet-UserKeeps : UserKeeps connector_config local_env text_of quiet
quiet-UserKeeps h request n n' status s run =
    let same : n ≡ n' = cc in subst (IsSound connector_config local_env) same s

-- An acknowledgement is on the wire.
abbrev greeted : Net
greeted = record idle { wire = frame (ack_message connect_ack_request_protocol) }

made :
    (node : Node ℕ local_env) × (new_node connector_config local_env text_of quiet "eth0"
        "224.0.0.1" local_addr
        ("10.0.0.1" ∷ [])
        8080
        0
        (done none)
        false
        false
        greeted
      ≡ done node)
unfolding new_node register_handlers new_tcp_server new_udp_server bind_any bind_group join_group
    Registry.add_handler new_distributed_server new_connector
made = (_, refl)

-- The TCP server's thread takes it, and the peer becomes a client.
adopting :
    (node : Node ℕ local_env) × (tcp_thread connector_config local_env text_of quiet made.0
      ≡ done node)
unfolding made new_node register_handlers new_tcp_server new_udp_server bind_any bind_group
    join_group Registry.add_handler new_distributed_server new_connector tcp_thread tcp_round serve
    dispatch handle_request read_message header_bytes header_of_bytes resize handle_connect_ack
    TcpRequest.receive_message TcpRequest.send_message TcpRequest.new_tcp_request write_message
    adopt TcpRequest.set_keep_alive TcpRequest.destroy_request add_client add_opened run_client
    TcpClient.open_socket TcpClient.connected_client TcpClient.get_client_in_addr
adopting = (_, refl)

new_node-IsRunning_example : IsRunning connector_config local_env text_of quiet adopting.0
new_node-IsRunning_example =
    new_node-IsRunning connector_config local_env text_of quiet "eth0" "224.0.0.1" local_addr
      ("10.0.0.1" ∷ []) 8080 0 (done none) false false greeted made.0 adopting.0 made.1
      quiet-UserKeeps (later start (tcp adopting.1))
