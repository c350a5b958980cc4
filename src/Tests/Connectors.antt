-- ===== src/Tests/Connectors.antt =====
-- The connectors of servercc/connectors at concrete inputs.
use servercc.Common.{
  ℕ, ◌≡◌, ◌⊎◌, refl, subst, pos, negsuc, true, false, [], ◌∷◌, some, none, done, blocked, arith,
  ◌==◌, if◌then◌else◌,
}
use servercc.Types.Status.{ok_status, error, already_exists, not_found, invalid_argument}
use servercc.Types.Header.{header_bytes, header_of_bytes}
use servercc.Types.Memory.{uint32, resize}
use servercc.Types.Stream.{read_message}
use servercc.Types.Stream.Transfer.{frame}
use servercc.Clients.TcpClient.{
  Client, open_socket, close_socket, receive_message, get_client_in_addr, connect_any,
}
use servercc.Connectors.Manager.{State}
use servercc.Connectors.Manager.Invariant.{IsValid}
use servercc.Connectors.InternalRequest.{new_internal_request}
use servercc.Connectors.Connector.{
  Connector, InternalClient, new_connector, add_client, send_request, read_round,
}
use servercc.Connectors.Connector.Clients.{
  KeepsOthers, Forwards, add_client-registers, send_request-opens, read_round-disconnects,
  read_round-Forwards,
}
use servercc.Fixtures.{local_env, local_addr, small_config, Net, idle}
use servercc.Tests.Managers.{one_open, one_open-IsValid, request_one, request_one-WrappedInRange}

abbrev client : Client
client = record {
  server_address = "host";
  port = 80;
  client_fd = negsuc 0;
  is_socket_open = false;
  client_addr = record { address = 0; port = 0 };
}

abbrev connected : Client
connected = record client { client_fd = pos 0; is_socket_open = true; client_addr = local_addr }

-- A connector of one client, whose channel 1 is open. A handler is its name.
abbrev internal_client : InternalClient local_env
internal_client = record { client = connected; channel_manager = one_open }

abbrev connector : Net → Connector ℕ local_env
connector w = record {
  handlers = λ protocol. none;
  default_handler = 100;
  clients = λ address. if address == 16777343 then some internal_client else none;
  reading = λ address. true;
  started = [];
  disconnected = [];
  world = w;
}

connector-IsValid :
    (c : InternalClient local_env)
    → (connector idle).clients 16777343 ≡ some c
    → IsValid small_config local_env c.channel_manager
connector-IsValid c h =
    let same : internal_client ≡ c = cc in
    subst (λ (k : InternalClient local_env). IsValid small_config local_env k.channel_manager) same
      one_open-IsValid

abbrev unconnected : Connector ℕ local_env
unconnected = new_connector local_env 100 idle

opens :
    open_socket local_env.posix client idle ≡ done (ok_status, connected, record idle { held = 1 })
unfolding open_socket connect_any
opens = refl

add_client-registers_example :
    ((old : InternalClient local_env) × (unconnected.clients (get_client_in_addr connected)
        ≡ some old)
      × (add_client small_config local_env client unconnected
          ≡ done (
            error already_exists "Client already exists",
            record unconnected {
              world = (close_socket local_env.posix connected (record idle { held = 1 })).1;
            },
          )))
    ⊎ ((k' : Connector ℕ local_env) × (manager : State local_env) × (unconnected.clients
            (get_client_in_addr connected)
          ≡ none)
        × (add_client small_config local_env client unconnected ≡ done (ok_status, k'))
        × (k'.clients (get_client_in_addr connected)
            ≡ some (record { client = connected; channel_manager = manager }))
        × (manager.write_fd ≡ pos 0)
        × IsValid small_config local_env manager
        × (k'.reading (get_client_in_addr connected) ≡ true)
        × (k'.world ≡ record idle { held = 1 })
        × KeepsOthers small_config local_env (get_client_in_addr connected) unconnected k')
unfolding new_connector
add_client-registers_example =
    add_client-registers small_config local_env client connected (record idle { held = 1 })
      unconnected opens

send_request-opens_example :
    ((connector idle).clients 16777343 ≡ none
      × (send_request small_config local_env 16777343 (connector idle)
          ≡ done (error not_found "Client does not exist", none, connector idle)))
    ⊎ ((c : InternalClient local_env) × ((connector idle).clients 16777343 ≡ some c)
        × (((c.channel_manager.free_list ≡ [])
              × (send_request small_config local_env 16777343 (connector idle) ≡ blocked))
            ⊎ ((id : ℕ) × (k' : Connector ℕ local_env) × (c' : InternalClient local_env)
                × (send_request small_config local_env 16777343 (connector idle)
                    ≡ done (ok_status, some (new_internal_request c.channel_manager.next_ref), k'))
                × (k'.clients 16777343 ≡ some c')
                × (c.channel_manager.request_channel id ≡ none)
                × (c'.channel_manager.request_channel id ≡ some c.channel_manager.next_ref)
                × IsValid small_config local_env c'.channel_manager
                × KeepsOthers small_config local_env 16777343 (connector idle) k')))
send_request-opens_example =
    send_request-opens small_config local_env 16777343 (connector idle) connector-IsValid

nothing_received :
    receive_message local_env.posix connected idle
    ≡ (error invalid_argument "Error reading message header", none, idle)
unfolding receive_message read_message header_of_bytes resize
nothing_received = refl

read_round-disconnects_example :
    (k' : Connector ℕ local_env) × (read_round small_config local_env 16777343 (connector idle)
      ≡ done (false, k'))
    × (k'.clients 16777343 ≡ none)
    × (k'.reading 16777343 ≡ false)
    × (k'.disconnected ≡ 16777343 ∷ [])
    × (k'.started ≡ [])
    × KeepsOthers small_config local_env 16777343 (connector idle) k'
read_round-disconnects_example =
    read_round-disconnects small_config local_env 16777343 internal_client
      (error invalid_argument "Error reading message header") none idle (connector idle) refl
      one_open-IsValid nothing_received refl

abbrev requested : Net
requested = record idle { wire = frame request_one }

request_received :
    receive_message local_env.posix connected requested ≡ (ok_status, some request_one, idle)
unfolding receive_message read_message header_bytes header_of_bytes resize
request_received = refl

read_round-Forwards_example :
    Forwards small_config local_env 16777343 internal_client request_one idle
      (connector requested)
      (read_round small_config local_env 16777343 (connector requested))
read_round-Forwards_example =
    read_round-Forwards small_config local_env 16777343 internal_client request_one idle
      (connector requested) refl one_open-IsValid request_received refl (λ end. ground arith)
      (λ other. request_one-WrappedInRange)
