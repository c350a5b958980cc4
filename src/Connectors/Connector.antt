-- ===== src/Connectors/Connector.antt =====
-- servercc/connectors/src/connector.cc: the connections to the other servers.
pub mod Clients
use servercc.Common.{
  ℕ, zero, suc, Bool, true, false, not, List, [], ◌∷◌, Option, none, some, Outcome, done, undefined,
  ◌>>=◌, update, is_some, if◌then◌else◌,
}
use servercc.Types.Status.{Status, ok_status, error, is_ok, with_context, already_exists, not_found}
use servercc.Types.Message.{Message}
use servercc.Types.Posix.{SockAddr}
use servercc.Clients.TcpClient
use servercc.Clients.TcpClient.{Client}
use servercc.Connectors.Env.{Env, ChannelConfig}
use servercc.Connectors.Manager.{
  State, new_manager, create_request_channel, forward_message, destroy_manager,
}
use servercc.Connectors.InternalRequest.{InternalRequest, new_internal_request}

pub record InternalClient (env : Env) : Type 0 where
  pub client : Client
  pub channel_manager : State env

-- A handler thread that was started: the handler, its request, and the connection it is from.
pub record Started (H : Type 0) : Type 0 where
  pub handler : H
  pub request : InternalRequest
  pub peer : ℕ

-- `H` are the handlers, which are stored and started here and run elsewhere. `reading` tells
-- which addresses have a reader thread, `started` the handler threads that readers have started, and
-- `disconnected` the calls of the disconnect callback, newest first. The world is that of every
-- manager.
pub record Connector (H : Type 0) (env : Env) : Type 0 where
  pub handlers : ℕ → Option H
  pub default_handler : H
  pub clients : ℕ → Option (InternalClient env)
  pub reading : ℕ → Bool
  pub started : List (Started H)
  pub disconnected : List ℕ
  pub world : env.World

module _ {H : Type 0} (env : Env) where
  unfoldable pub new_connector : H → env.World → Connector H env
  new_connector default_handler w = record {
    handlers = λ protocol. none;
    default_handler = default_handler;
    clients = λ address. none;
    reading = λ address. false;
    started = [];
    disconnected = [];
    world = w;
  }

  unfoldable pub add_handler : ℕ → H → Connector H env → Status × Connector H env
  add_handler protocol handler k =
      if is_some (k.handlers protocol)
      then (error already_exists "Handler already exists for protocol", k)
      else (ok_status, record k { handlers = update k.handlers protocol (some handler) })

  -- The reader thread is started where the client exists.
  unfoldable pub run_client : ℕ → Connector H env → Status × Connector H env
  run_client address k =
      if not (is_some (k.clients address))
      then (error not_found "Client does not exist", k)
      else (ok_status, record k { reading = update k.reading address true })

module _ {H : Type 0} (config : ChannelConfig) (env : Env) where
  -- `addClient` once the socket is open. A client that is refused is destroyed, which closes its
  -- socket; the manager made for it has no channel to close.
  register_client : Client → Connector H env → Status × Connector H env
  register_client client k =
      let address = TcpClient.get_client_in_addr client in
      let manager = new_manager config env client.client_fd k.world in
      if is_some (k.clients address)
      then (
        error already_exists "Client already exists",
        record k { world = (TcpClient.close_socket env.posix client k.world).1 },
      )
      else run_client env address (record k {
        clients =
            update k.clients address (some (record { client = client; channel_manager = manager }));
      })

  -- `addClient` with what opening the socket gave.
  unfoldable pub add_opened :
      Status × Client × env.World → Connector H env → Status × Connector H env
  unfolding register_client
  add_opened (status, client', w) k =
      if not (is_ok status)
      then (
        with_context "Failed to open socket for client" status,
        record k { world = (TcpClient.close_socket env.posix client' w).1 },
      )
      else register_client client' (record k { world = w })

  unfoldable pub add_client : Client → Connector H env → Outcome (Status × Connector H env)
  unfolding add_opened
  add_client client k = do
    opened ← TcpClient.open_socket env.posix client k.world
    done (add_opened opened k)

  -- A manager works on the connector's world.
  abbrev pub entered : InternalClient env → Connector H env → State env
  entered c k = record c.channel_manager { world = k.world }

  abbrev pub left : ℕ → InternalClient env → State env → Connector H env → Connector H env
  left address c manager k = record k {
    clients = update k.clients address (some (record c { channel_manager = manager }));
    world = manager.world;
  }

  unfoldable pub send_request :
      ℕ → Connector H env → Outcome (Status × Option InternalRequest × Connector H env)
  send_request address k = elim (k.clients address) [
    | none ↦ done (error not_found "Client does not exist", none, k)
    | some c ↦ do
      (status, channel, manager) ← create_request_channel config env (entered c k)
      elim (is_ok status) [
        | false ↦ done (status, none, left address c manager k)
        | true ↦ elim channel [
          | none ↦ undefined
          | some ref ↦ done (ok_status, some (new_internal_request ref), left address c manager k)
        ]
      ]
  ]

  abbrev pub handler_for : Connector H env → ℕ → H
  handler_for k protocol = elim (k.handlers protocol) [
    | some handler ↦ handler
    | none ↦ k.default_handler
  ]

  -- The thread for a channel that a message came back with.
  unfoldable pub start_handler : ℕ → ℕ → SockAddr → Option ℕ → Connector H env → Connector H env
  start_handler address protocol addr none k = k
  start_handler address protocol addr (some ref) k = record k {
    started =
        record {
          handler = handler_for k protocol;
          request = record { protocol = protocol; addr = addr; channel = ref };
          peer = address;
        }
        ∷ k.started;
  }

  -- The end of the reader loop: the socket is closed, the client forgotten, the callback called,
  -- and last the manager destroyed, whose channels still write to the descriptor.
  unfoldable pub disconnect : ℕ → InternalClient env → Connector H env → Outcome (Connector H env)
  disconnect address c k = do
    let (client, w) = TcpClient.close_socket env.posix c.client k.world
    manager ← destroy_manager config env (record c.channel_manager { world = w })
    done (record k {
      clients = update k.clients address none;
      reading = update k.reading address false;
      disconnected = address ∷ k.disconnected;
      world = manager.world;
    })

  unfoldable pub forward_read :
      ℕ → InternalClient env → Message → Connector H env → Outcome (Connector H env)
  unfolding start_handler
  forward_read address c m k = do
    (status, protocol, channel, manager) ← forward_message config env m (entered c k)
    done (start_handler address protocol c.client.client_addr channel (left address c manager k))

  -- One round of the reader loop of `address`; the Boolean says whether the loop goes on.
  unfoldable pub read_round : ℕ → Connector H env → Outcome (Bool × Connector H env)
  read_round address k = elim (k.clients address) [
    | none ↦ undefined
    | some c ↦
        let (status, message, w) = TcpClient.receive_message env.posix c.client k.world in
        let k' = record k { world = w } in
        elim (is_ok status) [
          | false ↦ disconnect address c k' >>= λ k''. done (false, k'')
          | true ↦ elim message [
            | none ↦ undefined
            | some m ↦ forward_read address c m k' >>= λ k''. done (true, k'')
          ]
        ]
  ]
