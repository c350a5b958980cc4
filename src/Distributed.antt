-- ===== src/Distributed.antt =====
-- servercc/distributed/src/distributed_server.cc: a server that connects to its peers.
pub mod Handshake
pub mod Node
pub mod Startup
pub mod Peers
pub mod Acknowledgements
use Prim.Native.Nat.{Ordering}
use Prim.Native.String.{compare as compare_text, ◌++◌ as ◌<>◌}
use servercc.Common.{
  ℕ, zero, suc, ◌+◌, ◌*◌, ◌/◌, ◌%◌, ℤ, negsuc, Bool, true, false, not, ◌||◌, List, [], ◌∷◌, String,
  Option, none, some, Outcome, done, undefined, exhausted, ◌>>=◌, ◌==◌, update, is_some,
  if◌then◌else◌,
}
use servercc.Types.Status.{Status, ok_status, error, is_ok, with_context, already_exists, internal}
use servercc.Types.Protocols.{
  connect_request_protocol, connect_ack_request_protocol, connect_ack_response_protocol,
}
use servercc.Types.Memory.{copy_from, word16_bytes, word16_of_bytes}
use servercc.Types.Message.{Message}
use servercc.Types.Posix.{SockAddr}
use servercc.Clients.TcpClient
use servercc.Clients.TcpClient.{Client, new_client, connected_client}
use servercc.Clients.MulticastClient
use servercc.Clients.MulticastClient.{MulticastClient, new_multicast_client}
use servercc.Servers.TcpRequest
use servercc.Servers.TcpRequest.{TcpRequest}
use servercc.Servers.UdpRequest
use servercc.Servers.UdpRequest.{UdpRequest}
use servercc.Connectors.Env.{Env, ChannelConfig}
use servercc.Connectors.InternalRequest.{InternalRequest}
use servercc.Connectors.Connector
use servercc.Connectors.Connector.{send_request, Connector, new_connector, add_client, read_round}

-- The one handler that the server gives to its connector.
pub data Forwarding : Type 0 where
  forward_request_to_handler : Forwarding

-- The servers' threads take the members that they need; what they share is here. `H` are the
-- handlers of the user, which run elsewhere. `connected` and `disconnected` are the calls of the
-- user's callbacks, newest first. The world is the connector's.
pub record DistributedServer (H : Type 0) (env : Env) : Type 0 where
  pub interfaces : List String
  pub port : ℕ
  pub connector : Connector Forwarding env
  pub multicast_client : MulticastClient
  pub peers : ℕ → Bool
  pub handlers : ℕ → Option H
  pub default_handler : Option H
  pub has_connect_callback : Bool
  pub has_disconnect_callback : Bool
  pub connected : List ℕ
  pub disconnected : List ℕ

-- `==` on texts
abbrev pub same_text : String → String → Bool
same_text a b = elim (compare_text a b) [ Ordering.eq ↦ true | _ ↦ false ]

-- `ntohs`
abbrev pub ntohs : ℕ → ℕ
ntohs p = p % 256 * 256 + p / 256

abbrev pub ack_message : ℕ → Message
ack_message protocol = record { header = record { length = 0; protocol = protocol }; body = [] }

-- The error that names a peer: `StrCat(text, " '", ip, "': ", status.message())`.
abbrev pub peer_error : String → String → Status → Status
peer_error text ip status = error internal (text <> (" '" <> (ip <> ("': " <> status.message))))

module _ {H : Type 0} {env : Env} where
  abbrev pub with_world : env.World → DistributedServer H env → DistributedServer H env
  with_world w n = record n { connector = record n.connector { world = w } }

  abbrev pub connect_message : DistributedServer H env → Message
  connect_message n = record {
    header = record { length = 2; protocol = connect_request_protocol };
    body = word16_bytes n.port;
  }

  unfoldable pub add_handler : ℕ → H → DistributedServer H env → Status × DistributedServer H env
  add_handler protocol handler n =
      if is_some (n.handlers protocol)
      then (error already_exists "Handler already exists for protocol", n)
      else (ok_status, record n { handlers = update n.handlers protocol (some handler) })

  -- Which handler is called: `none` is an empty function.
  unfoldable pub forwarded_handler : ℕ → DistributedServer H env → Option H
  forwarded_handler protocol n = elim (n.handlers protocol) [
    | none ↦ n.default_handler
    | some handler ↦ some handler
  ]

  unfoldable pub on_connector_disconnect : ℕ → DistributedServer H env → DistributedServer H env
  on_connector_disconnect ip n = record n {
    peers = update n.peers ip false;
    disconnected = if n.has_disconnect_callback then ip ∷ n.disconnected else n.disconnected;
  }

  abbrev pub call_connected : ℕ → DistributedServer H env → DistributedServer H env
  call_connected ip n = record n {
    connected = if n.has_connect_callback then ip ∷ n.connected else n.connected;
  }

  -- The member for the default handler is initialised from itself, not from the constructor's
  -- parameter: `found` is what it holds then.
  unfoldable pub new_distributed_server :
      String
      → SockAddr
      → List String
      → ℕ
      → Option H
      → Bool
      → Bool
      → env.World
      → DistributedServer H env
  new_distributed_server interface group interfaces port found connects disconnects w = record {
    interfaces = interfaces;
    port = port;
    connector = new_connector env forward_request_to_handler w;
    multicast_client = new_multicast_client interface group 1;
    peers = λ ip. false;
    handlers = λ protocol. none;
    default_handler = found;
    has_connect_callback = connects;
    has_disconnect_callback = disconnects;
    connected = [];
    disconnected = [];
  }

-- `close(client->getClientFd())`, and then the client is destroyed.
abbrev pub abandon : (env : Env) → Client → env.World → env.World
abandon env c w = (TcpClient.close_socket env.posix c (env.close c.client_fd w)).1

module _ {H : Type 0} (env : Env) where
  send_multicast : Message → DistributedServer H env → Outcome (Status × DistributedServer H env)
  send_multicast m n = do
    (status, w) ← MulticastClient.send_message env.posix m n.multicast_client n.connector.world
    done (status, with_world w n)

  unfoldable pub multicast_message :
      Message → DistributedServer H env → Outcome (Status × DistributedServer H env)
  unfolding send_multicast
  multicast_message m n =
      let (status, client, w) =
        MulticastClient.open_socket env.posix n.multicast_client n.connector.world in
      let opened = with_world w (record n { multicast_client = client }) in
      if n.multicast_client.is_socket_open
      then send_multicast m n
      else if not (is_ok status)
      then done (error internal "Failed to open socket", opened)
      else send_multicast m opened

  unfoldable pub send_connect_message :
      DistributedServer H env → Outcome (Status × DistributedServer H env)
  unfolding multicast_message
  send_connect_message n = multicast_message (connect_message n) n

  -- `run` once the servers' threads are started: as many attempts as there is fuel for.
  unfoldable pub run : ℕ → DistributedServer H env → Outcome (Status × DistributedServer H env)
  unfolding send_connect_message
  run zero n = exhausted
  run (suc fuel) n = send_connect_message n >>= λ r.
      let again = run fuel r.1 in if is_ok r.0 then done (ok_status, r.1) else again

module _ {H : Type 0} (config : ChannelConfig) (env : Env) where
  unfoldable pub send_internal_request :
      ℕ
      → DistributedServer H env
      → Outcome (Status × Option InternalRequest × DistributedServer H env)
  send_internal_request address n = do
    (status, request, connector) ← send_request config env address n.connector
    done (status, request, record n { connector = connector })

module _ {H : Type 0} (config : ChannelConfig) (env : Env) (inet_ntop : ℕ → String) where
  -- A round of the reader thread of a peer, with the callback that the connector calls at its end.
  unfoldable pub peer_round : ℕ → DistributedServer H env → Outcome (Bool × DistributedServer H env)
  unfolding on_connector_disconnect
  peer_round ip n = do
    (goes_on, connector) ← read_round config env ip n.connector
    let n' = record n { connector = connector }
    done (goes_on, if goes_on then n' else on_connector_disconnect ip n')
