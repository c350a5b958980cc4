-- ===== src/Tests/Servers.antt =====
-- The servers of servercc/servers and their requests at concrete inputs.
use servercc.Common.{
  true, ◌&&◌, is_some, ℕ, ◌≡◌, refl, pos, [], ◌∷◌, some, none, Outcome, done, ◌==◌, if◌then◌else◌,
}
use servercc.Types.Status.{Status, ok_status, error, invalid_argument, already_exists}
use servercc.Types.Header.{header_bytes, header_of_bytes}
use servercc.Types.Memory.{resize}
use servercc.Types.Message.{Message}
use servercc.Types.Stream.{read_message}
use servercc.Types.Stream.Transfer.{frame}
use servercc.Servers.Registry.{Server, add_handler, handle_request}
use servercc.Servers.Registry.Lookup.{
  handler_for, handle_request-handler_for, add_handler-handle_request,
}
use servercc.Servers.TcpRequest.{TcpRequest}
use servercc.Servers.UdpRequest.{UdpRequest}
use servercc.Servers.TcpServer.{tcp_round, Serves, tcp_round-Serves}
use servercc.Servers.UdpServer.{udp_round, udp_round-serves, udp_round-Serves}
use servercc.Servers.UdpServer
use servercc.Servers.Binding.{bind_any, new_tcp_server, new_udp_server}
use servercc.Servers.Binding.Held.{new_udp_server-held, new_tcp_server-held}
use servercc.Fixtures.{
  loopback_descriptors, local_info, loopback, Net, idle, greeting, greeting-IsHeader, local_addr,
}

-- A handler that leaves its mark on the wire.
abbrev marking : {R : Type 0} → ℕ → R → Net → Outcome (Status × Net)
marking mark request w = done (ok_status, record w { wire = mark ∷ [] })

-- Protocol 7 has a handler, the others get the default one.
abbrev server : {R : Type 0} → Server R Net
server = record {
  port = 80;
  handlers = λ protocol. if protocol == 7 then some (some (marking 77)) else none;
  default_handler = some (marking 11);
  server_socket_fd = pos 3;
}

abbrev greeted : Net
greeted = record idle { wire = frame greeting }

greeting_read : read_message loopback (pos 5) greeted ≡ (ok_status, some greeting, idle)
unfolding read_message header_bytes header_of_bytes resize
greeting_read = refl

nothing_read :
    read_message loopback (pos 5) idle
    ≡ (error invalid_argument "Error reading message header", none, idle)
unfolding read_message header_bytes header_of_bytes resize
nothing_read = refl

tcp_round-Serves_example : Serves loopback server greeted (tcp_round loopback server greeted)
tcp_round-Serves_example = tcp_round-Serves loopback server greeted

abbrev datagrams : Net
datagrams = record idle {
  datagrams = (pos 8, header_bytes greeting.header) ∷ (pos 3, 104 ∷ 105 ∷ 33 ∷ []) ∷ [];
}

udp_round-serves_example :
    (s' : Server UdpRequest Net) × (udp_round loopback server datagrams
      ≡ done (s', record idle { wire = 77 ∷ [] }))
    × ((q : ℕ) → handler_for s' q ≡ handler_for server q)
udp_round-serves_example =
    udp_round-serves loopback greeting (marking 77) server datagrams
      (record idle { datagrams = (pos 3, 104 ∷ 105 ∷ 33 ∷ []) ∷ [] }) idle local_addr local_addr
      greeting-IsHeader refl refl refl refl

udp_round-Serves_example :
    UdpServer.Serves loopback server datagrams (udp_round loopback server datagrams)
udp_round-Serves_example = udp_round-Serves loopback server datagrams

handle_request-handler_for_example :
    ((handle_request 8 greeting idle server).0 ≡ marking 11 greeting idle)
    × ((q : ℕ) → handler_for (handle_request 8 greeting idle server).1 q ≡ handler_for server q)
handle_request-handler_for_example = handle_request-handler_for 8 greeting idle server

add_handler-handle_request_example :
    let s' = (handle_request 8 greeting idle server).1 in
    ((add_handler 8 (some (marking 88)) (server {R = Message})).0 ≡ ok_status)
    × (add_handler 8 (some (marking 88)) s'
        ≡ (error already_exists "Handler already exists for protocol.", s'))
    × (handler_for s' 8 ≡ some (marking 11))
add_handler-handle_request_example =
    add_handler-handle_request 8 greeting idle (some (marking 88)) server refl

new_udp_server-held_example :
    let (made, w') =
      new_udp_server loopback {R = UdpRequest} 80 "224.0.0.1"
        ("10.0.0.1" ∷ [])
        (some (marking 11))
        idle in
    w'.held ≡ (if is_some made then 1 else 0)
new_udp_server-held_example =
    new_udp_server-held loopback loopback_descriptors 80 "224.0.0.1" ("10.0.0.1" ∷ [])
      (some (marking 11)) idle

new_tcp_server-held_example :
    let bound = is_some (bind_any loopback (local_info ∷ []) idle).0 in
    let (made, w') = new_tcp_server loopback {R = TcpRequest} 80 (some (marking 11)) idle in
    (is_some made ≡ (bound && true)) × (w'.held ≡ (if bound then 1 else 0))
unfolding bind_any new_tcp_server
new_tcp_server-held_example =
    new_tcp_server-held loopback loopback_descriptors {R = TcpRequest} 80 (some (marking 11)) idle
