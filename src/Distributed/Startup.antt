-- ===== src/Distributed/Startup.antt =====
-- Starting a distributed server: the connect message goes to the multicast group until it is sent.
use servercc.Common.{
  ℕ, zero, suc, ◌≡◌, refl, ℤ, pos, true, false, List, done, exhausted, arith, is_negative, length,
  ap, ◌∙◌, take_all,
}
use servercc.Types.Status.{ok_status, error, internal}
use servercc.Types.Header.{header_bytes, length-header_bytes}
use servercc.Types.Memory.{copy_from}
use servercc.Types.Memory.Bounds.{copy_from-done}
use servercc.Types.Message.{Message}
use servercc.Types.Message.RoundTrip.{IsFramed}
use servercc.Types.Posix.{SockAddr, SockOption, multicast_ttl, bind_to_device, af_inet, sock_dgram}
use servercc.Clients.MulticastClient.{MulticastClient, open_socket, send_message}
use servercc.Connectors.Env.{Env}
use servercc.Distributed.{
  DistributedServer, connect_message, multicast_message, send_connect_message, run,
}

module _ (env : Env) where
  open_socket-opens :
      (c : MulticastClient) (w : env.World)
      → ((w : env.World) → is_negative (env.socket af_inet sock_dgram 0 w).0 ≡ false)
      → ((fd : ℤ) (option : SockOption) (w : env.World)
          → is_negative (env.setsockopt fd option w).0 ≡ false)
      → c.is_socket_open ≡ false
      → (c' : MulticastClient) × (w' : env.World) × (open_socket env.posix c w
          ≡ (ok_status, c', w'))
        × (c'.is_socket_open ≡ true)
  unfolding open_socket
  open_socket-opens c w made set closed =
      let (fd, w1) = env.socket af_inet sock_dgram 0 w in
      let (result, w2) = env.setsockopt fd (multicast_ttl c.ttl) w1 in
      let (result', w3) = env.setsockopt fd (bind_to_device c.interface) w2 in
      (
        record c { client_addr = c.addr; client_fd = fd; is_socket_open = true },
        w3,
        ground (
          arith,
          made w,
          set fd (multicast_ttl c.ttl) w1,
          set fd (bind_to_device c.interface) w2,
        ),
        refl,
      )

  send_message-sends :
      (c : MulticastClient) (m : Message) (w : env.World)
      → IsFramed m
      → ((fd : ℤ) (bs : List ℕ) (addr : SockAddr) (w : env.World)
          → (env.sendto fd bs addr w).0 ≡ pos (length bs))
      → c.is_socket_open ≡ true
      → (w' : env.World) × (send_message env.posix m c w ≡ done (ok_status, w'))
  unfolding send_message
  send_message-sends c m w framed sends is_open =
      let (sent, w1) = env.sendto c.client_fd (header_bytes m.header) c.client_addr w in
      (
        (env.sendto c.client_fd m.body c.client_addr w1).1,
        ground (
          arith,
          whole,
          sends c.client_fd (header_bytes m.header) c.client_addr w,
          length-header_bytes m.header,
          sends c.client_fd m.body c.client_addr w1,
        ),
      )
    where
      whole : copy_from m.body 0 m.header.length ≡ done m.body
      whole =
          copy_from-done m.body 0 m.header.length (omega arith)
          ∙ ap done (take_all m.header.length m.body (omega arith))

module _ {H : Type 0} (env : Env) where
  -- An attempt without a socket fails, and leaves the client closed.
  send_connect_message-closed :
      (n : DistributedServer H env)
      → ((w : env.World) → is_negative (env.socket af_inet sock_dgram 0 w).0 ≡ true)
      → n.multicast_client.is_socket_open ≡ false
      → (n' : DistributedServer H env) × (send_connect_message env n
          ≡ done (error internal "Failed to open socket", n'))
        × (n'.multicast_client.is_socket_open ≡ false)
  unfolding send_connect_message multicast_message open_socket
  send_connect_message-closed n broken closed = (
    record n {
      connector = record n.connector {
        world = (env.socket af_inet sock_dgram 0 n.connector.world).1;
      };
    },
    ground (arith, broken n.connector.world),
    closed,
  )

  -- A server whose multicast client is closed, started where no datagram socket can be made,
  -- attempts without end: no number of attempts makes the call return.
  pub run-never_gives_up :
      (fuel : ℕ) (n : DistributedServer H env)
      → ((w : env.World) → is_negative (env.socket af_inet sock_dgram 0 w).0 ≡ true)
      → n.multicast_client.is_socket_open ≡ false
      → run env fuel n ≡ exhausted
  unfolding run
  run-never_gives_up zero n broken closed = refl
  run-never_gives_up (suc fuel) n broken closed =
      let (n', attempt, still) = send_connect_message-closed n broken closed in
      ground (arith, attempt, run-never_gives_up fuel n' broken still)

  -- Where a datagram socket can be made and set up and sends what it is given, a server whose
  -- multicast client is closed starts with its first attempt, whatever fuel is left, and its client is
  -- open then.
  pub run-starts :
      (n : DistributedServer H env)
      → ((w : env.World) → is_negative (env.socket af_inet sock_dgram 0 w).0 ≡ false)
      → ((fd : ℤ) (option : SockOption) (w : env.World)
          → is_negative (env.setsockopt fd option w).0 ≡ false)
      → ((fd : ℤ) (bs : List ℕ) (addr : SockAddr) (w : env.World)
          → (env.sendto fd bs addr w).0 ≡ pos (length bs))
      → n.multicast_client.is_socket_open ≡ false
      → (n' : DistributedServer H env) × ((fuel : ℕ) → run env (suc fuel) n ≡ done (ok_status, n'))
        × (n'.multicast_client.is_socket_open ≡ true)
  unfolding run send_connect_message multicast_message
  run-starts n made set sends closed =
      let (client, w, opens, is_open) =
        open_socket-opens env n.multicast_client n.connector.world made set closed in
      let (w', sent) = send_message-sends env client (connect_message n) w refl sends is_open in
      (
        record n { multicast_client = client; connector = record n.connector { world = w' } },
        (λ fuel. ground (arith, opens, sent)),
        is_open,
      )
