-- ===== src/Clients/MulticastClient.antt =====
-- servercc/clients/src/multicast_client.cc
use servercc.Common.{
  ℕ, ◌+◌, ℤ, negsuc, ◌≡◌, Bool, true, false, not, String, Option, none, Outcome, done, ◌>>=◌, arith,
  is_negative, signed_lt, if◌then◌else◌,
}
use servercc.Types.Status.{Status, ok_status, error, is_ok, internal, failed_precondition}
use servercc.Types.Memory.{copy_from}
use servercc.Types.Header.{header_bytes, message_header_length}
use servercc.Types.Message.{Message}
use servercc.Types.Posix.{
  Posix, SockAddr, Descriptors, multicast_ttl, bind_to_device, af_inet, sock_dgram,
}
use servercc.Types.Stream.{read_message}

-- `addr` is `inet_addr` of the group and `htons` of the port, which the source computes on opening.
pub record MulticastClient : Type 0 where
  pub interface : String
  pub ttl : ℕ
  pub addr : SockAddr
  pub client_fd : ℤ
  pub is_socket_open : Bool
  pub client_addr : SockAddr

abbrev pub no_addr : SockAddr
no_addr = record { address = 0; port = 0 }

unfoldable pub new_multicast_client : String → SockAddr → ℕ → MulticastClient
new_multicast_client interface addr ttl = record {
  interface = interface;
  ttl = ttl;
  addr = addr;
  client_fd = negsuc 0;
  is_socket_open = false;
  client_addr = no_addr;
}

module _ (posix : Posix) where
  open posix use {World, socket, setsockopt, sendto, close}

  configure_socket : ℤ → MulticastClient → World → Status × MulticastClient × World
  configure_socket fd c w =
      let (result, w1) = setsockopt fd (multicast_ttl c.ttl) w in
      if is_negative result
      then (error internal "Failed to set socket TTL option", c, w1)
      else let (result', w2) = setsockopt fd (bind_to_device c.interface) w1 in
        if is_negative result' then (error internal "Failed to set socket interface", c, w2) else (
          ok_status,
          record c { client_addr = c.addr; client_fd = fd; is_socket_open = true },
          w2,
        )

  unfoldable pub open_socket : MulticastClient → World → Status × MulticastClient × World
  unfolding configure_socket
  open_socket c w =
      if c.is_socket_open
      then (ok_status, c, w)
      else let (fd, w1) = socket af_inet sock_dgram 0 w in
        if is_negative fd
        then (error internal "Failed to create socket", c, w1)
        else configure_socket fd c w1

  unfoldable pub close_socket : MulticastClient → World → MulticastClient × World
  close_socket c w = if not c.is_socket_open then (c, w) else (
    record c { client_fd = negsuc 0; is_socket_open = false; client_addr = no_addr },
    close c.client_fd w,
  )

  send_body : Message → MulticastClient → World → Outcome (Status × World)
  send_body m c w = do
    bytes ← copy_from m.body 0 m.header.length
    let (sent, w') = sendto c.client_fd bytes c.client_addr w
    done (
        if signed_lt sent m.header.length
        then (error internal "Failed to send message body", w')
        else (ok_status, w'))

  -- Two datagrams: the header, then the body.
  unfoldable pub send_message : Message → MulticastClient → World → Outcome (Status × World)
  unfolding send_body
  send_message m c w =
      if not c.is_socket_open
      then done (error failed_precondition "Socket is not open", w)
      else let (sent, w') = sendto c.client_fd (header_bytes m.header) c.client_addr w in
        if signed_lt sent message_header_length
        then done (error internal "Failed to send message header", w')
        else send_body m c w'

  unfoldable pub receive_message : MulticastClient → World → Status × Option Message × World
  receive_message c w =
      if not c.is_socket_open
      then (error failed_precondition "Socket is not open", none, w)
      else read_message posix c.client_fd w

  -- Opening a closed client succeeds exactly where the socket is open afterwards; where a socket
  -- was made but an option was refused, the descriptor stays held though the client has none.
  pub open_socket-leaks :
      (d : Descriptors posix) (c : MulticastClient) (w : World)
      → c.is_socket_open ≡ false
      → let (fd, w1) = socket af_inet sock_dgram 0 w in
        let (status, c', w') = open_socket c w in
        (is_ok status ≡ c'.is_socket_open)
        × (d.held w' ≡ (if is_negative fd then d.held w else d.held w + 1))
        × (c' ≡ (
            if is_ok status
            then record c { client_addr = c.addr; client_fd = fd; is_socket_open = true }
            else c))
  unfolding open_socket
  open_socket-leaks d c w shut =
      let (fd, w1) = socket af_inet sock_dgram 0 w in
      let (result, w2) = setsockopt fd (multicast_ttl c.ttl) w1 in
      ground (
        arith,
        d.socket_held af_inet sock_dgram 0 w,
        d.setsockopt_held fd (multicast_ttl c.ttl) w1,
        d.setsockopt_held fd (bind_to_device c.interface) w2,
      )
