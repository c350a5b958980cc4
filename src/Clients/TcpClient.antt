-- ===== src/Clients/TcpClient.antt =====
-- servercc/clients/include/client.h and servercc/clients/src/tcp_client.cc
pub mod Sockets
use servercc.Common.{
  ℕ, ℤ, pos, negsuc, Bool, true, false, not, List, [], ◌∷◌, String, Option, none, some, Outcome,
  done, undefined, ltb, ◌>>=◌, ◌==◌, is_minus_one, signed_lt, if◌then◌else◌,
}
use servercc.Types.Status.{Status, ok_status, error, internal, failed_precondition}
use servercc.Types.Memory.{copy_from}
use servercc.Types.Header.{header_bytes, message_header_length}
use servercc.Types.Message.{Message}
use servercc.Types.Posix.{Posix, SockAddr, AddrInfo, sock_stream}
use servercc.Types.Stream.{read_message}

-- The fields of `Client`, which are all that a `TcpClient` has.
pub record Client : Type 0 where
  pub server_address : String
  pub port : ℕ
  pub client_fd : ℤ
  pub is_socket_open : Bool
  pub client_addr : SockAddr

unfoldable pub new_client : String → ℕ → Client
new_client server_address port = record {
  server_address = server_address;
  port = port;
  client_fd = negsuc 0;
  is_socket_open = false;
  client_addr = record { address = 0; port = 0 };
}

-- A client on a socket that is connected already.
unfoldable pub connected_client : ℤ → String → ℕ → SockAddr → Client
connected_client socket server_address port client_addr = record {
  server_address = server_address;
  port = port;
  client_fd = socket;
  is_socket_open = true;
  client_addr = client_addr;
}

unfoldable pub get_client_in_addr : Client → ℕ
get_client_in_addr c = c.client_addr.address

-- `== 0`
abbrev pub is_zero : ℤ → Bool
is_zero (pos n) = n == 0
is_zero (negsuc n) = false

module _ (posix : Posix) where
  open posix use {World, getaddrinfo, socket, connect, read_freed, send, fsync, close}

  -- The loop over the addresses; it leaves the descriptor of the first that accepts, or -1. The
  -- descriptor that is passed in is the one before the loop.
  unfoldable pub connect_any : List AddrInfo → ℤ → World → ℤ × World
  connect_any [] fd w = (fd, w)
  connect_any (p ∷ ps) fd w =
      let (fd', w1) = socket p.ai_family p.ai_socktype p.ai_protocol w in
      let unopened = connect_any ps fd' w1 in
      let (result, w2) = connect fd' p.ai_addr w1 in
      let refused = connect_any ps (negsuc 0) (close fd' w2) in
      if is_minus_one fd' then unopened else if is_minus_one result then refused else (fd', w2)

  -- `memcpy(&clientAddr, serverInfo->ai_addr, serverInfo->ai_addrlen)`, after the list was freed; the
  -- `sockaddr` has 16 bytes. No address of an internet family has fewer.
  abbrev pub copied_addr : AddrInfo → World → Outcome SockAddr
  copied_addr info w = elim (read_freed info w) [
    | none ↦ undefined
    | some freed ↦ if ltb 16 freed.ai_addrlen then undefined else done freed.ai_addr
  ]

  unfoldable pub open_socket : Client → World → Outcome (Status × Client × World)
  open_socket c w =
      if c.is_socket_open
      then done (ok_status, c, w)
      else let (result, first, rest, w1) =
          getaddrinfo (some c.server_address) (pos c.port) sock_stream w in
        if not (is_zero result)
        then done (error internal "Could not resolve server address", c, w1)
        else let (fd, w2) = connect_any (first ∷ rest) c.client_fd w1 in
          if is_minus_one fd
          then done (error internal "Could not connect to server", record c { client_fd = fd }, w2)
          else do
            addr ← copied_addr first w2
            done (
              ok_status,
              record c { client_fd = fd; is_socket_open = true; client_addr = addr },
              w2,
            )

  unfoldable pub close_socket : Client → World → Client × World
  close_socket c w =
      if is_minus_one c.client_fd
      then (c, w)
      else (record c { client_fd = negsuc 0; is_socket_open = false }, close c.client_fd w)

  -- The body is read for as many bytes as the header states, also past its end.
  send_body : ℤ → Message → World → Outcome (Status × World)
  send_body fd m w = do
    bytes ← copy_from m.body 0 m.header.length
    let (sent, w') = send fd bytes w
    done (
        if signed_lt sent m.header.length
        then (error internal "Failed to send message body", w')
        else (ok_status, fsync fd w'))

  unfoldable pub send_message : Message → Client → World → Outcome (Status × World)
  unfolding send_body
  send_message m c w =
      if is_minus_one c.client_fd
      then done (error failed_precondition "Socket is not open", w)
      else let (sent, w') = send c.client_fd (header_bytes m.header) w in
        if signed_lt sent message_header_length
        then done (error internal "Failed to send message header", w')
        else send_body c.client_fd m w'

  unfoldable pub receive_message : Client → World → Status × Option Message × World
  receive_message c w =
      if is_minus_one c.client_fd
      then (error failed_precondition "Socket is not open", none, w)
      else read_message posix c.client_fd w
