-- ===== src/Servers/Binding.antt =====
-- The constructors of servercc/servers/src/tcp_server.cc and udp_server.cc.
pub mod Held
pub mod Making
use servercc.Common.{
  ℕ, ◌+◌, ◌-◌, ◌≡◌, ℤ, pos, negsuc, Bool, true, false, not, ◌&&◌, List, [], ◌∷◌, String, Option,
  none, some, arith, ltb, ◌==◌, inl, inr, Option-cases, is_some, is_negative, if◌then◌else◌,
}
use servercc.Types.Posix.{
  Posix, AddrInfo, Descriptors, reuse_addr, add_membership, sock_stream, sock_dgram,
}
use servercc.Servers.Registry.{Handler, Server}

-- A 16-bit port as the constructors' `int16_t`.
abbrev pub int16 : ℕ → ℤ
int16 port = if ltb port 32768 then pos port else negsuc (65535 - port)

-- `!= 0`
abbrev pub is_nonzero : ℤ → Bool
is_nonzero (pos n) = not (n == 0)
is_nonzero (negsuc n) = true

-- A server without handlers; the address that it keeps is freed memory, which nothing reads.
abbrev pub new_server : {R W : Type 0} → ℕ → Handler R W → ℤ → Server R W
new_server port default_handler fd = record {
  port = port;
  handlers = λ protocol. none;
  default_handler = default_handler;
  server_socket_fd = fd;
}

module _ (posix : Posix) where
  open posix use {World, getaddrinfo, socket, setsockopt, bind, listen, close}

  -- The loop of the TCP server over the addresses: the descriptor of the first that can be bound.
  unfoldable pub bind_any : List AddrInfo → World → Option ℤ × World
  bind_any [] w = (none, w)
  bind_any (p ∷ ps) w =
      let (fd, w1) = socket p.ai_family p.ai_socktype p.ai_protocol w in
      let (set, w2) = setsockopt fd reuse_addr w1 in
      let (bound, w3) = bind fd p.ai_addr w2 in
      let no_socket = bind_any ps w1 in
      let not_set = bind_any ps (close fd w2) in
      let not_bound = bind_any ps (close fd w3) in
      if is_negative fd
      then no_socket
      else if is_negative set
      then not_set
      else if is_negative bound
      then not_bound
      else (some fd, w3)

  -- `TcpServer::TcpServer`; it has thrown where there is no server.
  unfoldable pub new_tcp_server :
      {R : Type 0} → ℕ → Handler R World → World → Option (Server R World) × World
  new_tcp_server port default_handler w =
      let (result, first, rest, w1) = getaddrinfo none (int16 port) sock_stream w in
      let (bound, w2) = bind_any (first ∷ rest) w1 in
      if is_nonzero result then (none, w1) else elim bound [
        | none ↦ (none, w2)
        | some fd ↦
            let (listening, w3) = listen fd 100 w2 in
            if is_negative listening
            then (none, w3)
            else (some (new_server port default_handler fd), w3)
      ]

  -- The group is joined on each interface in turn; the socket is closed where one is refused.
  unfoldable pub join_group : ℤ → String → List String → World → Bool × World
  join_group fd group [] w = (true, w)
  join_group fd group (interface ∷ interfaces) w =
      let (result, w1) = setsockopt fd (add_membership group interface) w in
      let others = join_group fd group interfaces w1 in
      if is_negative result then (false, close fd w1) else others

  -- The loop of the UDP server over the addresses.
  unfoldable pub bind_group : String → List String → List AddrInfo → World → Option ℤ × World
  bind_group group interfaces [] w = (none, w)
  bind_group group interfaces (p ∷ ps) w =
      let (fd, w1) = socket p.ai_family p.ai_socktype p.ai_protocol w in
      let (set, w2) = setsockopt fd reuse_addr w1 in
      let (bound, w3) = bind fd p.ai_addr w2 in
      let (joined, w4) = join_group fd group interfaces w3 in
      let no_socket = bind_group group interfaces ps w1 in
      let not_set = bind_group group interfaces ps (close fd w2) in
      let not_bound = bind_group group interfaces ps (close fd w3) in
      let not_joined = bind_group group interfaces ps w4 in
      if is_negative fd
      then no_socket
      else if is_negative set
      then not_set
      else if is_negative bound
      then not_bound
      else if not joined
      then not_joined
      else (some fd, w4)

  -- `UdpServer::UdpServer`; it has thrown where there is no server.
  unfoldable pub new_udp_server :
      {R : Type 0}
      → ℕ
      → String
      → List String
      → Handler R World
      → World
      → Option (Server R World) × World
  new_udp_server port group interfaces default_handler w =
      let (result, first, rest, w1) = getaddrinfo none (int16 port) sock_dgram w in
      let (bound, w2) = bind_group group interfaces (first ∷ rest) w1 in
      if is_nonzero result then (none, w1) else elim bound [
        | none ↦ (none, w2)
        | some fd ↦ (some (new_server port default_handler fd), w2)
      ]
