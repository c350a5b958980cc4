-- ===== src/Types/Posix.antt =====
-- The system calls on sockets that the code makes, and what it relies on of a connected pair.
use servercc.Common.{
  Bool, not, String, Option, ℕ, ◌≤◌, ◌≡◌, ℤ, pos, List, ◌++◌, ◌+◌, ◌-◌, is_negative, is_minus_one,
  if◌then◌else◌, length, take, drop,
}

-- A `sockaddr_in`: the address and the port in network order.
pub record SockAddr : Type 0 where
  pub address : ℕ
  pub port : ℕ

pub record AddrInfo : Type 0 where
  pub ai_family : ℕ
  pub ai_socktype : ℕ
  pub ai_protocol : ℕ
  pub ai_addrlen : ℕ
  pub ai_addr : SockAddr

-- The socket options that the code sets.
pub data SockOption : Type 0 where
  reuse_addr : SockOption
  add_membership : String → String → SockOption
  multicast_ttl : ℕ → SockOption
  bind_to_device : String → SockOption

abbrev pub af_inet : ℕ
af_inet = 2

abbrev pub sock_stream : ℕ
sock_stream = 1

abbrev pub sock_dgram : ℕ
sock_dgram = 2

-- A call returns its C result, what it stores through its pointer, and the world after it.
pub record Posix : Type 1 where
  pub World : Type 0
  pub send : ℤ → List ℕ → World → ℤ × World
  pub recv : ℤ → ℕ → World → ℤ × List ℕ × World
  -- Of a host, or of any address, and a port written in decimal, for a kind of socket. A list of
  -- addresses that is returned has a first element.
  pub getaddrinfo : Option String → ℤ → ℕ → World → ℤ × AddrInfo × List AddrInfo × World
  pub socket : ℕ → ℕ → ℕ → World → ℤ × World
  pub setsockopt : ℤ → SockOption → World → ℤ × World
  pub bind : ℤ → SockAddr → World → ℤ × World
  pub listen : ℤ → ℕ → World → ℤ × World
  pub connect : ℤ → SockAddr → World → ℤ × World
  -- What a read of an address finds after the memory that held it was freed, where the access does
  -- not fail.
  pub read_freed : AddrInfo → World → Option AddrInfo
  pub sendto : ℤ → List ℕ → SockAddr → World → ℤ × World
  pub recvfrom : ℤ → ℕ → World → ℤ × List ℕ × SockAddr × World
  pub accept : ℤ → World → ℤ × SockAddr × World
  pub fsync : ℤ → World → World
  pub close : ℤ → World → World

-- A reliable byte stream from descriptor `source` to descriptor `target`: a `send` is taken whole,
-- and a `recv` of bytes that have arrived gives them in order.
pub record ByteStream (posix : Posix) (source target : ℤ) : Type 0 where
  pub pending : posix.World → List ℕ
  pub send_result : (bs : List ℕ) (w : posix.World) → (posix.send source bs w).0 ≡ pos (length bs)
  pub send_pending :
      (bs : List ℕ) (w : posix.World) → pending (posix.send source bs w).1 ≡ pending w ++ bs
  pub recv_result :
      (n : ℕ) (w : posix.World) → n ≤ length (pending w) → (posix.recv target n w).0 ≡ pos n
  pub recv_bytes :
      (n : ℕ) (w : posix.World)
      → n ≤ length (pending w)
      → (posix.recv target n w).1 ≡ take n (pending w)
  pub recv_pending :
      (n : ℕ) (w : posix.World)
      → n ≤ length (pending w)
      → pending (posix.recv target n w).2 ≡ drop n (pending w)
  pub fsync_pending : (w : posix.World) → pending (posix.fsync source w) ≡ pending w

-- Which descriptors the process holds open, how many they are, and how the calls change that.
pub record Descriptors (posix : Posix) : Type 0 where
  pub held : posix.World → ℕ
  pub is_open : ℤ → posix.World → Bool
  pub getaddrinfo_held :
      (host : Option String) (port : ℤ) (kind : ℕ) (w : posix.World)
      → held (posix.getaddrinfo host port kind w).3 ≡ held w
  pub socket_held :
      (family kind protocol : ℕ) (w : posix.World)
      → held (posix.socket family kind protocol w).1
        ≡ (if is_negative (posix.socket family kind protocol w).0 then held w else held w + 1)
  pub socket_open :
      (family kind protocol : ℕ) (w : posix.World)
      → is_open (posix.socket family kind protocol w).0 (posix.socket family kind protocol w).1
        ≡ not (is_negative (posix.socket family kind protocol w).0)
  pub setsockopt_held :
      (fd : ℤ) (option : SockOption) (w : posix.World)
      → held (posix.setsockopt fd option w).1 ≡ held w
  pub setsockopt_open :
      (fd : ℤ) (option : SockOption) (w : posix.World)
      → is_open fd (posix.setsockopt fd option w).1 ≡ is_open fd w
  pub bind_held :
      (fd : ℤ) (addr : SockAddr) (w : posix.World) → held (posix.bind fd addr w).1 ≡ held w
  pub bind_open :
      (fd : ℤ) (addr : SockAddr) (w : posix.World)
      → is_open fd (posix.bind fd addr w).1 ≡ is_open fd w
  pub listen_held : (fd : ℤ) (n : ℕ) (w : posix.World) → held (posix.listen fd n w).1 ≡ held w
  pub connect_held :
      (fd : ℤ) (addr : SockAddr) (w : posix.World) → held (posix.connect fd addr w).1 ≡ held w
  pub connect_open :
      (fd : ℤ) (addr : SockAddr) (w : posix.World)
      → is_open fd (posix.connect fd addr w).1 ≡ is_open fd w
  -- Closing a descriptor that is not open fails.
  pub close_held :
      (fd : ℤ) (w : posix.World)
      → held (posix.close fd w) ≡ (if is_open fd w then held w - 1 else held w)

-- The descriptors that `socket` returns, and its failure.
pub record SocketResults (posix : Posix) : Type 0 where
  pub socket_minus_one :
      (family kind protocol : ℕ) (w : posix.World)
      → is_minus_one (posix.socket family kind protocol w).0
        ≡ is_negative (posix.socket family kind protocol w).0
