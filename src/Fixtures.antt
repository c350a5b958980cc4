-- ===== src/Fixtures.antt =====
-- A loopback network and list buffers, on which the theorems' hypotheses are met.
pub mod Duplex
use servercc.Common.{
  ◌≡◌, Bool, true, false, ltb, if◌then◌else◌, ℕ, ◌+◌, ◌-◌, refl, ap, ℤ, pos, negsuc, List, [], ◌∷◌,
  ◌++◌, Option, some, Outcome, done, blocked, arith, length, take, drop, length-take,
}
use servercc.Types.Status.{Status, ok_status}
use servercc.Types.Header.{IsHeader}
use servercc.Types.Message.{Message}
use servercc.Types.Posix.{
  AddrInfo, Posix, SockAddr, ByteStream, Descriptors, SocketResults, af_inet, sock_stream,
}
use servercc.Connectors.Manager.Delivery.{IsConfig}
use servercc.Connectors.Env.{Fifo, Env, MessageBuffer, ChannelConfig}

-- Bytes on the wire, datagrams with the result of their receive, and the descriptors that are held.
pub record Net : Type 0 where
  pub wire : List ℕ
  pub datagrams : List (ℤ × List ℕ)
  pub held : ℕ

abbrev pub idle : Net
idle = record { wire = []; datagrams = []; held = 0 }

abbrev pub local_addr : SockAddr
local_addr = record { address = 16777343; port = 36895 }

abbrev pub receive_datagram : List (ℤ × List ℕ) → Net → ℤ × List ℕ × SockAddr × Net
receive_datagram [] w = (negsuc 0, [], local_addr, w)
receive_datagram ((result, bytes) ∷ rest) w =
    (result, bytes, local_addr, record w { datagrams = rest })

-- The descriptors are held in the order of their numbers.
abbrev pub is_held : ℤ → Net → Bool
is_held (pos n) w = ltb n w.held
is_held (negsuc n) w = false

abbrev pub local_info : AddrInfo
local_info = record {
  ai_family = af_inet;
  ai_socktype = sock_stream;
  ai_protocol = 0;
  ai_addrlen = 16;
  ai_addr = local_addr;
}

-- Everything that is sent can be received again, on any descriptor.
abbrev pub loopback : Posix
loopback = record {
  World = Net;
  send = λ fd bytes w. (pos (length bytes), record w { wire = w.wire ++ bytes });
  recv = λ fd n w. (pos (length (take n w.wire)), take n w.wire, record w { wire = drop n w.wire });
  getaddrinfo = λ host port kind w. (pos 0, local_info, [], w);
  socket = λ family kind protocol w. (pos w.held, record w { held = w.held + 1 });
  setsockopt = λ fd option w. (pos 0, w);
  bind = λ fd addr w. (pos 0, w);
  listen = λ fd n w. (pos 0, w);
  connect = λ fd addr w. (pos 0, w);
  read_freed = λ info w. some info;
  sendto = λ fd bytes addr w. (pos (length bytes), w);
  recvfrom = λ fd n w. receive_datagram w.datagrams w;
  accept = λ fd w. (pos 5, local_addr, w);
  fsync = λ fd w. w;
  close = λ fd w. if is_held fd w then record w { held = w.held - 1 } else w;
}

abbrev pub loopback_stream : (source target : ℤ) → ByteStream loopback source target
loopback_stream source target = record {
  pending = λ w. w.wire;
  send_result = λ bytes w. refl;
  send_pending = λ bytes w. refl;
  recv_result = λ n w h. ap pos (omega (arith, length-take n w.wire));
  recv_bytes = λ n w h. refl;
  recv_pending = λ n w h. refl;
  fsync_pending = λ w. refl;
}

pub ltb_suc : (n : ℕ) → ltb n (n + 1) ≡ true
ltb_suc n = ground arith

pub held-close :
    (fd : ℤ) (w : Net) → (loopback.close fd w).held ≡ (if is_held fd w then w.held - 1 else w.held)
held-close fd w = ground arith

abbrev pub loopback_descriptors : Descriptors loopback
loopback_descriptors = record {
  held = λ w. w.held;
  is_open = is_held;
  socket_open = λ family kind protocol w. ltb_suc w.held;
  connect_open = λ fd addr w. refl;
  getaddrinfo_held = λ host port kind w. refl;
  socket_held = λ family kind protocol w. refl;
  setsockopt_held = λ fd option w. refl;
  setsockopt_open = λ fd option w. refl;
  bind_held = λ fd addr w. refl;
  bind_open = λ fd addr w. refl;
  listen_held = λ fd n w. refl;
  connect_held = λ fd addr w. refl;
  close_held = held-close;
}

abbrev pub loopback_sockets : SocketResults loopback
loopback_sockets = record { socket_minus_one = λ family kind protocol w. refl }

-- A buffer is the list of its messages, the oldest first.
abbrev pub pop_list : List Message → Outcome (Status × Option Message × List Message)
pop_list [] = blocked
pop_list (m ∷ ms) = done (ok_status, some m, ms)

abbrev pub list_buffers : MessageBuffer
list_buffers = record {
  Buffer = List Message;
  new_buffer = [];
  push = λ m ms. (ok_status, ms ++ (m ∷ []));
  pop = pop_list;
  pop_for = λ expired ms. pop_list ms;
  close_buffer = λ ms. ms;
}

abbrev pub list_fifo : Fifo list_buffers
list_fifo = record {
  contents = λ ms. ms;
  is_open = λ ms. true;
  new_contents = refl;
  new_open = refl;
  push_ok = λ m ms h. (refl, refl, refl);
  pop_first = λ m rest ms h e. (rest, ap pop_list e, refl, refl);
}

abbrev pub local_env : Env
local_env = record { posix = loopback; buffers = list_buffers }

-- Two channels.
abbrev pub small_config : ChannelConfig
small_config = record {
  request_protocol = 1;
  request_end_protocol = 2;
  response_protocol = 3;
  response_end_protocol = 4;
  error_protocol = 4;
  max_channels = 2;
}

-- Three bytes under protocol 7.
abbrev pub greeting : Message
greeting = record { header = record { length = 3; protocol = 7 }; body = 104 ∷ 105 ∷ 33 ∷ [] }

pub greeting-IsHeader : IsHeader greeting.header
greeting-IsHeader = record { length_fits = omega arith; protocol_fits = omega arith }

pub small_config-IsConfig : IsConfig small_config
small_config-IsConfig = record {
  fits = λ side. ground arith;
  fits_end = λ side. ground arith;
  not_response_end = λ side. ground arith;
  not_request_end = λ side. ground arith;
  sides_differ = omega arith;
  ends_differ = omega arith;
}
