-- ===== src/Servers/TcpRequest.antt =====
-- servercc/servers/src/tcp_request.cc
use servercc.Common.{ℕ, ℤ, Bool, true, false, Option, none, some, if◌then◌else◌}
use servercc.Types.Status.{Status, ok_status}
use servercc.Types.Message.{Message}
use servercc.Types.Posix.{Posix, SockAddr}
use servercc.Types.Stream.{read_message, read_message_for, write_message}

pub record TcpRequest : Type 0 where
  pub client_socket_fd : ℤ
  pub client_addr : SockAddr
  pub protocol : ℕ
  pub message : Option Message
  pub keep_alive : Bool

unfoldable pub new_tcp_request : ℤ → SockAddr → Message → TcpRequest
new_tcp_request fd addr message = record {
  client_socket_fd = fd;
  client_addr = addr;
  protocol = message.header.protocol;
  message = some message;
  keep_alive = false;
}

unfoldable pub set_keep_alive : TcpRequest → ℤ × TcpRequest
set_keep_alive r = (r.client_socket_fd, record r { keep_alive = true })

module _ (posix : Posix) where
  open posix use {World, close}

  -- The first message was read by the server; the others come from the socket.
  unfoldable pub receive_message : TcpRequest → World → Status × Option Message × TcpRequest × World
  receive_message r w = elim r.message [
    | some m ↦ (ok_status, some m, record r { message = none }, w)
    | none ↦ let (status, m, w') = read_message posix r.client_socket_fd w in (status, m, r, w')
  ]

  unfoldable pub receive_message_for :
      Bool → TcpRequest → World → Status × Option Message × TcpRequest × World
  receive_message_for expired r w = elim r.message [
    | some m ↦ (ok_status, some m, record r { message = none }, w)
    | none ↦
        let (status, m, w') = read_message_for posix expired r.client_socket_fd w in
        (status, m, r, w')
  ]

  unfoldable pub send_message : Message → TcpRequest → World → Status × World
  send_message m r w = write_message posix r.client_socket_fd m w

  unfoldable pub terminate : TcpRequest → World → World
  terminate r w = if r.keep_alive then w else close r.client_socket_fd w

  -- `~TcpRequest`
  unfoldable pub destroy_request : TcpRequest → World → World
  unfolding terminate
  destroy_request r w = terminate r w
